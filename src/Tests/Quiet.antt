-- ===== src/Tests/Quiet.antt =====
-- Runs that find the Swarm in step with the secret manager, and the counts of a step.
use cloud_secrets.Prelude.{
  arith, ℕ, false, List, ◌≡◌, refl, sym, ◌∙◌, ◌≢◌, none, [], ◌∷◌, ok, codes, Text-discrete,
}
use cloud_secrets.Prelude.Dict
use cloud_secrets.Engine.{latest_version}
use cloud_secrets.Metrics.{Secrets}
use cloud_secrets.Providers.Contracts.{Secret}
use cloud_secrets.Sync.Payload.{SyncPayload, SyncState, SyncResult, empty_payload, no_result}
use cloud_secrets.Sync.Enqueue.{secret_reference_uses_managed_secret}
use cloud_secrets.Sync.Process.{prepare_secret_path, process_external_secrets}
use cloud_secrets.Sync.Process.Quiet.{AllSynced}
use cloud_secrets.Strings.{contains}
use cloud_secrets.SecretName.{validate}
use cloud_secrets.Sync.Process.Names.{prepare_secret_path-injective, colliding_never_current}
use cloud_secrets.Sync.Process.Tally.{status, current, tally}
use cloud_secrets.Sync.Pipeline.{sync, returned}
use cloud_secrets.Sync.Process.Mirror.{view, mirror}
use cloud_secrets.Sync.Process.Mirror.Run.{process_external_secrets-mirror}
use cloud_secrets.Sync.Pipeline.Report.{Counts, sync_tally, sync_without_container}
use cloud_secrets.Tests.Sync.{whole_run}
use cloud_secrets.Application.{Application}
use cloud_secrets.Application.Setup.{Process, synchronize}
use cloud_secrets.Application.Setup.InStep.{InStep, Idle, run-keeps_InStep}
use cloud_secrets.Application.Loop.{Event, sighup, tick, requested, finished, run, crashed}
use cloud_secrets.Sync.Pipeline.Quiet.{Readings, sync_quiet}
use cloud_secrets.Tests.Pipeline.{sequential, sequential-IsPipeline}
use cloud_secrets.Tests.Swarm.{World, world, synchronizer, web, db_password, external_db}

abbrev no_metrics : Secrets
no_metrics = record { created = 0; removed_secrets = 0; removed_versions = 0; updated = 0 }

-- The manager lists the version that the Swarm has.
abbrev same_db : Secret
same_db = record external_db { version_id = codes "1" }

abbrev calm : World
calm = record world { listed = (codes "app/db", same_db) ∷ [] }

abbrev readings : Readings synchronizer calm calm
readings = record {
  services = web ∷ [];
  secrets = (codes "app-db", db_password) ∷ [];
  external_secrets = (codes "app/db", same_db) ∷ [];
  listed = calm;
  mapped = calm;
  list_services = refl;
  map_secrets = refl;
  list_secrets = refl;
}

all_synced :
    AllSynced synchronizer
      (web ∷ [])
      ((codes "app-db", db_password) ∷ [])
      ((codes "app/db", same_db) ∷ [])
unfolding Dict.lookup Text-discrete prepare_secret_path latest_version
    secret_reference_uses_managed_secret
all_synced = (
  record { swarm_secret = db_password; found = refl; latest = refl; single = refl; settled = refl },
  tt,
)

sync_quiet_example :
    ((sync sequential synchronizer calm no_metrics).0
      ≡ returned (record no_result { skipped = 1 }) none)
    × ((sync sequential synchronizer calm no_metrics).1.world ≡ calm)
    × ((sync sequential synchronizer calm no_metrics).1.metrics ≡ no_metrics)
sync_quiet_example =
    sync_quiet sequential-IsPipeline synchronizer calm calm no_metrics readings refl refl all_synced

abbrev IsCalm : World → Type 0
IsCalm w = w ≡ calm

IsCalm-InStep : (w : World) → IsCalm w → InStep synchronizer IsCalm w
IsCalm-InStep w e = rw e (record {
  after = calm;
  readings = readings;
  containers = refl;
  synced = all_synced;
  kept = refl;
})

abbrev calm_process : Application (Process World)
calm_process = record {
  synchronizing = false;
  last_sync_at = none;
  next_sync_at = none;
  syncs = record { runs = []; last_sync_at_unix = 0 };
  world = record { world = calm; secrets = no_metrics };
}

abbrev wake_ups : List (Event (Process World))
wake_ups = sighup ∷ requested ∷ finished ∷ requested ∷ tick ∷ finished ∷ tick ∷ finished ∷ []

abbrev noon : Process World → ℕ
noon _ = 12

run-keeps_InStep_example :
    ((run (synchronize sequential synchronizer) noon 10 wake_ups calm_process).0 ≢ crashed)
    × Idle sequential-IsPipeline synchronizer IsCalm no_metrics
        (run (synchronize sequential synchronizer) noon 10 wake_ups calm_process).1.1.world
run-keeps_InStep_example =
    run-keeps_InStep sequential-IsPipeline synchronizer IsCalm no_metrics noon 10 wake_ups
      calm_process refl (omega arith) (omega arith) IsCalm-InStep tt (refl, refl)

-- One secret is missing and one is outdated.
abbrev two_listed : SyncPayload
two_listed = record empty_payload {
  services = web ∷ [];
  swarm_secrets_map = (codes "app-db", db_password) ∷ [];
  external_secrets =
      (codes "app/new", record external_db { path = codes "app/new" })
      ∷ (codes "app/db", external_db)
      ∷ [];
}

abbrev two_listed_state : SyncState World
two_listed_state = record { world = world; metrics = no_metrics; payload = two_listed }

abbrev two_world : World
two_world = record world { listed = two_listed.external_secrets }

abbrev two_readings : Readings synchronizer two_world two_world
two_readings = record {
  services = web ∷ [];
  secrets = (codes "app-db", db_password) ∷ [];
  external_secrets = two_listed.external_secrets;
  listed = two_world;
  mapped = two_world;
  list_services = refl;
  map_secrets = refl;
  list_secrets = refl;
}

abbrev two_done : SyncResult
two_done = record no_result { created = 1; updated = 1; removed_secrets = 1 }

two_run : (sync sequential synchronizer two_world no_metrics).0 ≡ returned two_done none
unfolding whole_run
two_run = refl

sync_tally_example :
    Counts
      (tally synchronizer
        ((codes "app-db", db_password) ∷ [])
        two_listed.external_secrets
        no_result)
      two_done
sync_tally_example =
    sync_tally sequential-IsPipeline synchronizer two_world two_world no_metrics two_readings
      two_done two_run

process_external_secrets-mirror_example :
    view (process_external_secrets synchronizer two_listed_state)
    ≡ mirror synchronizer two_listed.swarm_secrets_map two_listed.external_secrets world
process_external_secrets-mirror_example =
    process_external_secrets-mirror synchronizer two_listed_state refl

-- One service runs no container.
abbrev lacking_world : World
lacking_world = record two_world { services = record web { container_spec = none } ∷ web ∷ [] }

abbrev lacking_readings : Readings synchronizer lacking_world lacking_world
lacking_readings = record {
  services = lacking_world.services;
  secrets = (codes "app-db", db_password) ∷ [];
  external_secrets = two_listed.external_secrets;
  listed = lacking_world;
  mapped = lacking_world;
  list_services = refl;
  map_secrets = refl;
  list_secrets = refl;
}

sync_without_container_example :
    (sync sequential synchronizer lacking_world no_metrics).0 ≢ returned two_done none
unfolding Dict.has Dict.lookup prepare_secret_path Text-discrete
sync_without_container_example =
    sync_without_container sequential-IsPipeline synchronizer lacking_world lacking_world no_metrics
      lacking_readings two_done refl refl

-- The paths of two folders, and a path that meets another one.
dash_valid : validate (codes "-") ≡ ok tt
unfolding validate Text-discrete
dash_valid = refl

same_path : prepare_secret_path synchronizer (codes "app/db") ≡ codes "app-db"
unfolding prepare_secret_path
same_path = refl

prepare_secret_path-injective_example : codes "app/db" ≡ codes "app/db"
prepare_secret_path-injective_example =
    prepare_secret_path-injective synchronizer (codes "app/db") (codes "app/db") dash_valid
      (unfold contains in (refl, tt)) (unfold contains in (refl, tt)) (same_path ∙ sym same_path)

abbrev dashed_db : Secret
dashed_db = record external_db { path = codes "app-db"; version_id = codes "7" }

versions_differ : codes "2" ≢ codes "7"
versions_differ e = cc

colliding_never_current_example :
    (prepare_secret_path synchronizer (codes "app/db")
      ≡ prepare_secret_path synchronizer (codes "app-db"))
    × ¬ (
        (status synchronizer two_listed.swarm_secrets_map external_db ≡ current)
        × (status synchronizer two_listed.swarm_secrets_map dashed_db ≡ current))
colliding_never_current_example =
    colliding_never_current synchronizer (codes "app") (codes "db") b'-' external_db dashed_db
      two_listed.swarm_secrets_map refl refl refl versions_differ
