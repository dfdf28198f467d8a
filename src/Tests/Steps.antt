-- ===== src/Tests/Steps.antt =====
-- The steps of the synchronizer, each from a state of its own.
use cloud_secrets.Sync.Remove.Sweep.{sweep, due, remove_old_versions-Implements}
use cloud_secrets.Sync.Process.Branches.{process_external_secret_failed}
use cloud_secrets.Sync.Cleanup.{orphaned_managed_secret_removals}
use cloud_secrets.Tests.Swarm.{
  World, db_password, external_db, web, db_reference, first_version, synchronizer, world, manager,
  client,
}
use cloud_secrets.Sync.Apply.Swap.{IsSettled}
use cloud_secrets.Sync.Process.{
  latest_is, prepare_secret_path, process_external_secret, create_updated_secret_version,
  get_updated_secret_payload,
}
use cloud_secrets.Providers.Contracts.{Secret}
use cloud_secrets.Sync.Cleanup.Orphans.{Unreferenced, orphaned_managed_secret_removals-Unreferenced}
use cloud_secrets.Sync.Remove.{remove_old_versions}
use cloud_secrets.Sync.Apply.{apply_service_updates, swap_references}
use cloud_secrets.Sync.Payload.{
  SecretVersionRemoval, SyncPayload, SyncState, Synchronizer, ServiceTask, empty_payload,
  step_actions,
}
use cloud_secrets.Engine.{ExistingSecret, ExistingSecretVersion, Service, latest_version}
use cloud_secrets.Metrics.{Secrets}
use cloud_secrets.Sync.Apply.Rollout.{Distinct, plan, rollout, apply_service_updates-Implements}
use cloud_secrets.Prelude.{
  ◌≡◌, refl, All, Error, List, Text-discrete, wrap, codes, message, ◌∷◌, [], false, some, true,
  arith, err,
}
use cloud_secrets.Prelude.Dict
use cloud_secrets.Sync.Apply.Rollout
use cloud_secrets.Sync.Remove.Sweep

abbrev no_metrics : Secrets
no_metrics = record { created = 0; removed_secrets = 0; removed_versions = 0; updated = 0 }

-- Two services are to be updated, and the offset is still at the first.
abbrev api : Service
api = record web { id = codes "api"; name = codes "api" }

abbrev task_of : Service → ServiceTask
task_of service = record {
  service = service;
  secrets = (codes "id1", record { name = codes "app-db-2"; id = codes "new-id" }) ∷ [];
}

abbrev two_tasks : SyncPayload
two_tasks = record empty_payload {
  pending = record {
    pending_service_updates = (codes "svc", task_of web) ∷ (codes "api", task_of api) ∷ [];
    pending_service_update_order = codes "svc" ∷ codes "api" ∷ [];
  };
}

abbrev two_tasks_state : SyncState World
two_tasks_state = record { world = world; metrics = no_metrics; payload = two_tasks }

abbrev moved : Service → Service
moved service = record service {
  container_spec =
      some
        (record db_reference { secret_id = codes "new-id"; secret_name = codes "app-db-2" } ∷ []);
}

two_tasks-Distinct : Distinct (codes "svc" ∷ codes "api" ∷ [])
unfolding Text-discrete
two_tasks-Distinct = (refl, (refl, tt))

two_tasks_plan :
    plan two_tasks.pending_service_updates (codes "svc" ∷ codes "api" ∷ [])
    ≡ some (moved web ∷ moved api ∷ [])
unfolding Dict.lookup Text-discrete swap_references
two_tasks_plan = refl

apply_service_updates-Implements_example :
    Rollout.Implements two_tasks_state
      (apply_service_updates synchronizer two_tasks_state)
      (rollout client.update_service (moved web ∷ moved api ∷ []) world)
apply_service_updates-Implements_example =
    apply_service_updates-Implements synchronizer (moved web ∷ moved api ∷ []) two_tasks_state
      two_tasks-Distinct two_tasks_plan

-- A secret of two versions, of which the newer is the parent.
abbrev older_version : ExistingSecretVersion
older_version = record { id = codes "id0"; external_id = codes "0"; updated_at = 1 }

abbrev two_versions : ExistingSecret
two_versions = record db_password { versions = first_version ∷ older_version ∷ [] }

abbrev kept_parent : List SecretVersionRemoval
kept_parent = record { secret = two_versions; remove_parent = false } ∷ []

remove_old_versions-Implements_example :
    Sweep.Implements two_tasks_state
      (remove_old_versions synchronizer kept_parent two_tasks_state)
      (sweep client.remove_secret (due kept_parent) world)
remove_old_versions-Implements_example =
    remove_old_versions-Implements synchronizer kept_parent two_tasks_state

-- The Swarm has a managed secret that the manager does not list.
abbrev one_secret : SyncPayload
one_secret = record empty_payload {
  services = web ∷ [];
  swarm_secrets_map = (codes "app-db", two_versions) ∷ [];
}

orphaned_managed_secret_removals-Unreferenced_example :
    All
      (λ removal. Unreferenced (web ∷ []) removal.secret)
      (orphaned_managed_secret_removals one_secret (codes "-"))
orphaned_managed_secret_removals-Unreferenced_example =
    orphaned_managed_secret_removals-Unreferenced one_secret (codes "-") ((refl, (refl, tt)), tt)

abbrev one_secret_state : SyncState World
one_secret_state = record { world = world; metrics = no_metrics; payload = one_secret }

-- The version that the Swarm has.
abbrev same_db : Secret
same_db = record external_db { version_id = codes "1" }

db_found :
    Dict.lookup (prepare_secret_path synchronizer same_db.path) one_secret.swarm_secrets_map
    ≡ some two_versions
unfolding Dict.lookup Text-discrete prepare_secret_path
db_found = refl

db_latest : latest_is two_versions same_db ≡ true
unfolding Text-discrete latest_version
db_latest = refl

-- The manager cannot be read.
abbrev unreadable : Synchronizer World
unreadable = record synchronizer {
  secret_provider = record manager { get_secret_payload = λ path w. (err (message "sealed"), w) };
}

abbrev sealed : Error
sealed = wrap "get payload of secret" (message "sealed")

read_fails : (process_external_secret unreadable external_db one_secret_state).0 ≡ err sealed
unfolding process_external_secret create_updated_secret_version get_updated_secret_payload
    step_actions Text-discrete
read_fails = refl

process_external_secret_failed_example :
    ((process_external_secret unreadable external_db one_secret_state).1.payload ≡ one_secret)
    × ((process_external_secret unreadable external_db one_secret_state).1.metrics ≡ no_metrics)
process_external_secret_failed_example =
    process_external_secret_failed unreadable external_db one_secret_state sealed read_fails

task_of-IsSettled : IsSettled (task_of web).secrets
unfolding Dict.lookup Text-discrete
task_of-IsSettled id new found = ground arith
