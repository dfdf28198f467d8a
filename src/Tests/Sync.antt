-- ===== src/Tests/Sync.antt =====
-- The synchronizer over the world in memory.
use cloud_secrets.Prelude.{
  ok, Error, inl, any, if◌then◌else◌, [], arith, codes, some, true, wrap, ◌∷◌, message, step_error,
}
use cloud_secrets.Prelude.Dict
use cloud_secrets.Engine.{ExistingSecret, CreatedSecretVersion}
use cloud_secrets.Sync.Payload.{Pending, ServiceTask}
use cloud_secrets.Sync.Enqueue.{
  is_stale, enqueue_updated_services, enqueue_same_version_services,
  secret_reference_uses_managed_secret,
}
use cloud_secrets.Sync.Enqueue.Order.{IsOrdered, enqueue-IsOrdered}
use cloud_secrets.Sync.Enqueue.Assigned.{
  assigned, selects, enqueue_updated_services-assigned, enqueue_same_version_services-assigned,
}
use cloud_secrets.Sync.Counters.Run.{Reports, sync-Reports}
use cloud_secrets.Sync.Pipeline.Rollout.{sync-keeps_of_failed_rollout}
use cloud_secrets.Sync.Pipeline.Unremoved.{KeptWithoutRemoval}
use cloud_secrets.Tests.Swarm.{web, db_password, first_version, World}
use cloud_secrets.Prelude.{◌≡◌, refl, none, Text-discrete}
use cloud_secrets.Prelude.Dict
use cloud_secrets.Metrics.{Secrets}
use cloud_secrets.Sync.Payload.{
  SyncResult, step_actions, no_result, has_pending_service_updates, has_pending_version_removals,
  has_pending_secret_restores,
}
use cloud_secrets.Sync.Load.{load_swarm_state, load_external_state}
use cloud_secrets.Sync.Process.{process_external_secrets}
use cloud_secrets.Sync.Apply.{apply_service_updates}
use cloud_secrets.Sync.Remove.{remove_pending_old_versions}
use cloud_secrets.Sync.Restore.{restore_pending_secrets}
use cloud_secrets.Sync.Pipeline.{returned, sync, step_apply_services}
use cloud_secrets.Tests.Pipeline.{sequential, sequential-IsPipeline}
use cloud_secrets.Tests.Swarm.{world, synchronizer}

abbrev no_metrics : Secrets
no_metrics = record { created = 0; removed_secrets = 0; removed_versions = 0; updated = 0 }

abbrev one_update : SyncResult
one_update = record no_result { removed_secrets = 1; updated = 1 }

-- To unfold this is to unfold a whole run.
unfoldable pub whole_run : Unit {0}
unfolding sync sequential load_swarm_state load_external_state process_external_secrets
    apply_service_updates remove_pending_old_versions restore_pending_secrets step_actions
    has_pending_service_updates has_pending_version_removals has_pending_secret_restores
    Text-discrete
whole_run = tt

-- The new version of the password is created, the service is moved to it, and the parent removed.
runs : (sync sequential synchronizer world no_metrics).0 ≡ returned one_update none
unfolding whole_run
runs = refl

run_removes : (sync sequential synchronizer world no_metrics).1.world.removed ≡ codes "id1" ∷ []
unfolding whole_run
run_removes = refl

sync-Reports_example :
    Reports no_metrics one_update (sync sequential synchronizer world no_metrics).1.metrics
sync-Reports_example =
    sync-Reports sequential-IsPipeline synchronizer world no_metrics one_update none refl runs

-- The same world, but no service can be updated.
abbrev frozen_world : World
frozen_world = record world { frozen = true }

abbrev update_error : Error
update_error = wrap "update service" (message "update failed")

frozen_run :
    (sync sequential synchronizer frozen_world no_metrics).0
    ≡ returned
        (record no_result { updated = 1 })
        (some (step_error step_apply_services update_error))
unfolding whole_run
frozen_run = refl

abbrev NothingRemoved : World → Type 0
NothingRemoved w = w.removed ≡ []

NothingRemoved-kept : KeptWithoutRemoval synchronizer NothingRemoved
NothingRemoved-kept = record {
  list_services = record { at = λ w h. h };
  map_secrets = record { at = λ w h. h };
  update_service = λ service. record { at = λ w h. ground arith };
  create_secret = λ spec. record { at = λ w h. h };
  create_secret_version = λ secret version. record { at = λ w h. h };
  list_secrets = record { at = λ w h. h };
  get_secret_payload = λ path. record { at = λ w h. h };
  new_uuid = record { at = λ w h. h };
}

sync-keeps_of_failed_rollout_example :
    NothingRemoved (sync sequential synchronizer frozen_world no_metrics).1.world
sync-keeps_of_failed_rollout_example =
    sync-keeps_of_failed_rollout sequential-IsPipeline synchronizer NothingRemoved
      NothingRemoved-kept frozen_world no_metrics (record no_result { updated = 1 }) update_error
      refl frozen_run

-- One service that uses the secret is queued.
abbrev no_pending : Pending
no_pending = record { pending_service_updates = []; pending_service_update_order = [] }

abbrev created : CreatedSecretVersion
created = record { id = codes "new-id"; name = codes "app-db-2" }

abbrev web_task : ServiceTask
web_task = record {
  service = web;
  secrets = (codes "id1", record { name = codes "app-db-2"; id = codes "new-id" }) ∷ [];
}

abbrev web_pending : Pending
web_pending = record {
  pending_service_updates = (codes "svc", web_task) ∷ [];
  pending_service_update_order = codes "svc" ∷ [];
}

queued : enqueue_updated_services (web ∷ []) db_password created no_pending ≡ ok web_pending
unfolding enqueue_updated_services Text-discrete Dict.lookup Dict.insert
queued = refl

enqueue-IsOrdered_example : IsOrdered web_pending
enqueue-IsOrdered_example =
    enqueue-IsOrdered (web ∷ []) db_password created no_pending web_pending
      (record { order = unfold Dict.keys in refl; nodup = tt }) (inl queued)

enqueue_updated_services-assigned_example : assigned web_pending (codes "svc") (codes "id1") ≡ (
    if any
      (selects
        (λ ref. secret_reference_uses_managed_secret ref db_password)
        (codes "svc")
        (codes "id1"))
      (web ∷ [])
    then some (record { name = codes "app-db-2"; id = codes "new-id" })
    else assigned no_pending (codes "svc") (codes "id1"))
enqueue_updated_services-assigned_example =
    enqueue_updated_services-assigned (web ∷ []) db_password created no_pending web_pending
      (codes "svc") (codes "id1") queued

-- The secret has a parent with a new ID, and the service still refers to the old version.
abbrev renewed : ExistingSecret
renewed = record db_password {
  id = codes "id2";
  versions =
      record { id = codes "id2"; external_id = codes "2"; updated_at = 9 } ∷ first_version ∷ [];
}

abbrev lag_pending : Pending
lag_pending = record {
  pending_service_updates =
      (
        codes "svc",
        record {
          service = web;
          secrets = (codes "id1", record { name = codes "app-db"; id = codes "id2" }) ∷ [];
        },
      )
      ∷ [];
  pending_service_update_order = codes "svc" ∷ [];
}

lag_queued : enqueue_same_version_services (web ∷ []) renewed no_pending ≡ ok lag_pending
unfolding enqueue_same_version_services Text-discrete Dict.lookup Dict.insert
lag_queued = refl

enqueue_same_version_services-assigned_example :
    assigned lag_pending (codes "svc") (codes "id1") ≡ (
      if any (selects (is_stale renewed) (codes "svc") (codes "id1")) (web ∷ [])
      then some (record { name = codes "app-db"; id = codes "id2" })
      else assigned no_pending (codes "svc") (codes "id1"))
enqueue_same_version_services-assigned_example =
    enqueue_same_version_services-assigned (web ∷ []) renewed no_pending lag_pending (codes "svc")
      (codes "id1") lag_queued
