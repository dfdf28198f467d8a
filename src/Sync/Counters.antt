-- ===== src/Sync/Counters.antt =====
-- The result of a run and the metrics count the same events: what a run adds to the metrics is
-- what its result says, also where a step fails.
pub mod Steps
pub mod Run
use cloud_secrets.Prelude.{◌+◌, ◌≡◌}
use cloud_secrets.Metrics.{Secrets}
use cloud_secrets.Sync.Payload.{SyncState}

-- The metrics are those of `base` with the payload's counts added.
pub record Agrees {W : Type 0} (base : Secrets) (s : SyncState W) : Type 0 where
  pub created : s.metrics.created ≡ base.created + s.payload.result.created
  pub removed_secrets :
      s.metrics.removed_secrets ≡ base.removed_secrets + s.payload.result.removed_secrets
  pub removed_versions :
      s.metrics.removed_versions ≡ base.removed_versions + s.payload.result.removed_secret_versions
  pub updated : s.metrics.updated ≡ base.updated + s.payload.result.updated
