-- ===== src/Sync/Counters/Run.antt =====
-- The counts of a whole run.
use cloud_secrets.Prelude.{
  ◌+◌, ◌≡◌, if◌then◌else◌, Bool, true, false, Option, none, some, List, [], ◌∷◌, All, Error, Result,
  ok, err, panic, arith,
}
use cloud_secrets.Prelude.Exec.Keeps.{Keeps}
use cloud_secrets.Metrics.{Secrets}
use cloud_secrets.Sync.Payload.{Synchronizer, SyncState, SyncResult, Step}
use cloud_secrets.Sync.Pipeline.{
  PipelineStep, returned, sync_return, attach_pipeline, failed_in_restore, reload_step,
  cleanup_step, fresh, sync,
}
use cloud_secrets.Sync.Pipeline.Laws.{IsPipeline}
use cloud_secrets.Sync.Pipeline.Laws.Runs.{run-keeps}
use cloud_secrets.Sync.Counters.{Agrees}
use cloud_secrets.Sync.Counters.Steps.{
  load_external_state-Agrees, process_external_secrets-Agrees, Agrees-IsFrame,
}
use cloud_secrets.Sync.Frame.{
  load_swarm_state-Keeps, apply_service_updates-Keeps, remove_pending_old_versions-Keeps,
  restore_pending_secrets-Keeps, cleanup_orphaned_secrets-Keeps,
}

-- The metrics `m'` are `m` with the counts of `r` added.
pub record Reports (m : Secrets) (r : SyncResult) (m' : Secrets) : Type 0 where
  pub created : m'.created ≡ m.created + r.created
  pub removed_secrets : m'.removed_secrets ≡ m.removed_secrets + r.removed_secrets
  pub removed_versions : m'.removed_versions ≡ m.removed_versions + r.removed_secret_versions
  pub updated : m'.updated ≡ m.updated + r.updated

-- The error is that of the restore step, for which `Sync` returns the zero result.
abbrev pub is_restore_failure : Option Error → Bool
is_restore_failure none = false
is_restore_failure (some e) = failed_in_restore e

returned_counts :
    {W : Type 0} {m : Secrets} {st : SyncState W} (o : Result (Unit {0})) (r : SyncResult)
    (e : Option Error)
    → Agrees m st
    → is_restore_failure e ≡ false
    → sync_return o st.payload ≡ returned r e
    → Reports m r st.metrics
returned_counts (ok _) r e a f h = ground arith
returned_counts (err x) r e a f h = ground arith
returned_counts panic r e a f h = cc

module _ {W : Type 0} {run : List (PipelineStep W) → Step W} (laws : IsPipeline run)
    (s : Synchronizer W) where
  steps-Agrees : (base : Secrets) → All (λ step. Keeps (Agrees base) step.run) (attach_pipeline s)
  unfolding attach_pipeline
  steps-Agrees base = (
    load_swarm_state-Keeps s Agrees-IsFrame,
    (
      load_external_state-Agrees s,
      (
        process_external_secrets-Agrees s,
        (
          apply_service_updates-Keeps s Agrees-IsFrame,
          (
            remove_pending_old_versions-Keeps s Agrees-IsFrame,
            (restore_pending_secrets-Keeps s Agrees-IsFrame, cleanup-Agrees s.cleanup_orphaned),
          ),
        ),
      ),
    ),
  )
    where
      cleanup-Agrees :
          (b : Bool)
          → All
              (λ step. Keeps (Agrees base) step.run)
              (if b then reload_step s ∷ cleanup_step s ∷ [] else [])
      cleanup-Agrees true = (
        load_swarm_state-Keeps s Agrees-IsFrame,
        (cleanup_orphaned_secrets-Keeps s Agrees-IsFrame, tt),
      )
      cleanup-Agrees false = tt

  run-Agrees : (w : W) (m : Secrets) → Agrees m (run (attach_pipeline s) (fresh w m)).1
  run-Agrees w m =
      run-keeps laws (Agrees m) (attach_pipeline s) (steps-Agrees m) (fresh w m) (omega arith)

  -- Whatever the clients answer, the result that `Sync` returns, on a pipeline that behaves as
  -- documented, counts exactly what the run has added to the metrics, unless the restore step has
  -- failed.
  pub sync-Reports :
      (w : W) (m : Secrets) (r : SyncResult) (e : Option Error)
      → is_restore_failure e ≡ false
      → (sync run s w m).0 ≡ returned r e
      → Reports m r (sync run s w m).1.metrics
  unfolding sync
  sync-Reports w m r e f h =
      returned_counts (run (attach_pipeline s) (fresh w m)).0 r e (run-Agrees w m) f h
