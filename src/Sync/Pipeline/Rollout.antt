-- ===== src/Sync/Pipeline/Rollout.antt =====
-- A rollout that fails has removed nothing: old versions go only after every service is updated.
use cloud_secrets.Sync.Pipeline.Unremoved.{
  KeptWithoutRemoval, InWorld, load_swarm_state-Keeps, load_external_state-Keeps,
  process_external_secrets-Keeps, apply_service_updates-Keeps,
}
use cloud_secrets.Sync.Pipeline.{
  PipelineStep, load_step, external_step, process_step, apply_step, remove_step, restore_step,
  reload_step, cleanup_step, returned, sync_return, attach_pipeline, step_apply_services, fresh,
  sync,
}
use cloud_secrets.Sync.Pipeline.Laws.{IsPipeline}
use cloud_secrets.Sync.Pipeline.Laws.Runs.{failed-keeps}
use cloud_secrets.Prelude.{
  All, ◌≡◌, ◌≢◌, Bool, true, false, if◌then◌else◌, refl, Error, step_error, Result, ok, err, panic,
  arith, some, List, [], ◌∷◌,
}
use cloud_secrets.Prelude.Bytes.{cons-ne_head}
use cloud_secrets.Metrics.{Secrets}
use cloud_secrets.Sync.Payload.{Step, SyncResult, Synchronizer, SyncState, SyncPayload}

-- The steps before the removal, and those from it on.
abbrev rollout_steps : {W : Type 0} → Synchronizer W → List (PipelineStep W)
rollout_steps s = load_step s ∷ external_step s ∷ process_step s ∷ apply_step s ∷ []

abbrev later_steps : {W : Type 0} → Synchronizer W → List (PipelineStep W)
later_steps s =
    remove_step s
    ∷ restore_step s
    ∷ (if s.cleanup_orphaned then reload_step s ∷ cleanup_step s ∷ [] else [])

-- No step behind the rollout shares its name.
later_names :
    {W : Type 0} (s : Synchronizer W)
    → All (λ step. step.name ≢ step_apply_services) (later_steps s)
later_names s = (
  cons-ne_head _ _ _ _ (omega arith),
  (cons-ne_head _ _ _ _ (omega arith), optional_names s.cleanup_orphaned),
)
  where
    optional_names :
        (b : Bool)
        → All
            (λ step. step.name ≢ step_apply_services)
            (if b then reload_step s ∷ cleanup_step s ∷ [] else [])
    optional_names true =
        (cons-ne_head _ _ _ _ (omega arith), (cons-ne_head _ _ _ _ (omega arith), tt))
    optional_names false = tt

step_error_returned :
    (o : Result (Unit {0})) (p : SyncPayload) (r : SyncResult) (e : Error)
    → sync_return o p ≡ returned r (some e)
    → o ≡ err e
step_error_returned (ok _) p r e h = ground arith
step_error_returned (err x) p r e h = ground arith
step_error_returned panic p r e h = ground arith

module _ {W : Type 0} {run : List (PipelineStep W) → Step W} (laws : IsPipeline run)
    (s : Synchronizer W) (Q : W → Type 0) (k : KeptWithoutRemoval s Q) where
  rollout_failed :
      (st : SyncState W) (e : Error)
      → InWorld Q st
      → (run (attach_pipeline s) st).0 ≡ err (step_error step_apply_services e)
      → InWorld Q (run (attach_pipeline s) st).1
  unfolding attach_pipeline
  rollout_failed st e h failed =
      failed-keeps laws (InWorld Q) step_apply_services (rollout_steps s) (later_steps s)
        (
          (load_swarm_state-Keeps s k, refl),
          (
            (load_external_state-Keeps s k, refl),
            (
              (process_external_secrets-Keeps s k, refl),
              ((apply_service_updates-Keeps s k, refl), tt),
            ),
          ),
        )
        (later_names s) st e h failed

  -- If a run, on a pipeline that behaves as documented, stops because services could not be
  -- updated, then all that holds of the world at its start and that no call but `RemoveSecret` can
  -- break still holds: nothing was removed.
  pub sync-keeps_of_failed_rollout :
      (w : W) (m : Secrets) (r : SyncResult) (e : Error)
      → Q w
      → (sync run s w m).0 ≡ returned r (some (step_error step_apply_services e))
      → Q (sync run s w m).1.world
  unfolding sync
  sync-keeps_of_failed_rollout w m r e h failed =
      (rollout_failed (fresh w m) e (record { at_world = h })
        (step_error_returned _ _ r (step_error step_apply_services e) failed)).at_world
