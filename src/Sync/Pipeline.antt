-- ===== src/Sync/Pipeline.antt =====
-- synchronizer.go: the pipeline of the steps, and `Sync`. The foreign package `gopipe` runs the
-- pipeline: it is the argument `run`.
pub mod Laws
pub mod Unremoved
pub mod Rollout
pub mod Quiet
pub mod Report
use cloud_secrets.Prelude.{
  ℕ, Bool, true, false, Option, none, some, List, [], ◌∷◌, if◌then◌else◌, Text, codes, ◌==◌, Error,
  step_error, Result, ok, err, panic,
}
use cloud_secrets.Metrics.{Secrets}
use cloud_secrets.Sync.Payload.{
  Synchronizer, SyncState, SyncPayload, SyncResult, Step, empty_payload, no_result,
  has_pending_service_updates, has_pending_version_removals, has_pending_secret_restores,
}
use cloud_secrets.Sync.Load.{load_swarm_state, load_external_state}
use cloud_secrets.Sync.Process.{process_external_secrets}
use cloud_secrets.Sync.Apply.{apply_service_updates}
use cloud_secrets.Sync.Remove.{remove_pending_old_versions}
use cloud_secrets.Sync.Restore.{restore_pending_secrets}
use cloud_secrets.Sync.Cleanup.{cleanup_orphaned_secrets}

-- gopipe.Step; the retry delay is in milliseconds.
pub record PipelineStep (W : Type 0) : Type 0 where
  pub name : Text
  pub retries : ℕ
  pub retry_delay : ℕ
  pub when : SyncPayload → Bool
  pub run : Step W
  pub continue_on_error : Bool

abbrev pub step_load_swarm_state : Text
step_load_swarm_state = codes "load_swarm_state"

abbrev pub step_load_external_state : Text
step_load_external_state = codes "load_external_state"

abbrev pub step_process_secrets : Text
step_process_secrets = codes "process_secrets"

abbrev pub step_apply_services : Text
step_apply_services = codes "apply_service_updates"

abbrev pub step_remove_old_versions : Text
step_remove_old_versions = codes "remove_old_secret_versions"

abbrev pub step_restore_secrets : Text
step_restore_secrets = codes "restore_parent_secrets"

abbrev pub step_cleanup_orphaned_secrets : Text
step_cleanup_orphaned_secrets = codes "cleanup_orphaned_secrets"

-- A step with the zero values of the fields that it does not set.
abbrev pub plain_step : {W : Type 0} → Text → Step W → PipelineStep W
plain_step name run = record {
  name = name;
  retries = 0;
  retry_delay = 0;
  when = λ _. true;
  run = run;
  continue_on_error = false;
}

module _ {W : Type 0} (s : Synchronizer W) where
  abbrev pub load_step : PipelineStep W
  load_step = plain_step step_load_swarm_state (load_swarm_state s)

  abbrev pub external_step : PipelineStep W
  external_step = record (plain_step step_load_external_state (load_external_state s)) {
    retries = 3;
    retry_delay = 150;
  }

  abbrev pub process_step : PipelineStep W
  process_step = plain_step step_process_secrets (process_external_secrets s)

  abbrev pub apply_step : PipelineStep W
  apply_step = record (plain_step step_apply_services (apply_service_updates s)) {
    retries = 3;
    retry_delay = 50;
    when = has_pending_service_updates;
  }

  abbrev pub remove_step : PipelineStep W
  remove_step = record (plain_step step_remove_old_versions (remove_pending_old_versions s)) {
    when = has_pending_version_removals;
  }

  abbrev pub restore_step : PipelineStep W
  restore_step = record (plain_step step_restore_secrets (restore_pending_secrets s)) {
    when = has_pending_secret_restores;
  }

  abbrev pub reload_step : PipelineStep W
  reload_step = record load_step { retries = 3; retry_delay = 50 }

  abbrev pub cleanup_step : PipelineStep W
  cleanup_step = record (plain_step step_cleanup_orphaned_secrets (cleanup_orphaned_secrets s)) {
    continue_on_error = true;
  }

  unfoldable pub attach_pipeline : List (PipelineStep W)
  attach_pipeline =
      load_step
      ∷ external_step
      ∷ process_step
      ∷ apply_step
      ∷ remove_step
      ∷ restore_step
      ∷ (if s.cleanup_orphaned then reload_step ∷ cleanup_step ∷ [] else [])

-- `err.(*gopipe.StepError)` with the name of the restore step; only the error itself is looked at.
abbrev pub failed_in_restore : Error → Bool
failed_in_restore (step_error name e) = name == step_restore_secrets
failed_in_restore _ = false

-- `Sync` returns a result beside the error, or panics.
pub data SyncReturn : Type 0 where
  returned : SyncResult → Option Error → SyncReturn
  panicked : SyncReturn

abbrev pub sync_return : Result (Unit {0}) → SyncPayload → SyncReturn
sync_return (ok _) p = returned p.result none
sync_return (err e) p =
    if failed_in_restore e then returned no_result (some e) else returned p.result (some e)
sync_return panic p = panicked

-- The state of a run: a new payload.
abbrev pub fresh : {W : Type 0} → W → Secrets → SyncState W
fresh w m = record { world = w; metrics = m; payload = empty_payload }

module _ {W : Type 0} (run : List (PipelineStep W) → Step W) (s : Synchronizer W) where
  unfoldable pub sync : W → Secrets → SyncReturn × SyncState W
  unfolding attach_pipeline
  sync w m = let (r, st) = run (attach_pipeline s) (fresh w m) in (sync_return r st.payload, st)
