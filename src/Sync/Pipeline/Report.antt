-- ===== src/Sync/Pipeline/Report.antt =====
-- What a run that succeeds reports of the secrets that the secret manager lists.
use cloud_secrets.Prelude.{
  ◌≡◌, refl, sym, ap, ◌∙◌, Bool, true, false, none, List, [], ◌∷◌, arith, if◌then◌else◌, All,
  Result, ok, err, panic,
}
use cloud_secrets.Prelude.Exec.Keeps.{Keeps}
use cloud_secrets.Metrics.{Secrets}
use cloud_secrets.Sync.Payload.{Synchronizer, SyncState, SyncResult, Step, no_result, step_actions}
use cloud_secrets.Sync.Frame.{
  IsFrame, load_swarm_state-Keeps, apply_service_updates-Keeps, remove_pending_old_versions-Keeps,
  restore_pending_secrets-Keeps, cleanup_orphaned_secrets-Keeps,
}
use cloud_secrets.Sync.Process.{process_external_secrets}
use cloud_secrets.Prelude.{◌≢◌, any}
use cloud_secrets.Sync.Enqueue.Crash.{has_no_container}
use cloud_secrets.Sync.Process.Containers.{any_in_swarm, process_external_secrets-HaveContainers}
use cloud_secrets.Sync.Process.Tally.{tally, process_external_secrets-tally}
use cloud_secrets.Sync.Pipeline.{
  PipelineStep, returned, fresh, load_step, external_step, process_step, apply_step, remove_step,
  restore_step, reload_step, cleanup_step, attach_pipeline, sync, sync_return,
}
use cloud_secrets.Sync.Pipeline.Laws.{IsPipeline, retry}
use cloud_secrets.Sync.Pipeline.Laws.Runs.{run-keeps}
use cloud_secrets.Sync.Pipeline.Quiet.{Readings, compared, load_loaded, load_compared, run_step}

-- The external secrets are counted as in `r`, whatever was removed.
pub record Counts (r r' : SyncResult) : Type 0 where
  pub created : r'.created ≡ r.created
  pub updated : r'.updated ≡ r.updated
  pub skipped : r'.skipped ≡ r.skipped

Counts-of_eq : {r r' : SyncResult} → r' ≡ r → Counts r r'
Counts-of_eq e = record {
  created = ap (λ t. t.created) e;
  updated = ap (λ t. t.updated) e;
  skipped = ap (λ t. t.skipped) e;
}

abbrev Counted : {W : Type 0} → SyncResult → SyncState W → Type 0
Counted r st = Counts r st.payload.result

Counted-IsFrame : {W : Type 0} {r : SyncResult} → IsFrame {W = W} (Counted r)
unfolding step_actions
Counted-IsFrame = record {
  of_call = λ A m. record { at = λ st h. ground arith };
  of_load = λ services secrets. record { at = λ st h. ground arith };
  of_store = λ id task. record { at = λ st h. ground arith };
  of_advance = record { at = λ st h. ground arith };
  of_removal = λ is_parent. record { at = λ st h. ground arith };
}

module _ {W : Type 0} {run : List (PipelineStep W) → Step W} (laws : IsPipeline run)
    (s : Synchronizer W) where
  abbrev cleanup : Bool → List (PipelineStep W)
  cleanup b = if b then reload_step s ∷ cleanup_step s ∷ [] else []

  abbrev later : List (PipelineStep W)
  later = apply_step s ∷ remove_step s ∷ restore_step s ∷ cleanup s.cleanup_orphaned

  cleanup-Counted :
      (r : SyncResult) (b : Bool) → All (λ step. Keeps (Counted r) step.run) (cleanup b)
  cleanup-Counted r true = (
    load_swarm_state-Keeps s Counted-IsFrame,
    (cleanup_orphaned_secrets-Keeps s Counted-IsFrame, tt),
  )
  cleanup-Counted r false = tt

  later-Counted : (r : SyncResult) (st : SyncState W) → Counted r st → Counted r (run later st).1
  later-Counted r st h =
      run-keeps laws (Counted r) later
        (
          apply_service_updates-Keeps s Counted-IsFrame,
          (
            remove_pending_old_versions-Keeps s Counted-IsFrame,
            (restore_pending_secrets-Keeps s Counted-IsFrame, cleanup-Counted r s.cleanup_orphaned),
          ),
        )
        st h

  abbrev processed : SyncState W → Result (Unit {0}) × SyncState W
  processed = process_external_secrets s

  retry_once :
      (st : SyncState W) → retry (laws.further 0) (process_external_secrets s) st ≡ processed st
  unfolding retry
  retry_once st = rw laws.further-zero refl

  process-Counted :
      (st : SyncState W) (o : Result (Unit {0}) × SyncState W)
      → processed st ≡ o
      → (run (process_step s ∷ later) st).0 ≡ ok tt
      → Counted
          (tally s st.payload.swarm_secrets_map st.payload.external_secrets st.payload.result)
          (run (process_step s ∷ later) st).1
  process-Counted st (ok _, st') e h =
      rw (laws.run_passed (process_step s) later st st' refl (retry_once st ∙ e)) (
        later-Counted _ st' (
          Counts-of_eq (
            sym (ap (λ o. o.1.payload.result) e)
            ∙ process_external_secrets-tally s st (ap (λ o. o.0) e))))
  process-Counted st (err x, st') e h =
      absurd (cc (laws.run_failed (process_step s) later st st' x refl (retry_once st ∙ e) refl, h))
  process-Counted st (panic, st') e h =
      absurd (cc (laws.run_panicked (process_step s) later st st' refl (retry_once st ∙ e), h))

  returned_ok :
      (o : Result (Unit {0}) × SyncState W) (result : SyncResult)
      → sync_return o.0 o.1.payload ≡ returned result none
      → (o.0 ≡ ok tt) × (o.1.payload.result ≡ result)
  returned_ok (ok _, st) result h = (refl, ground arith)
  returned_ok (err e, st) result h = ground arith
  returned_ok (panic, st) result h = cc

  read_first :
      (w w' : W) (m : Secrets) (r : Readings s w w')
      → run (attach_pipeline s) (fresh w m) ≡ run (process_step s ∷ later) (compared s w w' m r)
  unfolding attach_pipeline
  read_first w w' m r =
      run_step laws (load_step s) _ _ _ refl (load_loaded s w w' m r)
      ∙ run_step laws (external_step s) _ _ _ refl (load_compared s w w' m r)

  -- A run that succeeds, on a pipeline that behaves as documented and where the first reading of
  -- the Swarm and of the secret manager has succeeded at once, reports every listed secret exactly
  -- once: as created if the Swarm had none under its path, as skipped if it had the listed version,
  -- and as updated otherwise.
  pub sync_tally :
      (w w' : W) (m : Secrets) (r : Readings s w w') (result : SyncResult)
      → (sync run s w m).0 ≡ returned result none
      → Counts (tally s r.secrets r.external_secrets no_result) result
  unfolding sync
  sync_tally w w' m r result h =
      let ended = returned_ok (run (attach_pipeline s) (fresh w m)) result h in
      let moved = read_first w w' m r in
      rw (← ended.1) (rw moved (process-Counted (compared s w w' m r) _ refl (rw moved at ended.0)))

  -- A run that succeeds has processed the secrets with success.
  processed_ok :
      (st : SyncState W) (o : Result (Unit {0}) × SyncState W)
      → processed st ≡ o
      → (run (process_step s ∷ later) st).0 ≡ ok tt
      → o.0 ≡ ok tt
  processed_ok st (ok _, st') e h = refl
  processed_ok st (err x, st') e h =
      absurd (cc (laws.run_failed (process_step s) later st st' x refl (retry_once st ∙ e) refl, h))
  processed_ok st (panic, st') e h =
      absurd (cc (laws.run_panicked (process_step s) later st st' refl (retry_once st ∙ e), h))

  -- While one of the listed services has no container specification, as a service of another runtime
  -- has none, and the Swarm has one of the secrets that the secret manager lists, in whatever
  -- version, no run succeeds, on a pipeline that behaves as documented and where the first reading
  -- has succeeded at once.
  pub sync_without_container :
      (w w' : W) (m : Secrets) (r : Readings s w w') (result : SyncResult)
      → any has_no_container r.services ≡ true
      → any_in_swarm s r.secrets r.external_secrets ≡ true
      → (sync run s w m).0 ≢ returned result none
  unfolding sync
  sync_without_container w w' m r result lacking here h =
      let ended = returned_ok (run (attach_pipeline s) (fresh w m)) result h in
      let moved = read_first w w' m r in
      let fine =
        process_external_secrets-HaveContainers s (compared s w w' m r) here
          (processed_ok (compared s w w' m r) _ refl (rw moved at ended.0)) in
      cc (fine, lacking)
