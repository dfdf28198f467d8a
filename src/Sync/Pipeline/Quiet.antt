-- ===== src/Sync/Pipeline/Quiet.antt =====
-- A run that finds the Swarm in step with the secret manager.
use cloud_secrets.Prelude.{
  ℕ, zero, suc, ◌≡◌, refl, ap, ◌∙◌, true, false, none, List, [], ◌∷◌, arith, if◌then◌else◌, length,
  any, ok,
}
use cloud_secrets.Prelude.Dict.{Dict}
use cloud_secrets.Engine.{Service, ExistingSecret}
use cloud_secrets.Metrics.{Secrets}
use cloud_secrets.Providers.Contracts.{Secret}
use cloud_secrets.Sync.Payload.{
  Synchronizer, SyncState, Step, step_actions, empty_payload, no_result,
  has_pending_service_updates, has_pending_version_removals, has_pending_secret_restores,
}
use cloud_secrets.Sync.Load.{load_swarm_state, load_external_state}
use cloud_secrets.Sync.Enqueue.Crash.{has_no_container}
use cloud_secrets.Sync.Process.{process_external_secrets}
use cloud_secrets.Sync.Process.Quiet.{AllSynced, skipping, process_secrets_synced}
use cloud_secrets.Sync.Pipeline.{
  PipelineStep, returned, fresh, load_step, external_step, process_step, apply_step, remove_step,
  restore_step, reload_step, cleanup_step, attach_pipeline, sync,
}
use cloud_secrets.Sync.Pipeline.Laws.{IsPipeline, retry}

-- What a run reads, by one call after the other.
pub record Readings {W : Type 0} (s : Synchronizer W) (before after : W) : Type 0 where
  pub services : List Service
  pub secrets : Dict ExistingSecret
  pub external_secrets : Dict Secret
  pub listed : W
  pub mapped : W
  pub list_services : s.engine.list_services before ≡ (ok services, listed)
  pub map_secrets : s.engine.map_secrets listed ≡ (ok secrets, mapped)
  pub list_secrets : s.secret_provider.list_secrets mapped ≡ (ok external_secrets, after)

-- The steps that always are in the pipeline, before others.
abbrev pub steps : {W : Type 0} → Synchronizer W → List (PipelineStep W) → List (PipelineStep W)
steps s rest =
    load_step s
    ∷ external_step s
    ∷ process_step s
    ∷ apply_step s
    ∷ remove_step s
    ∷ restore_step s
    ∷ rest

attached :
    {W : Type 0} (s : Synchronizer W) → s.cleanup_orphaned ≡ false → attach_pipeline s ≡ steps s []
unfolding attach_pipeline
attached s e = ap (λ b. steps s (if b then reload_step s ∷ cleanup_step s ∷ [] else [])) e

retry_ok :
    {W : Type 0} (n : ℕ) (step : Step W) (st st' : SyncState W)
    → step st ≡ (ok tt, st')
    → retry n step st ≡ (ok tt, st')
unfolding retry
retry_ok zero step st st' h = h
retry_ok (suc n) step st st' h = rw h

module _ {W : Type 0} (s : Synchronizer W) (w w' : W) (m : Secrets) (r : Readings s w w') where
  abbrev pub loaded : SyncState W
  loaded = record {
    world = r.mapped;
    metrics = m;
    payload = record empty_payload { services = r.services; swarm_secrets_map = r.secrets };
  }

  abbrev pub compared : SyncState W
  compared = record {
    world = w';
    metrics = m;
    payload = record loaded.payload { external_secrets = r.external_secrets };
  }

  pub load_loaded : load_swarm_state s (fresh w m) ≡ (ok tt, loaded)
  unfolding load_swarm_state step_actions
  load_loaded = rw r.list_services (rw r.map_secrets)

  pub load_compared : load_external_state s loaded ≡ (ok tt, compared)
  unfolding load_external_state step_actions
  load_compared = rw r.list_secrets

  process_compared :
      any has_no_container r.services ≡ false
      → AllSynced s r.services r.secrets r.external_secrets
      → process_external_secrets s compared ≡ (ok tt, skipping (length r.external_secrets) compared)
  unfolding process_external_secrets
  process_compared containers synced =
      process_secrets_synced s r.external_secrets compared containers synced

module _ {W : Type 0} {run : List (PipelineStep W) → Step W} (laws : IsPipeline run) where
  pub run_step :
      (step : PipelineStep W) (rest : List (PipelineStep W)) (st st' : SyncState W)
      → step.when st.payload ≡ true
      → step.run st ≡ (ok tt, st')
      → run (step ∷ rest) st ≡ run rest st'
  run_step step rest st st' w h = laws.run_passed step rest st st' w (retry_ok _ step.run st st' h)

  run_quiet :
      (s : Synchronizer W) (w w' : W) (m : Secrets) (r : Readings s w w')
      → any has_no_container r.services ≡ false
      → AllSynced s r.services r.secrets r.external_secrets
      → run (steps s []) (fresh w m)
        ≡ (ok tt, skipping (length r.external_secrets) (compared s w w' m r))
  unfolding has_pending_service_updates has_pending_version_removals has_pending_secret_restores
  run_quiet s w w' m r containers synced =
      let quiet = skipping (length r.external_secrets) (compared s w w' m r) in
      run_step (load_step s) _ _ _ refl (load_loaded s w w' m r)
      ∙ run_step (external_step s) _ _ _ refl (load_compared s w w' m r)
      ∙ run_step (process_step s) _ _ _ refl (process_compared s w w' m r containers synced)
      ∙ laws.run_skipped (apply_step s) _ quiet refl
      ∙ laws.run_skipped (remove_step s) _ quiet refl
      ∙ laws.run_skipped (restore_step s) _ quiet refl
      ∙ laws.run-nil quiet

  -- If the Swarm has what the secret manager lists, under each path in the listed version, with no
  -- service on another ID and no managed secret with further versions, and every service has a
  -- container specification, then a run without the cleanup only reads: the world is as the three
  -- reading calls leave it, the metrics stay, and every secret is reported as skipped.
  pub sync_quiet :
      (s : Synchronizer W) (w w' : W) (m : Secrets) (r : Readings s w w')
      → s.cleanup_orphaned ≡ false
      → any has_no_container r.services ≡ false
      → AllSynced s r.services r.secrets r.external_secrets
      → ((sync run s w m).0
          ≡ returned (record no_result { skipped = length r.external_secrets }) none)
        × ((sync run s w m).1.world ≡ w')
        × ((sync run s w m).1.metrics ≡ m)
  unfolding sync
  sync_quiet s w w' m r no_cleanup containers synced =
      rw (attached s no_cleanup)
        (rw (run_quiet s w w' m r containers synced) (ground arith, refl, refl))
