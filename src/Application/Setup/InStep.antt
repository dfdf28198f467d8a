-- ===== src/Application/Setup/InStep.antt =====
-- The whole process, from the loop of Run down to the clients, on a Swarm that is in step with the
-- secret manager.
use cloud_secrets.Prelude.{ℕ, ◌<◌, ◌^◌, ◌≡◌, ◌≢◌, ◌∙◌, false, List, any}
use cloud_secrets.Metrics.{Secrets}
use cloud_secrets.Sync.Payload.{Synchronizer, Step}
use cloud_secrets.Sync.Enqueue.Crash.{has_no_container}
use cloud_secrets.Sync.Process.Quiet.{AllSynced}
use cloud_secrets.Sync.Pipeline.{PipelineStep}
use cloud_secrets.Sync.Pipeline.Laws.{IsPipeline}
use cloud_secrets.Sync.Pipeline.Quiet.{Readings, sync_quiet}
use cloud_secrets.Application.{Application}
use cloud_secrets.Application.Loop.{Event, crashed, run}
use cloud_secrets.Application.Loop.Steady.{IsSteady, Undisturbed, run-Kept}
use cloud_secrets.Application.Setup.{Process, synchronize}

-- What is read in a world says that the Swarm is in step, and leaves a world of `I`.
pub record InStep {W : Type 0} (s : Synchronizer W) (I : W → Type 0) (w : W) : Type 0 where
  pub after : W
  pub readings : Readings s w after
  pub containers : any has_no_container readings.services ≡ false
  pub synced : AllSynced s readings.services readings.secrets readings.external_secrets
  pub kept : I after

module _ {W : Type 0} {run_steps : List (PipelineStep W) → Step W} (laws : IsPipeline run_steps)
    (s : Synchronizer W) (I : W → Type 0) (m : Secrets) where
  -- The world is of `I`, and nothing has been counted.
  abbrev pub Idle : Process W → Type 0
  Idle p = I p.world × (p.secrets ≡ m)

  synchronize-IsSteady :
      s.cleanup_orphaned ≡ false
      → ((w : W) → I w → InStep s I w)
      → IsSteady (synchronize run_steps s) Idle
  unfolding synchronize
  synchronize-IsSteady no_cleanup in_step = record {
    steady = λ p idle.
        let now_in_step = in_step p.world idle.0 in
        let quiet =
          sync_quiet laws s p.world now_in_step.after p.secrets now_in_step.readings no_cleanup
            now_in_step.containers now_in_step.synced in
        (λ e. cc (quiet.0, e), (rw quiet.1 now_in_step.kept, quiet.2 ∙ idle.1));
  }

  -- A process with a positive interval and no cleanup, whose every world finds the Swarm in step
  -- with the secret manager, runs on without a panic for any signals, ticks and requests: it never
  -- counts a created, updated or removed secret, and it leaves the world as reading leaves it.
  pub run-keeps_InStep :
      (now : Process W → ℕ) (interval : ℕ) (events : List (Event (Process W)))
      (app : Application (Process W))
      → s.cleanup_orphaned ≡ false
      → 0 < interval
      → interval < 2 ^ 63
      → ((w : W) → I w → InStep s I w)
      → Undisturbed Idle events
      → Idle app.world
      → ((run (synchronize run_steps s) now interval events app).0 ≢ crashed)
        × Idle (run (synchronize run_steps s) now interval events app).1.1.world
  run-keeps_InStep now interval events app no_cleanup positive short in_step calm idle =
      run-Kept (synchronize run_steps s) now interval Idle events app
        (synchronize-IsSteady no_cleanup in_step) positive short calm idle
