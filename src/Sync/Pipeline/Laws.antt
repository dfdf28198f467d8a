-- ===== src/Sync/Pipeline/Laws.antt =====
-- What is assumed of gopipe's `Pipeline.Run`, and how a run treats invariants and failures.
pub mod Runs
use cloud_secrets.Prelude.{
  ℕ, zero, suc, ◌≡◌, ◌⊎◌, true, false, List, [], ◌∷◌, Error, step_error, Result, ok, err, panic,
}
use cloud_secrets.Prelude.Exec.Keeps.{Keeps}
use cloud_secrets.Sync.Payload.{SyncState, Step}
use cloud_secrets.Sync.Pipeline.{PipelineStep}

-- After an attempt: the next ones follow only an error.
abbrev pub again :
    {W : Type 0} → Step W → Result (Unit {0}) × SyncState W → Result (Unit {0}) × SyncState W
again next (ok a, st) = (ok a, st)
again next (err e, st) = next st
again next (panic, st) = (panic, st)

-- One attempt, and up to `n` further ones while it fails.
unfoldable pub retry : {W : Type 0} → ℕ → Step W → Step W
retry zero run st = run st
retry (suc n) run st = again (retry n run) (run st)

-- Steps run in order; one whose condition is false is left out. A step is attempted anew while it
-- fails, as often as its `Retries` allow. A failed step ends the run with a step error of its
-- name, unless it is marked to continue.
pub record IsPipeline {W : Type 0} (run : List (PipelineStep W) → Step W) : Type 0 where
  -- the number of further attempts that a value of `Retries` allows
  pub further : ℕ → ℕ
  pub further-zero : further 0 ≡ 0
  pub run-nil : (st : SyncState W) → run [] st ≡ (ok tt, st)
  pub run_skipped :
      (step : PipelineStep W) (rest : List (PipelineStep W)) (st : SyncState W)
      → step.when st.payload ≡ false
      → run (step ∷ rest) st ≡ run rest st
  pub run_passed :
      (step : PipelineStep W) (rest : List (PipelineStep W)) (st st' : SyncState W)
      → step.when st.payload ≡ true
      → retry (further step.retries) step.run st ≡ (ok tt, st')
      → run (step ∷ rest) st ≡ run rest st'
  pub run_failed :
      (step : PipelineStep W) (rest : List (PipelineStep W)) (st st' : SyncState W) (e : Error)
      → step.when st.payload ≡ true
      → retry (further step.retries) step.run st ≡ (err e, st')
      → step.continue_on_error ≡ false
      → run (step ∷ rest) st ≡ (err (step_error step.name e), st')
  pub run_continued :
      (step : PipelineStep W) (rest : List (PipelineStep W)) (st st' : SyncState W) (e : Error)
      → step.when st.payload ≡ true
      → retry (further step.retries) step.run st ≡ (err e, st')
      → step.continue_on_error ≡ true
      → ((run (step ∷ rest) st).1 ≡ (run rest st').1)
        × (((run (step ∷ rest) st).0 ≡ (run rest st').0)
            ⊎ ((run (step ∷ rest) st).0 ≡ err (step_error step.name e)))
  pub run_panicked :
      (step : PipelineStep W) (rest : List (PipelineStep W)) (st st' : SyncState W)
      → step.when st.payload ≡ true
      → retry (further step.retries) step.run st ≡ (panic, st')
      → run (step ∷ rest) st ≡ (panic, st')

module _ {W : Type 0} {P : SyncState W → Type 0} where
  again-keeps :
      (next : Step W) (o : Result (Unit {0}) × SyncState W)
      → ((st : SyncState W) → P st → P (next st).1)
      → P o.1
      → P (again next o).1
  again-keeps next (ok a, st) k h = h
  again-keeps next (err e, st) k h = k st h
  again-keeps next (panic, st) k h = h

  pub retry-keeps :
      (n : ℕ) (step : Step W) → Keeps P step → (st : SyncState W) → P st → P (retry n step st).1
  unfolding retry
  retry-keeps zero step k st h = k.at st h
  retry-keeps (suc n) step k st h =
      again-keeps (retry n step) (step st) (retry-keeps n step k) (k.at st h)
