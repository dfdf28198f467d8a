-- ===== src/Sync/Pipeline/Laws/Runs.antt =====
-- What a run of a pipeline keeps, and what it keeps when it stops at a step of a given name.
use cloud_secrets.Prelude.{
  ◌≡◌, ◌≢◌, ◌∙◌, ◌⊎◌, inl, inr, refl, sym, ap, Bool, true, false, List, [], ◌∷◌, ◌++◌, All, Text,
  Error, step_error, Result, ok, err, panic, arith,
}
use cloud_secrets.Prelude.Exec.Keeps.{Keeps}
use cloud_secrets.Sync.Payload.{SyncState, Step}
use cloud_secrets.Sync.Pipeline.{PipelineStep}
use cloud_secrets.Sync.Pipeline.Laws.{IsPipeline, retry, retry-keeps}

module _ {W : Type 0} {run : List (PipelineStep W) → Step W} (laws : IsPipeline run) where
  -- All that a step may do in a run.
  pub data StepRun (step : PipelineStep W) (rest : List (PipelineStep W)) (st : SyncState W)
      : Type 0 where
    skipped : run (step ∷ rest) st ≡ run rest st → StepRun step rest st
    passed :
        (st' : SyncState W)
        → st' ≡ (retry (laws.further step.retries) step.run st).1
        → run (step ∷ rest) st ≡ run rest st'
        → StepRun step rest st
    stopped :
        (e : Error) (st' : SyncState W)
        → st' ≡ (retry (laws.further step.retries) step.run st).1
        → run (step ∷ rest) st ≡ (err (step_error step.name e), st')
        → StepRun step rest st
    continued :
        (e : Error) (st' : SyncState W)
        → step.continue_on_error ≡ true
        → st' ≡ (retry (laws.further step.retries) step.run st).1
        → (run (step ∷ rest) st).1 ≡ (run rest st').1
        → ((run (step ∷ rest) st).0 ≡ (run rest st').0)
          ⊎ ((run (step ∷ rest) st).0 ≡ err (step_error step.name e))
        → StepRun step rest st
    crashed :
        (st' : SyncState W)
        → st' ≡ (retry (laws.further step.retries) step.run st).1
        → run (step ∷ rest) st ≡ (panic, st')
        → StepRun step rest st

  module _ (step : PipelineStep W) (rest : List (PipelineStep W)) (st : SyncState W) where
    attempted :
        step.when st.payload ≡ true
        → (o : Result (Unit {0}) × SyncState W) → retry (laws.further step.retries) step.run st ≡ o
        → (c : Bool) → step.continue_on_error ≡ c
        → StepRun step rest st
    attempted w (ok _, st') e c _ =
        passed st' (sym (ap (λ o. o.1) e)) (laws.run_passed step rest st st' w e)
    attempted w (err x, st') e false c =
        stopped x st' (sym (ap (λ o. o.1) e)) (laws.run_failed step rest st st' x w e c)
    attempted w (err x, st') e true c =
        let both = laws.run_continued step rest st st' x w e c in
        continued x st' c (sym (ap (λ o. o.1) e)) both.0 both.1
    attempted w (panic, st') e c _ =
        crashed st' (sym (ap (λ o. o.1) e)) (laws.run_panicked step rest st st' w e)

    when_tested : (b : Bool) → step.when st.payload ≡ b → StepRun step rest st
    when_tested false w = skipped (laws.run_skipped step rest st w)
    when_tested true w = attempted w _ refl _ refl

    pub step_runs : StepRun step rest st
    step_runs = when_tested (step.when st.payload) refl

  module _ (P : SyncState W → Type 0) where
    step_keeps :
        (step : PipelineStep W) (rest : List (PipelineStep W)) (st : SyncState W)
        → StepRun step rest st
        → Keeps P step.run
        → ((st : SyncState W) → P st → P (run rest st).1)
        → P st
        → P (run (step ∷ rest) st).1
    step_keeps step rest st (skipped e) k ih h = rw e (ih st h)
    step_keeps step rest st (passed st' a e) k ih h = rw e (ih st' (rw a (retry-keeps _ _ k st h)))
    step_keeps step rest st (stopped x st' a e) k ih h = rw e (rw a (retry-keeps _ _ k st h))
    step_keeps step rest st (continued x st' _ a e _) k ih h =
        rw e (ih st' (rw a (retry-keeps _ _ k st h)))
    step_keeps step rest st (crashed st' a e) k ih h = rw e (rw a (retry-keeps _ _ k st h))

    -- What every step keeps, a run keeps.
    pub run-keeps :
        (steps : List (PipelineStep W))
        → All (λ step. Keeps P step.run) steps
        → (st : SyncState W) → P st
        → P (run steps st).1
    run-keeps [] k st h = rw laws.run-nil h
    run-keeps (step ∷ rest) k st h =
        step_keeps step rest st (step_runs step rest st) k.0 (run-keeps rest k.1) h

  not_named :
      (step : PipelineStep W) (rest : List (PipelineStep W)) (name : Text) (st : SyncState W)
      (e : Error)
      → step.name ≢ name
      → ((st : SyncState W) (e : Error) → (run rest st).0 ≢ err (step_error name e))
      → StepRun step rest st
      → (run (step ∷ rest) st).0 ≢ err (step_error name e)
  not_named step rest name st e other ih (skipped r) h = ih st e (rw r at h)
  not_named step rest name st e other ih (passed st' a r) h = ih st' e (rw r at h)
  not_named step rest name st e other ih (stopped x st' a r) h = ground arith
  not_named step rest name st e other ih (continued x st' c a r (inl r')) h = ih st' e (sym r' ∙ h)
  not_named step rest name st e other ih (continued x st' c a r (inr r')) h = ground arith
  not_named step rest name st e other ih (crashed st' a r) h = cc

  stopped_keeps :
      (P : SyncState W → Type 0) (name : Text) (step : PipelineStep W)
      (rest : List (PipelineStep W)) (st : SyncState W) (e : Error)
      → Keeps P step.run × (step.continue_on_error ≡ false)
      → ((st : SyncState W) (e : Error)
          → P st
          → (run rest st).0 ≡ err (step_error name e)
          → P (run rest st).1)
      → StepRun step rest st
      → P st
      → (run (step ∷ rest) st).0 ≡ err (step_error name e)
      → P (run (step ∷ rest) st).1
  stopped_keeps P name step rest st e k ih (skipped r) h f = rw r (ih st e h (rw r at f))
  stopped_keeps P name step rest st e k ih (passed st' a r) h f =
      rw r (ih st' e (rw a (retry-keeps _ _ k.0 st h)) (rw r at f))
  stopped_keeps P name step rest st e k ih (stopped x st' a r) h f =
      rw (r, a) (retry-keeps _ _ k.0 st h)
  stopped_keeps P name step rest st e k ih (continued x st' c a r _) h f = absurd (cc (c, k.1))
  stopped_keeps P name step rest st e k ih (crashed st' a r) h f =
      rw (r, a) (retry-keeps _ _ k.0 st h)

  -- Only a step of the list has given a step error its name.
  named_by_step :
      (name : Text) (steps : List (PipelineStep W))
      → All (λ step. step.name ≢ name) steps
      → (st : SyncState W) (e : Error) → (run steps st).0 ≢ err (step_error name e)
  named_by_step name [] others st e h = cc (laws.run-nil st)
  named_by_step name (step ∷ rest) others st e h =
      not_named step rest name st e others.0 (named_by_step name rest others.1)
        (step_runs step rest st) h

  module _ (P : SyncState W → Type 0) (name : Text) where
    -- A run that stops with a step error of a name that no step of `after` has, has done only what
    -- the steps before it do.
    pub failed-keeps :
        (before after : List (PipelineStep W))
        → All (λ step. Keeps P step.run × (step.continue_on_error ≡ false)) before
        → All (λ step. step.name ≢ name) after
        → (st : SyncState W) (e : Error) → P st
        → (run (before ++ after) st).0 ≡ err (step_error name e)
        → P (run (before ++ after) st).1
    failed-keeps [] after k others st e h failed =
        absurd (named_by_step name after others st e failed)
    failed-keeps (step ∷ before) after k others st e h failed =
        stopped_keeps P name step (before ++ after) st e k.0 (failed-keeps before after k.1 others)
          (step_runs step (before ++ after) st) h failed
