-- ===== src/Tests/Pipeline.antt =====
-- A pipeline as gopipe documents it, with one further attempt for each retry.
use cloud_secrets.Prelude.{
  refl, true, false, inl, List, [], ◌∷◌, step_error, Result, ok, err, panic, if◌then◌else◌,
}
use cloud_secrets.Sync.Payload.{SyncState, Step}
use cloud_secrets.Sync.Pipeline.{PipelineStep}
use cloud_secrets.Sync.Pipeline.Laws.{IsPipeline, retry}

abbrev pub settle :
    {W : Type 0}
    → PipelineStep W
    → Step W
    → Result (Unit {0}) × SyncState W
    → Result (Unit {0}) × SyncState W
settle step rest (ok _, st) = rest st
settle step rest (err e, st) =
    if step.continue_on_error then rest st else (err (step_error step.name e), st)
settle step rest (panic, st) = (panic, st)

unfoldable pub sequential : {W : Type 0} → List (PipelineStep W) → Step W
unfolding retry
sequential [] st = (ok tt, st)
sequential (step ∷ rest) st = elim (step.when st.payload) [
  | true ↦ settle step (sequential rest) (retry step.retries step.run st)
  | false ↦ sequential rest st
]

pub sequential-IsPipeline : {W : Type 0} → IsPipeline (sequential {W = W})
unfolding sequential
sequential-IsPipeline = record {
  further = λ n. n;
  further-zero = refl;
  run-nil = λ st. refl;
  run_skipped = λ step rest st w. rw (w, sequential);
  run_passed = λ step rest st st' w e. rw (w, sequential) (rw e);
  run_failed = λ step rest st st' x w e c. rw (w, sequential) (rw e (rw c));
  run_continued = λ step rest st st' x w e c. rw (w, sequential) (rw e (rw c (refl, inl refl)));
  run_panicked = λ step rest st st' w e. rw (w, sequential) (rw e);
}
