-- ===== src/Application/Completion.antt =====
-- What a synchronization leaves behind in the application.
use cloud_secrets.Prelude.{
  ℕ, ◌≡◌, refl, Bool, true, false, Option, none, some, arith, if◌then◌else◌, sentinel, Result, ok,
  err, panic, sync_in_progress, Text,
}
use cloud_secrets.Sync.Payload.{no_result}
use cloud_secrets.Sync.Pipeline.{SyncReturn, returned, panicked}
use cloud_secrets.Application.{Application, complete, sync}

-- The time of the last successful run after one that ended so at a time.
abbrev pub last_after : ℕ → SyncReturn → Option ℕ → Option ℕ
last_after at (returned result none) last = some at
last_after at _ last = last

-- The guard is as before, and the time of the last successful run has moved exactly if the run
-- has returned no error.
pub record IsCompleted {W : Type 0} (at : ℕ) (app : Application W) (r : SyncReturn × Application W)
    : Type 0 where
  pub guard : r.1.synchronizing ≡ app.synchronizing
  pub last : r.1.last_sync_at ≡ last_after at r.0 app.last_sync_at

module _ {W : Type 0} (synchronize : W → SyncReturn × W) (now : W → ℕ) (interval : ℕ) where
  complete-IsCompleted :
      (r : SyncReturn) (next : Result (Option ℕ)) (at : ℕ) (before app : Application W)
      → before.synchronizing ≡ false
      → app.last_sync_at ≡ before.last_sync_at
      → IsCompleted at before (complete synchronize now interval r next at app)
  complete-IsCompleted panicked next at before app free last = record {
    guard = ground arith;
    last = last;
  }
  complete-IsCompleted (returned result none) (ok next) at before app free last = record {
    guard = ground arith;
    last = refl;
  }
  complete-IsCompleted (returned result (some e)) (ok next) at before app free last = record {
    guard = ground arith;
    last = last;
  }
  complete-IsCompleted (returned result e) (err x) at before app free last = record {
    guard = ground arith;
    last = last;
  }
  complete-IsCompleted (returned result e) panic at before app free last = record {
    guard = ground arith;
    last = last;
  }

  guarded-IsCompleted :
      (b : Bool) (at : ℕ) (app : Application W) (r : SyncReturn × Application W)
      → app.synchronizing ≡ b
      → (b ≡ false → IsCompleted at app r)
      → IsCompleted at app
          (if b then (returned no_result (some (sentinel sync_in_progress)), app) else r)
  guarded-IsCompleted true at app r e k = record { guard = refl; last = refl }
  guarded-IsCompleted false at app r e k = k refl

  -- However a synchronization ends, by a panic too, the guard is as before: set if another run was
  -- under way, and free otherwise. The time of the last successful run moves to the completion of
  -- this one if it returned no error, and stays otherwise.
  pub sync-IsCompleted :
      (trigger : Text) (app : Application W)
      → IsCompleted (now (synchronize app.world).1) app (sync synchronize now interval trigger app)
  unfolding sync
  sync-IsCompleted trigger app =
      guarded-IsCompleted app.synchronizing _ app _ refl
        λ free. complete-IsCompleted (synchronize app.world).0 _ _ app _ free refl
