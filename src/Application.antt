-- ===== src/Application.antt =====
-- internal/application/cs/app.go and the metrics of internal/metrics/syncs.go: synchronization on
-- demand and its schedule. Times are nanoseconds since the zero time. The log lines are left out.
use cloud_secrets.Prelude.Dict.{Dict}
pub mod Schedule
pub mod Completion
pub mod Guard
pub mod Loop
pub mod Setup
pub mod Contention
use cloud_secrets.Prelude.{
  ℕ, suc, ◌+◌, ◌-◌, ◌*◌, ◌/◌, ◌%◌, ◌^◌, Bool, true, false, Option, none, some, ltb, eqb,
  if◌then◌else◌, Error, sentinel, Result, ok, err, panic, sync_in_progress, Text,
}
use cloud_secrets.Prelude.Dict
use cloud_secrets.Prelude.Time.{add}
use cloud_secrets.Sync.Payload.{no_result}
use cloud_secrets.Sync.Pipeline.{SyncReturn, returned, panicked}

-- metrics.Syncs: the runs by trigger and the time of the last one, in seconds
pub record Syncs : Type 0 where
  pub runs : Dict ℕ
  pub last_sync_at_unix : ℕ

abbrev pub one_more : Option ℕ → ℕ
one_more none = 1
one_more (some n) = suc n

unfoldable pub record_run : Text → Syncs → Syncs
unfolding Dict.insert Dict.lookup
record_run trigger m = record m {
  runs = Dict.insert trigger (one_more (Dict.lookup trigger m.runs)) m.runs;
}

-- The Unix time of a time, which counts from 62135596800 seconds after the zero time.
abbrev pub unix : ℕ → ℕ
unix t = t / 1000000000 - 62135596800

unfoldable pub set_last_sync_at : ℕ → Syncs → Syncs
set_last_sync_at t m = record m { last_sync_at_unix = unix t }

-- time.Duration: a signed integer of 64 bits, as its residue
abbrev pub max_duration : ℕ
max_duration = 2 ^ 63 - 1

-- `now.Sub(next)` for `now` not before `next`, which stops at the longest duration
abbrev pub since : ℕ → ℕ → ℕ
since now next = if ltb max_duration (now - next) then max_duration else now - next

-- The time that `advanceNextSyncAt` computes, by whole intervals.
abbrev pub advanced : ℕ → ℕ → ℕ → ℕ
advanced interval now next = add next ((since now next / interval + 1) * interval % 2 ^ 64)

-- The pass of the loop of `advanceNextSyncAt` whose swap succeeds; a pass whose swap fails starts
-- over with the value that another caller has stored. An interval of 0 is a division by zero.
unfoldable pub advance_next_sync_at : ℕ → ℕ → Option ℕ → Result (Option ℕ)
advance_next_sync_at interval now none = ok none
advance_next_sync_at interval now (some next) =
    if ltb now next
    then ok (some next)
    else if eqb interval 0
    then panic
    else ok (some (advanced interval now next))

-- The fields of `Application` that change, and the world behind the synchronizer.
pub record Application (W : Type 0) : Type 0 where
  pub synchronizing : Bool
  pub last_sync_at : Option ℕ
  pub next_sync_at : Option ℕ
  pub syncs : Syncs
  pub world : W

-- `synchronize` is `Synchronizer.Sync`, `now` the clock, and `interval` the refresh interval.
module _ {W : Type 0} (synchronize : W → SyncReturn × W) (now : W → ℕ) (interval : ℕ) where
  abbrev pub succeeded : ℕ → Option Error → Option ℕ → Option ℕ
  succeeded completed_at none last = some completed_at
  succeeded completed_at (some e) last = last

  -- What follows the run; the guard is reset however it ends.
  abbrev pub complete :
      SyncReturn → Result (Option ℕ) → ℕ → Application W → SyncReturn × Application W
  complete panicked next completed_at app = (panicked, record app { synchronizing = false })
  complete (returned result e) (ok next) completed_at app = (
    returned result e,
    record app {
      synchronizing = false;
      syncs = set_last_sync_at completed_at app.syncs;
      next_sync_at = next;
      last_sync_at = succeeded completed_at e app.last_sync_at;
    },
  )
  complete (returned result e) _ completed_at app = (
    panicked,
    record app { synchronizing = false; syncs = set_last_sync_at completed_at app.syncs },
  )

  -- `Sync` up to the run of the synchronizer, for a caller that has won the guard.
  abbrev pub begin : Text → Application W → Application W
  begin trigger app = record app { synchronizing = true; syncs = record_run trigger app.syncs }

  -- The run of the synchronizer, and what follows.
  abbrev pub finish : Application W → SyncReturn × Application W
  finish app =
      let (r, w) = synchronize app.world in
      complete r (advance_next_sync_at interval (now w) app.next_sync_at) (now w)
        (record app { world = w })

  unfoldable pub sync : Text → Application W → SyncReturn × Application W
  unfolding record_run set_last_sync_at advance_next_sync_at
  sync trigger app =
      if app.synchronizing
      then (returned no_result (some (sentinel sync_in_progress)), app)
      else finish (begin trigger app)

  -- NextSyncAt
  unfoldable pub next_sync_at : Application W → Result (Option ℕ) × Application W
  unfolding advance_next_sync_at
  next_sync_at app = elim (advance_next_sync_at interval (now app.world) app.next_sync_at) [
    | ok next ↦ (ok next, record app { next_sync_at = next })
    | err e ↦ (err e, app)
    | panic ↦ (panic, app)
  ]
