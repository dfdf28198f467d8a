-- ===== src/Application/Loop.antt =====
-- Application.Run of internal/application/cs/app.go and the calls of Sync by the gRPC service beside
-- it, interleaved: the loop and a request may find a run of the other going on, which turns them
-- away. The channels, the ticker and the log lines are left out.
pub mod Counted
pub mod Steady
use cloud_secrets.Prelude.{
  ℕ, ◌+◌, ◌^◌, Bool, true, false, ◌||◌, Option, some, List, [], ◌∷◌, eqb, leb, if◌then◌else◌,
  Result, ok, err, panic, Text, codes,
}
use cloud_secrets.Prelude.Dict
use cloud_secrets.Sync.Pipeline.{SyncReturn, returned, panicked}
use cloud_secrets.Application.{Application, begin, finish, next_sync_at}

-- What happens next: the loop receives the end of its context, SIGHUP or a tick; a call of the service
-- asks for a run; the run that goes on comes to its end. In between the world goes on. The loop
-- receives nothing while its own run goes on: such an event stays in its channel and is received,
-- as a later event, when the loop is back.
pub data Event (W : Type 0) : Type 0 where
  done sighup tick requested finished : Event W
  elapse : (W → W) → Event W

-- Whose run goes on.
pub data Runner : Type 0 where
  nobody the_loop a_request : Runner

-- How far the loop has come: it goes on, has returned, or the process has panicked.
pub data Progress : Type 0 where
  waiting stopped crashed : Progress

abbrev pub trigger_sighup : Text
trigger_sighup = codes "sighup"

abbrev pub trigger_interval : Text
trigger_interval = codes "interval"

abbrev pub trigger_grpc : Text
trigger_grpc = codes "grpc"

abbrev pub is_in_run : Runner → Bool
is_in_run the_loop = true
is_in_run _ = false

module _ {W : Type 0} (synchronize : W → SyncReturn × W) (now : W → ℕ) (interval : ℕ) where
  -- The start of `Sync`: a caller that finds a run going on gets `ErrSyncInProgress`, which `runSync`
  -- logs and the service answers; another one goes into its run.
  abbrev pub enter : Runner → Text → Runner → Application W → Progress × (Runner × Application W)
  enter caller trigger runner app =
      if app.synchronizing
      then (waiting, (runner, app))
      else (waiting, (caller, begin synchronize now interval trigger app))

  abbrev pub after_advance :
      Runner → Result (Option ℕ) → Application W → Progress × (Runner × Application W)
  after_advance runner (ok next) app =
      enter the_loop trigger_interval runner (record app { next_sync_at = next })
  after_advance runner (err e) app = (crashed, (runner, app))
  after_advance runner panic app = (crashed, (runner, app))

  -- Both callers look at the result and the error only for a log line or an answer.
  abbrev pub after_finish : SyncReturn × Application W → Progress × (Runner × Application W)
  after_finish (panicked, app) = (crashed, (nobody, app))
  after_finish (returned result e, app) = (waiting, (nobody, app))

  abbrev pub finish_of : Runner → Application W → Progress × (Runner × Application W)
  finish_of nobody app = (waiting, (nobody, app))
  finish_of the_loop app = after_finish (finish synchronize now interval app)
  finish_of a_request app = after_finish (finish synchronize now interval app)

  unfoldable pub step : Event W → Runner → Application W → Progress × (Runner × Application W)
  unfolding next_sync_at
  step done runner app =
      if is_in_run runner then (waiting, (runner, app)) else (stopped, (runner, app))
  step sighup runner app =
      if is_in_run runner
      then (waiting, (runner, app))
      else enter the_loop trigger_sighup runner app
  step tick runner app =
      if is_in_run runner
      then (waiting, (runner, app))
      else after_advance runner (next_sync_at synchronize now interval app).0 app
  step requested runner app = enter a_request trigger_grpc runner app
  step finished runner app = finish_of runner app
  step (elapse f) runner app = (waiting, (runner, record app { world = f app.world }))

  abbrev pub go_on :
      Progress × (Runner × Application W)
      → (Runner → Application W → Progress × (Runner × Application W))
      → Progress × (Runner × Application W)
  go_on (waiting, (runner, app)) rest = rest runner app
  go_on (stopped, s) rest = (stopped, s)
  go_on (crashed, s) rest = (crashed, s)

  unfoldable pub loop :
      List (Event W) → Runner → Application W → Progress × (Runner × Application W)
  unfolding step
  loop [] runner app = (waiting, (runner, app))
  loop (event ∷ events) runner app = go_on (step event runner app) (loop events)

  -- `time.NewTicker` panics at an interval that is not positive; the interval is the residue of a
  -- signed integer of 64 bits.
  unfoldable pub run : List (Event W) → Application W → Progress × (Runner × Application W)
  unfolding loop
  run events app =
      if eqb interval 0 || leb (2 ^ 63) interval
      then (crashed, (nobody, app))
      else loop events nobody (record app { next_sync_at = some (now app.world + interval) })
