-- ===== src/Application/Loop/Steady.antt =====
-- What the loop of Run keeps, if every single run keeps it.
use cloud_secrets.Prelude.{
  ℕ, ◌+◌, ◌^◌, ◌<◌, ◌≡◌, ◌≢◌, refl, sym, Bool, Bool-cases, inl, inr, none, some, Option, List, [],
  ◌∷◌, arith, false, true, eqb, leb, ltb, if◌then◌else◌, ok, Text,
}
use mathlib.Core.Path.{subst}
use cloud_secrets.Sync.Pipeline.{SyncReturn, returned, panicked}
use cloud_secrets.Application.{
  Application, begin, finish, next_sync_at, complete, advance_next_sync_at, advanced,
}
use cloud_secrets.Application.Loop.{
  Event, done, sighup, tick, requested, finished, elapse, Runner, nobody, the_loop, a_request,
  Progress, waiting, stopped, crashed, after_finish, is_in_run, go_on, step, after_advance,
  trigger_sighup, trigger_interval, trigger_grpc, loop, run,
}

-- A run from a world of `P` does not panic, and ends in one.
pub record IsSteady {W : Type 0} (synchronize : W → SyncReturn × W) (P : W → Type 0) : Type 0 where
  pub steady : (w : W) → P w → ((synchronize w).0 ≢ panicked) × P (synchronize w).1

-- What goes on in between does not leave `P`.
abbrev pub Undisturbed : {W : Type 0} → (W → Type 0) → List (Event W) → Type 0
Undisturbed P [] = Unit {0}
Undisturbed {W} P (elapse f ∷ events) = ((w : W) → P w → P (f w)) × Undisturbed P events
Undisturbed P (_ ∷ events) = Undisturbed P events

module _ {W : Type 0} (synchronize : W → SyncReturn × W) (now : W → ℕ) (interval : ℕ)
    (P : W → Type 0) where
  abbrev pub Kept : Progress × (Runner × Application W) → Type 0
  Kept (progress, (runner, app)) = (progress ≢ crashed) × P app.world

  -- What a synchronization leaves: no panic, and a world of `P`.
  abbrev Left : SyncReturn × Application W → Type 0
  Left (r, app) = (r ≢ panicked) × P app.world

  advance_positive :
      (t : ℕ) (next : Option ℕ)
      → eqb interval 0 ≡ false
      → (next' : Option ℕ) × (advance_next_sync_at interval t next ≡ ok next')
  unfolding advance_next_sync_at
  advance_positive t none positive = (_, refl)
  advance_positive t (some next) positive = elim (Bool-cases (ltb t next)) [
    | inl early ↦ (some next, ground arith)
    | inr due ↦ (some (advanced interval t next), ground arith)
  ]

  next_positive :
      (app : Application W)
      → eqb interval 0 ≡ false
      → (next : Option ℕ) × ((next_sync_at synchronize now interval app).0 ≡ ok next)
  unfolding next_sync_at
  next_positive app positive =
      let due = advance_positive (now app.world) app.next_sync_at positive in
      (due.0, rw (due.1, next_sync_at) refl)

  complete-Left :
      (r : SyncReturn) (next : Option ℕ) (at : ℕ) (app : Application W)
      → r ≢ panicked
      → P app.world
      → Left (complete synchronize now interval r (ok next) at app)
  complete-Left panicked next at app fine kept = absurd (fine refl)
  complete-Left (returned result e) next at app fine kept = (λ e'. cc, kept)

  finish-Left :
      (app : Application W)
      → IsSteady synchronize P
      → eqb interval 0 ≡ false
      → P app.world
      → Left (finish synchronize now interval app)
  finish-Left app h positive kept =
      let run = h.steady app.world kept in
      let due = advance_positive (now (synchronize app.world).1) app.next_sync_at positive in
      rw due.1 (complete-Left _ due.0 _ _ run.0 run.1)

  abbrev Goes : (Runner → Application W → Progress × (Runner × Application W)) → Type 0
  Goes rest = (runner : Runner) (app : Application W) → P app.world → Kept (rest runner app)

  after_finish-Kept :
      (o : SyncReturn × Application W)
      (rest : Runner → Application W → Progress × (Runner × Application W))
      → Left o
      → Goes rest
      → Kept (go_on synchronize now interval (after_finish synchronize now interval o) rest)
  after_finish-Kept (panicked, app) rest left h = absurd (left.0 refl)
  after_finish-Kept (returned result e, app) rest left h = h nobody app left.1

  -- Whether the guard is free or not, the world is left alone.
  enter-Kept :
      (caller runner : Runner) (trigger : Text) (app : Application W) (b : Bool)
      (rest : Runner → Application W → Progress × (Runner × Application W))
      → Goes rest
      → P app.world
      → Kept (
          go_on synchronize now interval
            (if b
              then (waiting, (runner, app))
              else (waiting, (caller, begin synchronize now interval trigger app)))
            rest)
  enter-Kept caller runner trigger app true rest h kept = h runner app kept
  enter-Kept caller runner trigger app false rest h kept = h caller _ kept

  -- The loop receives an event unless it is in its own run.
  received-Kept :
      (b : Bool) (runner : Runner) (app : Application W) (o : Progress × (Runner × Application W))
      (rest : Runner → Application W → Progress × (Runner × Application W))
      → Goes rest
      → P app.world
      → Kept (go_on synchronize now interval o rest)
      → Kept (go_on synchronize now interval (if b then (waiting, (runner, app)) else o) rest)
  received-Kept true runner app o rest h kept k = h runner app kept
  received-Kept false runner app o rest h kept k = k

  advance-Kept :
      (runner : Runner) (app : Application W)
      (rest : Runner → Application W → Progress × (Runner × Application W))
      → eqb interval 0 ≡ false
      → Goes rest
      → P app.world
      → Kept (
          go_on synchronize now interval
            (after_advance synchronize now interval runner
              (next_sync_at synchronize now interval app).0
              app)
            rest)
  advance-Kept runner app rest positive h kept =
      let due = next_positive app positive in
      subst
        (λ r. Kept (
          go_on synchronize now interval (after_advance synchronize now interval runner r app)
            rest))
        (sym due.1)
        (enter-Kept the_loop runner trigger_interval (record app { next_sync_at = due.0 })
          app.synchronizing rest h kept)

  step-Kept :
      (event : Event W) (runner : Runner) (app : Application W)
      (rest : Runner → Application W → Progress × (Runner × Application W))
      → IsSteady synchronize P
      → eqb interval 0 ≡ false
      → Undisturbed P (event ∷ [])
      → Goes rest
      → P app.world
      → Kept (go_on synchronize now interval (step synchronize now interval event runner app) rest)
  unfolding step
  step-Kept done runner app rest h positive calm k kept =
      received-Kept (is_in_run runner) runner app (stopped, (runner, app)) rest k kept
        (λ e. cc, kept)
  step-Kept sighup runner app rest h positive calm k kept =
      received-Kept (is_in_run runner) runner app _ rest k kept
        (enter-Kept the_loop runner trigger_sighup app app.synchronizing rest k kept)
  step-Kept tick runner app rest h positive calm k kept =
      received-Kept (is_in_run runner) runner app _ rest k kept
        (advance-Kept runner app rest positive k kept)
  step-Kept requested runner app rest h positive calm k kept =
      enter-Kept a_request runner trigger_grpc app app.synchronizing rest k kept
  step-Kept finished nobody app rest h positive calm k kept = k nobody app kept
  step-Kept finished the_loop app rest h positive calm k kept =
      after_finish-Kept _ rest (finish-Left app h positive kept) k
  step-Kept finished a_request app rest h positive calm k kept =
      after_finish-Kept _ rest (finish-Left app h positive kept) k
  step-Kept (elapse f) runner app rest h positive calm k kept =
      k runner (record app { world = f app.world }) (calm.0 app.world kept)

  first_calm :
      (event : Event W) (events : List (Event W))
      → Undisturbed P (event ∷ events)
      → Undisturbed P (event ∷ []) × Undisturbed P events
  first_calm done events calm = (tt, calm)
  first_calm sighup events calm = (tt, calm)
  first_calm tick events calm = (tt, calm)
  first_calm requested events calm = (tt, calm)
  first_calm finished events calm = (tt, calm)
  first_calm (elapse f) events calm = ((calm.0, tt), calm.1)

  loop-Kept :
      (events : List (Event W))
      → IsSteady synchronize P
      → eqb interval 0 ≡ false
      → Undisturbed P events
      → Goes (loop synchronize now interval events)
  unfolding loop
  loop-Kept [] h positive calm runner app kept = (λ e. cc, kept)
  loop-Kept (event ∷ events) h positive calm runner app kept =
      let parts = first_calm event events calm in
      step-Kept event runner app (loop synchronize now interval events) h positive parts.0
        (loop-Kept events h positive parts.1) kept

  -- With a positive interval, what every run keeps without a panic, and what goes on in between
  -- does not disturb, holds of the world however long `Run` has been woken, and `Run` does not
  -- panic.
  pub run-Kept :
      (events : List (Event W)) (app : Application W)
      → IsSteady synchronize P
      → 0 < interval
      → interval < 2 ^ 63
      → Undisturbed P events
      → P app.world
      → Kept (run synchronize now interval events app)
  unfolding run
  run-Kept events app h positive short calm kept =
      let nonzero : eqb interval 0 ≡ false = ground arith in
      let small : leb (2 ^ 63) interval ≡ false = ground arith in
      rw (nonzero, small)
        (loop-Kept events h nonzero calm nobody
          (record app { next_sync_at = some (now app.world + interval) }) kept)
