-- ===== src/Application/Loop/Counted.antt =====
-- Every event that asks for a synchronization gets one, unless one is going on.
use cloud_secrets.Application.Loop.Steady.{Undisturbed, run-Kept}
use cloud_secrets.Prelude.{
  ◌≢◌, ◌<◌, ℕ, ◌+◌, ◌≡◌, ◌^◌, ◌≤◌, ◌⊎◌, ◌||◌, leb, refl, inl, inr, Bool, true, false, Option, none,
  some, List, [], ◌∷◌, arith, eqb, if◌then◌else◌, Bool-cases, Result, ok, err, panic, Text, ◌==◌,
}
use cloud_secrets.Prelude.Dict
use cloud_secrets.Prelude.Dict.{Dict}
use cloud_secrets.Sync.Pipeline.{SyncReturn, returned, panicked}
use cloud_secrets.Application.{
  Application, begin, finish, record_run, set_last_sync_at, advance_next_sync_at, one_more,
  complete, Syncs,
}
use cloud_secrets.Application.Loop.{
  Event, done, sighup, tick, requested, finished, elapse, Runner, nobody, the_loop, a_request,
  Progress, waiting, stopped, crashed, step, go_on, loop, run, trigger_sighup, trigger_interval,
  trigger_grpc, enter, after_advance, after_finish,
}

abbrev number : Option ℕ → ℕ
number none = 0
number (some n) = n

-- The runs that are recorded for a trigger.
abbrev pub runs_of : {W : Type 0} → Text → Application W → ℕ
runs_of t app = number (Dict.lookup t app.syncs.runs)

abbrev one_if : Bool → ℕ
one_if b = if b then 1 else 0

-- The runs by a trigger that a list of events calls for, if a run goes on from an event that asks for
-- one to the next `finished`: while it goes on, requests are turned away; so are a tick and SIGHUP
-- during the run of a request, and during its own run the loop does not receive them.
abbrev pub granted : {W : Type 0} → Text → Runner → List (Event W) → ℕ
granted t runner [] = 0
granted t nobody (done ∷ events) = 0
granted t a_request (done ∷ events) = 0
granted t the_loop (done ∷ events) = granted t the_loop events
granted t nobody (sighup ∷ events) = one_if (trigger_sighup == t) + granted t the_loop events
granted t the_loop (sighup ∷ events) = granted t the_loop events
granted t a_request (sighup ∷ events) = granted t a_request events
granted t nobody (tick ∷ events) = one_if (trigger_interval == t) + granted t the_loop events
granted t the_loop (tick ∷ events) = granted t the_loop events
granted t a_request (tick ∷ events) = granted t a_request events
granted t nobody (requested ∷ events) = one_if (trigger_grpc == t) + granted t a_request events
granted t the_loop (requested ∷ events) = granted t the_loop events
granted t a_request (requested ∷ events) = granted t a_request events
granted t runner (finished ∷ events) = granted t nobody events
granted t runner (elapse f ∷ events) = granted t runner events

abbrev pub is_busy : Runner → Bool
is_busy nobody = false
is_busy _ = true

number-one_more : (o : Option ℕ) → one_more o ≡ 1 + number o
number-one_more none = refl
number-one_more (some n) = omega arith

record_run_lem :
    (trigger t : Text) (m : Syncs)
    → number (Dict.lookup t (record_run trigger m).runs)
      ≡ one_if (trigger == t) + number (Dict.lookup t m.runs)
unfolding record_run
record_run_lem trigger t m =
    rw (Dict.lookup-insert t trigger (one_more (Dict.lookup trigger m.runs)) m.runs)
      (ground (arith, number-one_more (Dict.lookup trigger m.runs)))

-- Unless it has panicked, the process has made so many runs by each trigger, and the guard is set
-- exactly while a run goes on.
abbrev pub Ran :
    {W : Type 0} → (Text → ℕ) → (Text → ℕ) → Progress × (Runner × Application W) → Type 0
Ran times before (crashed, (runner, after)) = Unit {0}
Ran times before (_, (runner, after)) =
    (after.synchronizing ≡ is_busy runner) × ((t : Text) → runs_of t after ≡ times t + before t)

Ran-after :
    {W : Type 0} (more times before between : Text → ℕ) (o : Progress × (Runner × Application W))
    → ((t : Text) → between t ≡ more t + before t)
    → Ran times between o
    → Ran (λ t. more t + times t) before o
Ran-after more times before between (crashed, s) h k = tt
Ran-after more times before between (waiting, s) h k = (k.0, λ t. omega (arith, k.1 t, h t))
Ran-after more times before between (stopped, s) h k = (k.0, λ t. omega (arith, k.1 t, h t))

taken_if :
    {A : Type 0} (P : A → Type 0) (b : Bool) (x y : A) → b ≡ true → P x → P (if b then x else y)
taken_if P true x y e h = h
taken_if P false x y e h = cc

module _ {W : Type 0} (synchronize : W → SyncReturn × W) (now : W → ℕ) (interval : ℕ) where
  begun-runs :
      (trigger t : Text) (app : Application W)
      → runs_of t (begin synchronize now interval trigger app)
        ≡ one_if (trigger == t) + runs_of t app
  begun-runs trigger t app = record_run_lem trigger t app.syncs

  -- A run that has ended leaves the guard free and the counts as they are.
  complete-Finished :
      (r : SyncReturn) (next : Result (Option ℕ)) (at : ℕ) (app : Application W) (times : Text → ℕ)
      (rest : Runner → Application W → Progress × (Runner × Application W))
      → ((app' : Application W)
          → app'.synchronizing ≡ false
          → Ran times (λ t. runs_of t app') (rest nobody app'))
      → Ran times
          (λ t. runs_of t app)
          (go_on synchronize now interval
            (after_finish synchronize now interval
              (complete synchronize now interval r next at app))
            rest)
  unfolding set_last_sync_at
  complete-Finished panicked next at app times rest h = tt
  complete-Finished (returned result e) (ok next) at app times rest h = h _ refl
  complete-Finished (returned result e) (err x) at app times rest h = tt
  complete-Finished (returned result e) panic at app times rest h = tt

  finish-Finished :
      (app : Application W) (times : Text → ℕ)
      (rest : Runner → Application W → Progress × (Runner × Application W))
      → ((app' : Application W)
          → app'.synchronizing ≡ false
          → Ran times (λ t. runs_of t app') (rest nobody app'))
      → Ran times
          (λ t. runs_of t app)
          (go_on synchronize now interval
            (after_finish synchronize now interval (finish synchronize now interval app))
            rest)
  finish-Finished app times rest h =
      complete-Finished (synchronize app.world).0
        (advance_next_sync_at interval (now (synchronize app.world).1) app.next_sync_at)
        (now (synchronize app.world).1) (record app { world = (synchronize app.world).1 }) times
        rest h

  advance-Ran :
      (times before : Text → ℕ) (runner : Runner) (app : Application W) (r : Result (Option ℕ))
      (rest : Runner → Application W → Progress × (Runner × Application W))
      → ((next : Option ℕ)
          → Ran times before (
              go_on synchronize now interval
                (enter synchronize now interval the_loop trigger_interval runner
                  (record app { next_sync_at = next }))
                rest))
      → Ran times before (
          go_on synchronize now interval (after_advance synchronize now interval runner r app) rest)
  advance-Ran times before runner app (ok next) rest h = h next
  advance-Ran times before runner app (err e) rest h = tt
  advance-Ran times before runner app panic rest h = tt

  -- A caller that finds the guard free.
  entered-Ran :
      (caller : Runner) (trigger : Text) (app : Application W) (times : Text → ℕ)
      (rest : Runner → Application W → Progress × (Runner × Application W))
      → app.synchronizing ≡ false
      → Ran times
          (λ t. runs_of t (begin synchronize now interval trigger app))
          (rest caller (begin synchronize now interval trigger app))
      → Ran
          (λ t. one_if (trigger == t) + times t)
          (λ t. runs_of t app)
          (go_on synchronize now interval
            (enter synchronize now interval caller trigger nobody app)
            rest)
  entered-Ran caller trigger app times rest free h = rw free (
      Ran-after (λ t. one_if (trigger == t)) times (λ t. runs_of t app) _ _
        (λ t. begun-runs trigger t app) h)

  -- A caller that finds a run going on.
  refused-Ran :
      (caller runner : Runner) (trigger : Text) (app : Application W) (times before : Text → ℕ)
      (rest : Runner → Application W → Progress × (Runner × Application W))
      → app.synchronizing ≡ true
      → Ran times before (rest runner app)
      → Ran times before (
          go_on synchronize now interval
            (enter synchronize now interval caller trigger runner app)
            rest)
  refused-Ran caller runner trigger app times before rest busy h =
      taken_if (λ o. Ran times before (go_on synchronize now interval o rest)) app.synchronizing _ _
        busy h

  loop-Ran :
      (events : List (Event W)) (runner : Runner) (app : Application W)
      → app.synchronizing ≡ is_busy runner
      → Ran
          (λ t. granted t runner events)
          (λ t. runs_of t app)
          (loop synchronize now interval events runner app)
  unfolding loop step
  loop-Ran [] runner app held = (held, λ t. omega arith)
  loop-Ran (done ∷ events) nobody app held = (held, λ t. omega arith)
  loop-Ran (done ∷ events) a_request app held = (held, λ t. omega arith)
  loop-Ran (done ∷ events) the_loop app held = loop-Ran events the_loop app held
  loop-Ran (sighup ∷ events) nobody app held =
      entered-Ran the_loop trigger_sighup app _ _ held (loop-Ran events the_loop _ refl)
  loop-Ran (sighup ∷ events) the_loop app held = loop-Ran events the_loop app held
  loop-Ran (sighup ∷ events) a_request app held =
      refused-Ran the_loop a_request trigger_sighup app _ _ _ held
        (loop-Ran events a_request app held)
  loop-Ran (tick ∷ events) nobody app held = advance-Ran _ _ nobody app _ _ λ next.
      entered-Ran the_loop trigger_interval (record app { next_sync_at = next }) _ _ held
        (loop-Ran events the_loop _ refl)
  loop-Ran (tick ∷ events) the_loop app held = loop-Ran events the_loop app held
  loop-Ran (tick ∷ events) a_request app held = advance-Ran _ _ a_request app _ _ λ next.
      refused-Ran the_loop a_request trigger_interval (record app { next_sync_at = next }) _ _ _
        held (loop-Ran events a_request (record app { next_sync_at = next }) held)
  loop-Ran (requested ∷ events) nobody app held =
      entered-Ran a_request trigger_grpc app _ _ held (loop-Ran events a_request _ refl)
  loop-Ran (requested ∷ events) the_loop app held =
      refused-Ran a_request the_loop trigger_grpc app _ _ _ held (loop-Ran events the_loop app held)
  loop-Ran (requested ∷ events) a_request app held =
      refused-Ran a_request a_request trigger_grpc app _ _ _ held
        (loop-Ran events a_request app held)
  loop-Ran (finished ∷ events) nobody app held = loop-Ran events nobody app held
  loop-Ran (finished ∷ events) the_loop app held =
      finish-Finished app _ (loop synchronize now interval events)
        λ app' free. loop-Ran events nobody app' free
  loop-Ran (finished ∷ events) a_request app held =
      finish-Finished app _ (loop synchronize now interval events)
        λ app' free. loop-Ran events nobody app' free
  loop-Ran (elapse f ∷ events) runner app held =
      loop-Ran events runner (record app { world = f app.world }) held

  run_counted :
      (events : List (Event W)) (app : Application W)
      → app.synchronizing ≡ false
      → ((interval ≡ 0) ⊎ (2 ^ 63 ≤ interval)
          → (run synchronize now interval events app).0 ≡ crashed)
        × Ran
            (λ t. granted t nobody events)
            (λ t. runs_of t app)
            (run synchronize now interval events app)
  unfolding run
  run_counted events app free = elim (Bool-cases (eqb interval 0 || leb (2 ^ 63) interval)) [
    | inl none_positive ↦ rw none_positive (λ _. refl, tt)
    | inr positive ↦ rw positive (
      λ e. absurd (ground arith),
      loop-Ran events nobody (record app { next_sync_at = some (now app.world + interval) }) free,
    )
  ]

  Undisturbed-any : (events : List (Event W)) → Undisturbed (λ _. Unit {0}) events
  Undisturbed-any [] = tt
  Undisturbed-any (done ∷ events) = Undisturbed-any events
  Undisturbed-any (sighup ∷ events) = Undisturbed-any events
  Undisturbed-any (tick ∷ events) = Undisturbed-any events
  Undisturbed-any (requested ∷ events) = Undisturbed-any events
  Undisturbed-any (finished ∷ events) = Undisturbed-any events
  Undisturbed-any (elapse f ∷ events) = (λ w k. tt, Undisturbed-any events)

  -- Of an application whose guard is free, the loop and the service have made, unless the process has
  -- panicked, a run for every tick and every SIGHUP that the loop has received, and for every request,
  -- that came while no other run went on, and no further run; each is recorded by its trigger. The
  -- guard is set exactly if a run still goes on. An interval that is not positive makes `Run` panic;
  -- with a positive one the process does not panic, if no run of the synchronizer does.
  pub run-Ran :
      (events : List (Event W)) (app : Application W)
      → app.synchronizing ≡ false
      → ((interval ≡ 0) ⊎ (2 ^ 63 ≤ interval)
          → (run synchronize now interval events app).0 ≡ crashed)
        × (0 < interval
            → interval < 2 ^ 63
            → ((w : W) → (synchronize w).0 ≢ panicked)
            → (run synchronize now interval events app).0 ≢ crashed)
        × Ran
            (λ t. granted t nobody events)
            (λ t. runs_of t app)
            (run synchronize now interval events app)
  run-Ran events app free =
      let (crashing, ran) = run_counted events app free in
      (
        crashing,
        λ positive short fine.
            (run-Kept synchronize now interval (λ _. Unit {0}) events app
              (record { steady = λ w k. (fine w, tt) }) positive short (Undisturbed-any events)
              tt).0,
        ran,
      )
