-- ===== src/Tests/Loop.antt =====
-- The loop of the application, and callers that contend for the next time.
use cloud_secrets.Prelude.{
  ◌<◌, ◌≢◌, ℕ, ◌⊎◌, ◌^◌, Text-discrete, ◌+◌, ◌≤◌, ◌≡◌, refl, false, none, some, List, [], ◌∷◌, ok,
}
use cloud_secrets.Sync.Payload.{no_result}
use cloud_secrets.Sync.Pipeline.{SyncReturn, returned, panicked}
use cloud_secrets.Application.{Application}
use cloud_secrets.Application.Contention.{
  Cell, System, Reaches, start, steps, enters, idle, step_of, entering, update, pass,
}
use cloud_secrets.Application.Contention.Linear.{Implements, pass-Implements, failures-le-stores}
use cloud_secrets.Application.Loop.{
  Event, done, sighup, tick, requested, finished, elapse, nobody, run, crashed, trigger_sighup,
  trigger_interval, trigger_grpc,
}
use cloud_secrets.Application.Loop.Counted.{granted, runs_of, Ran, run-Ran}

abbrev synchronize : ℕ → SyncReturn × ℕ
synchronize w = (returned no_result none, w + 3)

abbrev app : Application ℕ
app = record {
  synchronizing = false;
  last_sync_at = none;
  next_sync_at = none;
  syncs = record { runs = []; last_sync_at_unix = 0 };
  world = 34;
}

abbrev later : ℕ → ℕ
later w = w + 20

abbrev interval : ℕ
interval = 10

-- SIGHUP starts a run, during which a request is turned away; a request starts one, during which a tick
-- is skipped; the last tick's run goes on when the context has ended.
abbrev events : List (Event ℕ)
events =
    sighup ∷ requested ∷ finished ∷ elapse later ∷ requested ∷ tick ∷ finished ∷ tick ∷ done ∷ []

abbrev clock : ℕ → ℕ
clock w = w

one_each :
    (granted trigger_sighup nobody events ≡ 1)
    × (granted trigger_interval nobody events ≡ 1)
    × (granted trigger_grpc nobody events ≡ 1)
unfolding Text-discrete
one_each = (refl, refl, refl)

run-Ran_example :
    ((interval ≡ 0) ⊎ (2 ^ 63 ≤ interval) → (run synchronize clock interval events app).0 ≡ crashed)
    × (0 < interval
        → interval < 2 ^ 63
        → ((w : ℕ) → (synchronize w).0 ≢ panicked)
        → (run synchronize clock interval events app).0 ≢ crashed)
    × Ran
        (λ t. granted t nobody events)
        (λ t. runs_of t app)
        (run synchronize clock interval events app)
run-Ran_example = run-Ran synchronize clock interval events app refl

abbrev cell : Cell
cell = record { stores = 1; next = some 12 }

-- Two callers have come at 37 and 38 and loaded the time 12, and the first one has replaced it.
abbrev overtaken : System
overtaken = step_of 10 0 (
    step_of 10 1 (
      step_of 10 0
        (record (record (idle cell) { callers = update (idle cell).callers 0 (entering 37 cell) }) {
          callers = update (update (idle cell).callers 0 (entering 37 cell)) 1 (entering 38 cell);
        })))

overtaken_reached : Reaches 10 (idle cell) overtaken
overtaken_reached =
    steps (steps (steps (enters (enters start 0 37 (ok none) refl) 1 38 (ok none) refl) 0) 1) 0

pass-Implements_example :
    Implements 10 38 overtaken.cell (pass 10 overtaken.cell (overtaken.callers 1))
unfolding pass
pass-Implements_example = pass-Implements 10 cell overtaken 1 overtaken_reached tt

failures-le-stores_example :
    (overtaken.callers 1).came + (overtaken.callers 1).failures ≤ overtaken.cell.stores
failures-le-stores_example = failures-le-stores 10 cell overtaken 1 overtaken_reached
