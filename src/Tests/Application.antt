-- ===== src/Tests/Application.antt =====
-- The application with a refresh interval of 10, its service, and the names of secrets.
use cloud_secrets.Sync.Payload.{no_result}
use cloud_secrets.Application.Schedule.{IsNext, advance-IsNext}
use cloud_secrets.Api.Errors.{IsUncanceled}
use cloud_secrets.SecretName.Bounds.{IsSwarmName, generate-IsSwarmName}
use cloud_secrets.SecretName.{generate, validate}
use cloud_secrets.Strings.{contains}
use cloud_secrets.Application.Completion.{IsCompleted, sync-IsCompleted}
use cloud_secrets.Application.Guard.{
  start, arrives, leaves, Callers, IsExclusive, arrive, leave, Reaches-IsExclusive, Reaches, idle,
}
use cloud_secrets.Providers.Grpc.{code_unknown, Code}
use cloud_secrets.Sync.Pipeline.{returned, SyncReturn}
use cloud_secrets.Application.{sync, Application, advance_next_sync_at}
use mathlib.Core.Path.{subst}
use cloud_secrets.Prelude.{
  ℕ, ◌+◌, ◌≡◌, refl, false, some, [], arith, Error, message, sentinel, ok, is_sentinel,
  secret_key_exists, cas_conflict, Text, codes, Text-discrete,
}
use cloud_secrets.Prelude.Exec.{Exec, actions}

advance-IsNext_example :
    (next' : ℕ) × (advance_next_sync_at 10 37 (some 12) ≡ ok (some next')) × IsNext 10 37 12 next'
advance-IsNext_example = advance-IsNext 10 37 12 (omega arith) (omega arith) (omega arith)

abbrev failing : ℕ → SyncReturn × ℕ
failing w = (returned no_result (some (message "failed")), w + 3)

abbrev app : Application ℕ
app = record {
  synchronizing = false;
  last_sync_at = some 4;
  next_sync_at = some 12;
  syncs = record { runs = []; last_sync_at_unix = 0 };
  world = 34;
}

sync-IsCompleted_example : IsCompleted 37 app (sync failing (λ w. w) 10 (codes "grpc") app)
sync-IsCompleted_example = sync-IsCompleted failing (λ w. w) 10 (codes "grpc") app

-- Two callers arrive, and the one that runs leaves.
abbrev left_alone : Callers
left_alone = record { synchronizing = false; running = 0 }

two_callers : Reaches idle left_alone
unfolding arrive leave
two_callers = leaves (arrives (arrives start)) refl

Reaches-IsExclusive_example : IsExclusive left_alone
Reaches-IsExclusive_example = Reaches-IsExclusive {c = idle} {d = left_alone} refl two_callers

abbrev no_code : Error → Code
no_code e = code_unknown

key_exists-IsUncanceled : IsUncanceled no_code (sentinel secret_key_exists)
unfolding is_sentinel
key_exists-IsUncanceled = record {
  canceled_error = refl;
  deadline_error = refl;
  canceled_code = refl;
  deadline_code = refl;
}

conflict-IsUncanceled : IsUncanceled no_code (sentinel cas_conflict)
unfolding is_sentinel
conflict-IsUncanceled = record {
  canceled_error = refl;
  deadline_error = refl;
  canceled_code = refl;
  deadline_code = refl;
}

abbrev uuid : Exec ℕ Text
uuid w = (ok (codes "00000000-0000-4000-8000-000000000000"), w)

uuid-IsSwarmName : (name : Text) → (uuid 0).0 ≡ ok name → IsSwarmName name
unfolding contains
uuid-IsSwarmName name h =
    subst IsSwarmName {x = codes "00000000-0000-4000-8000-000000000000"} (ground arith)
      (record { short = omega arith; flat = refl })

dash_valid : validate (codes "-") ≡ ok tt
unfolding validate Text-discrete
dash_valid = refl

generated : (generate uuid (codes "app/db") (codes "-") (codes "2") 0).0 ≡ ok (codes "app-db-2")
unfolding generate actions
generated = refl

generate-IsSwarmName_example : IsSwarmName (codes "app-db-2")
generate-IsSwarmName_example =
    generate-IsSwarmName uuid (codes "app/db") (codes "-") (codes "2") (codes "app-db-2") 0
      uuid-IsSwarmName dash_valid (unfold contains in refl) generated
