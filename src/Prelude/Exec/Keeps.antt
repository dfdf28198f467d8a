-- ===== src/Prelude/Exec/Keeps.antt =====
-- Invariants of actions: what holds of the state before holds after, also after an error.
use Prim.Native.String.{String}
use mathlib.Core.Bool.{Bool, true, false}
use cloud_secrets.Prelude.Tests.{if◌then◌else◌}
use cloud_secrets.Prelude.Errors.{Error, Result, ok, err, panic}
use cloud_secrets.Prelude.Exec.{Exec, crash, fail, pure, lift, context, continue, ◌>>=◌}

-- An action that keeps `P`, whether it returns, fails or panics.
pub record Keeps {ℓ} {S A : Type ℓ} (P : S → Type ℓ) (action : Exec S A) : Type ℓ where
  pub at : (before : S) → P before → P (action before).1

module _ {ℓ} {S A B : Type ℓ} {P : S → Type ℓ} where
  keeps_continue :
      (r : Result A) (f : A → Exec S B)
      → ((a : A) → Keeps P (f a))
      → (s : S) → P s
      → P (continue r f s).1
  keeps_continue (ok a) f k s h = (k a).at s h
  keeps_continue (err e) f k s h = h
  keeps_continue panic f k s h = h

  pub Keeps-bind :
      (m : Exec S A) (rest : A → Exec S B)
      → Keeps P m
      → ((x : A) → Keeps P (rest x))
      → Keeps P (m >>= rest)
  unfolding ◌>>=◌
  Keeps-bind m rest first later = record {
    at = λ st h. keeps_continue (m st).0 rest later (m st).1 (first.at st h);
  }

module _ {ℓ} {S A : Type ℓ} {P : S → Type ℓ} where
  pub Keeps-context : (w : String) (m : Exec S A) → Keeps P m → Keeps P (context w m)
  unfolding context
  Keeps-context w m k = record { at = λ s h. k.at s h }

  pub Keeps-crash : Keeps P (crash {A = A})
  unfolding crash
  Keeps-crash = record { at = λ st kept. kept }

  pub Keeps-fail : (e : Error) → Keeps P (fail {A = A} e)
  unfolding fail
  Keeps-fail e = record { at = λ st kept. kept }

  pub Keeps-pure : (x : A) → Keeps P (pure x)
  unfolding pure
  Keeps-pure x = record { at = λ st kept. kept }

  pub Keeps-if : (b : Bool) {m n : Exec S A} → Keeps P m → Keeps P n → Keeps P (if b then m else n)
  Keeps-if true km kn = km
  Keeps-if false km kn = kn

  pub Keeps-lift : (result : Result A) → Keeps P (lift result)
  unfolding lift
  Keeps-lift result = record { at = λ st kept. kept }

pub ruleset keeps_rules =
    (Keeps-bind, Keeps-context, Keeps-pure, Keeps-lift, Keeps-fail, Keeps-crash, Keeps-if)
