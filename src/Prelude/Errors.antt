-- ===== src/Prelude/Errors.antt =====
-- What a Go function returns beside an error, or that it panics. `fmt.Errorf` with `%w` is `wrap`;
-- of a formatted message only the constant words are kept.
use Prim.Native.Nat.{ℕ}
use Prim.Native.String.{String}
use mathlib.Core.Bool.{Bool, true, false, ◌||◌}
use mathlib.Core.Path.{◌≡◌, refl}
use cloud_secrets.Prelude.Bytes.{Text}

-- The sentinel errors of the program, and those of the `context` package.
pub data Sentinel : Type 0 where
  invalid_create_request secret_already_exists create_conflict : Sentinel
  secret_key_exists cas_conflict sync_in_progress : Sentinel
  canceled deadline_exceeded : Sentinel

pub data Error : Type 0 where
  -- `errors.New`, or `fmt.Errorf` with no `%w`
  message : String → Error
  -- `*engine.SecretNotFoundError`
  secret_not_found : Text → Error
  sentinel : Sentinel → Error
  -- an error value of a foreign package, by a number that tells it from others
  foreign : ℕ → Error
  wrap : String → Error → Error
  wrap_both : String → Error → Error → Error
  -- `*gopipe.StepError` with its `StepName`
  step_error : Text → Error → Error

pub data Result {ℓ} (A : Type ℓ) : Type ℓ where
  ok : A → Result A
  err : Error → Result A
  -- a run-time panic, such as the read through a nil pointer
  panic : Result A

-- `errors.As` at `*engine.SecretNotFoundError`
unfoldable pub is_secret_not_found : Error → Bool
is_secret_not_found (secret_not_found id) = true
is_secret_not_found (wrap w e) = is_secret_not_found e
is_secret_not_found (wrap_both w e f) = is_secret_not_found e || is_secret_not_found f
is_secret_not_found (step_error name e) = is_secret_not_found e
is_secret_not_found _ = false

-- errors.Is at a sentinel
unfoldable pub is_sentinel : (Sentinel → Bool) → Error → Bool
is_sentinel p (sentinel s) = p s
is_sentinel p (wrap w e) = is_sentinel p e
is_sentinel p (wrap_both w e f) = is_sentinel p e || is_sentinel p f
is_sentinel p (step_error name e) = is_sentinel p e
is_sentinel p _ = false

infixl 10 ◌>>=◌
abbrev pub ◌>>=◌ {ℓ κ} : {A : Type ℓ} {B : Type κ} → Result A → (A → Result B) → Result B
panic >>= next = panic
err e >>= next = err e
ok x >>= next = next x

-- What a chain that has succeeded says of its parts.
pub >>=-eq-ok {ℓ κ} :
    {A : Type ℓ} {B : Type κ} (r : Result A) (next : A → Result B) {y : B}
    → (r >>= next) ≡ ok y
    → (x : A) × (r ≡ ok x) × (next x ≡ ok y)
>>=-eq-ok (ok x) next e = (x, refl, e)
>>=-eq-ok (err failure) next e = cc
>>=-eq-ok panic next e = cc
