-- ===== src/Prelude/Exec.antt =====
-- Code that changes a state and may fail. What was written before the failure stays written, so
-- the state comes back beside the error too.
pub mod Keeps
use mathlib.Core.Path.{◌≡◌, refl}
use cloud_secrets.Prelude.Errors.{Error, Result, ok, err, panic, wrap}
use Prim.Native.String.{String}

abbrev pub Exec {ℓ} : Type ℓ → Type ℓ → Type ℓ
Exec S A = S → Result A × S

module _ {ℓ} {S A : Type ℓ} where
  unfoldable pub pure : A → Exec S A
  pure a s = (ok a, s)

  unfoldable pub fail : Error → Exec S A
  fail e s = (err e, s)

  unfoldable pub crash : Exec S A
  crash s = (panic, s)

  unfoldable pub lift : Result A → Exec S A
  lift r s = (r, s)

module _ {ℓ} {S A B : Type ℓ} where
  abbrev pub continue : Result A → (A → Exec S B) → Exec S B
  continue (ok a) f s = f a s
  continue (err e) f s = (err e, s)
  continue panic f s = (panic, s)

  infixl 10 ◌>>=◌ ◌>>◌
  unfoldable pub ◌>>=◌ : Exec S A → (A → Exec S B) → Exec S B
  ◌>>=◌ m f s = continue (m s).0 f (m s).1

  abbrev pub ◌>>◌ : Exec S A → Exec S B → Exec S B
  m >> n = m >>= λ _. n

-- `if err != nil { return fmt.Errorf("...: %w", err) }` after a call
abbrev pub wrapped {ℓ} : {A : Type ℓ} → String → Result A → Result A
wrapped w (ok a) = ok a
wrapped w (err e) = err (wrap w e)
wrapped w panic = panic

unfoldable pub context {ℓ} : {S A : Type ℓ} → String → Exec S A → Exec S A
context w m s = (wrapped w (m s).0, (m s).1)

-- To unfold this is to unfold the ways to build an action.
unfoldable pub actions : Unit {0}
unfolding pure fail crash lift ◌>>=◌ context
actions = tt

module _ {ℓ} {S A B : Type ℓ} where
  continue_ok :
      (r : Result A) (f : A → Exec S B) (s : S) (b : B)
      → (continue r f s).0 ≡ ok b
      → (a : A) × (r ≡ ok a) × ((f a s).0 ≡ ok b)
  continue_ok (ok a) f s b h = (a, refl, h)
  continue_ok (err e) f s b h = cc
  continue_ok panic f s b h = cc

  -- What a run that has succeeded says of its parts.
  pub run_ok :
      (m : Exec S A) (f : A → Exec S B) (s : S) (b : B)
      → ((m >>= f) s).0 ≡ ok b
      → (a : A) × ((m s).0 ≡ ok a) × ((f a (m s).1).0 ≡ ok b)
  unfolding ◌>>=◌
  run_ok m f s b h = continue_ok (m s).0 f (m s).1 b h

  continue_through :
      (r : Result A) (f : A → Exec S B) (s : S) (b : B)
      → (continue r f s).0 ≡ ok b
      → (a : A) × (r ≡ ok a) × (continue r f s ≡ f a s)
  continue_through (ok a) f s b h = (a, refl, refl)
  continue_through (err e) f s b h = cc
  continue_through panic f s b h = cc

  pub pure_bind : (a : A) (f : A → Exec S B) (s : S) → (pure a >>= f) s ≡ f a s
  unfolding ◌>>=◌ pure
  pure_bind a f s = refl

  -- A run that has succeeded is the run of its last part from where the first one has left off.
  pub run_through :
      (m : Exec S A) (f : A → Exec S B) (s : S) (b : B)
      → ((m >>= f) s).0 ≡ ok b
      → (a : A) × ((m s).0 ≡ ok a) × ((m >>= f) s ≡ f a (m s).1)
  unfolding ◌>>=◌
  run_through m f s b h = continue_through (m s).0 f (m s).1 b h

module _ {ℓ} {S A B C : Type ℓ} where
  continue_assoc :
      (r : Result A) (f : A → Exec S B) (g : B → Exec S C) (s : S)
      → continue (continue r f s).0 g (continue r f s).1 ≡ continue r (λ a. f a >>= g) s
  unfolding ◌>>=◌
  continue_assoc (ok a) f g s = refl
  continue_assoc (err e) f g s = refl
  continue_assoc panic f g s = refl

  pub bind_assoc :
      (m : Exec S A) (f : A → Exec S B) (g : B → Exec S C) (s : S)
      → (m >>= f >>= g) s ≡ (m >>= λ a. f a >>= g) s
  unfolding ◌>>=◌
  bind_assoc m f g s = continue_assoc (m s).0 f g (m s).1
