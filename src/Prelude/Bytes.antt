-- ===== src/Prelude/Bytes.antt =====
-- Go strings as their bytes. `s == t` is a test on a decision, so that a split on it yields the
-- equation or its negation.
use Prim.Native.Nat.{ℕ}
use Prim.Native.Char.{code}
use Prim.Native.String.{String}
use mathlib.Core.Path.{◌≡◌, refl, ap₂}
use mathlib.Core.Logic.{ite, dite, ◌≢◌}
use mathlib.Core.Bool.{Bool, true, false}
use mathlib.Core.List.{List, [], ◌∷◌}
use native.Mathlib.Decide.{ℕ_discrete}
use native.Mathlib.Omega.{arith}

abbrev pub Text : Type 0
Text = List ℕ

-- The bytes of an ASCII literal.
abbrev pub codes : String → Text
codes String.[] = []
codes (String.◌∷◌ c s) = code c ∷ codes s

pub cons-ne_head : (x y : ℕ) (xs ys : Text) → x ≢ y → x ∷ xs ≢ y ∷ ys
cons-ne_head x y xs ys h e = ground arith

pub cons-ne_tail : (x y : ℕ) (xs ys : Text) → xs ≢ ys → x ∷ xs ≢ y ∷ ys
cons-ne_tail x y xs ys h e = ground arith

pub nil-ne-cons : (x : ℕ) (xs : Text) → ◌≢◌ {A = Text} [] (x ∷ xs)
nil-ne-cons x xs e = cc

pub cons-ne-nil : (x : ℕ) (xs : Text) → ◌≢◌ {A = Text} (x ∷ xs) []
cons-ne-nil x xs e = cc

unfoldable pub Text-discrete : Discrete Text
unfolding ℕ_discrete
Text-discrete [] [] = yes refl
Text-discrete [] (y ∷ ys) = no (nil-ne-cons y ys)
Text-discrete (x ∷ xs) [] = no (cons-ne-nil x xs)
Text-discrete (x ∷ xs) (y ∷ ys) =
    let rest = Text-discrete xs ys in
    dite (ℕ_discrete x y)
      (λ p. dite rest (λ q. yes (ap₂ (λ a l. a ∷ l) p q)) (λ n. no (cons-ne_tail x y xs ys n)))
      (λ n. no (cons-ne_head x y xs ys n))

infix 50 ◌==◌
abbrev pub ◌==◌ : Text → Text → Bool
s == t = ite (Text-discrete s t) true false

pub eq_refl : (s : Text) → (s == s) ≡ true
eq_refl s = ground arith

pub eq→≡ : (s t : Text) → (s == t) ≡ true → s ≡ t
eq→≡ s t h = ground arith

same_text : (codes "a/b" == codes "a/b") ≡ true
unfolding Text-discrete
same_text = refl
