-- ===== src/Strings.antt =====
-- The functions of Go's package `strings` that the program calls, over bytes.
pub mod Trim
pub mod Search
pub mod Utf8
pub mod Decimal
pub mod Sort
use cloud_secrets.Prelude.{ℕ, Bool, true, false, List, [], ◌∷◌, ◌++◌, ◌&&◌, eqb, if◌then◌else◌}
use cloud_secrets.Prelude.{Text}

-- strings.ReplaceAll(s, c, to) for an old string of one byte
unfoldable pub replace_all : ℕ → Text → Text → Text
replace_all c to [] = []
replace_all c to (x ∷ xs) = (if eqb x c then to else x ∷ []) ++ replace_all c to xs

-- strings.Contains(s, c) for one byte
unfoldable pub contains : ℕ → Text → Bool
contains c [] = false
contains c (x ∷ xs) = if eqb x c then true else contains c xs

-- strings.HasPrefix(s, prefix)
unfoldable pub has_prefix : Text → Text → Bool
has_prefix s [] = true
has_prefix [] (p ∷ ps) = false
has_prefix (x ∷ xs) (p ∷ ps) = eqb x p && has_prefix xs ps

-- strings.Split(s, c) for a separator of one byte
unfoldable pub split : ℕ → Text → List Text
split c [] = [] ∷ []
split c (x ∷ xs) = elim (eqb x c) [
  | true ↦ [] ∷ split c xs
  | false ↦ elim (split c xs) [ [] ↦ (x ∷ []) ∷ [] | part ∷ parts ↦ (x ∷ part) ∷ parts ]
]
