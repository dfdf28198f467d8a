-- ===== src/Strings/Search.antt =====
-- strings.LastIndex, strings.Contains and strings.ToLower on ASCII, and the suffix of one byte.
use cloud_secrets.Prelude.{
  ℕ, suc, ◌+◌, ◌≡◌, refl, Bool, false, ◌&&◌, ◌||◌, Option, none, some, [], ◌∷◌, ◌++◌, map, arith,
  leb, eqb, if◌then◌else◌, length, Text,
}
use cloud_secrets.Strings.{contains, has_prefix}

-- strings.LastIndex(s, c) for one byte; `none` is -1.
unfoldable pub last_index : ℕ → Text → Option ℕ
last_index c [] = none
last_index c (x ∷ xs) = elim (last_index c xs) [
  | some i ↦ some (suc i)
  | none ↦ if eqb x c then some 0 else none
]

-- strings.Contains(s, part)
unfoldable pub contains_text : Text → Text → Bool
unfolding has_prefix
contains_text part [] = has_prefix [] part
contains_text part (x ∷ xs) = has_prefix (x ∷ xs) part || contains_text part xs

abbrev pub lower_byte : ℕ → ℕ
lower_byte c = if leb 65 c && leb c 90 then c + 32 else c

-- strings.ToLower(s), on ASCII
unfoldable pub to_lower : Text → Text
to_lower s = map lower_byte s

-- strings.HasSuffix(s, c) for one byte
unfoldable pub has_suffix : ℕ → Text → Bool
has_suffix c [] = false
has_suffix c (x ∷ []) = eqb x c
has_suffix c (x ∷ y ∷ ys) = has_suffix c (y ∷ ys)

-- strings.TrimSuffix(s, c) for one byte
unfoldable pub trim_suffix : ℕ → Text → Text
trim_suffix c [] = []
trim_suffix c (x ∷ []) = if eqb x c then [] else x ∷ []
trim_suffix c (x ∷ y ∷ ys) = x ∷ trim_suffix c (y ∷ ys)

last_index-none : (c : ℕ) (s : Text) → contains c s ≡ false → last_index c s ≡ none
unfolding last_index contains
last_index-none c [] h = refl
last_index-none c (x ∷ xs) h = ground (arith, last_index-none c xs)

pub last_index-append :
    (c : ℕ) (s t : Text) → contains c t ≡ false → last_index c (s ++ c ∷ t) ≡ some (length s)
unfolding last_index
last_index-append c [] t h = ground (arith, last_index-none c t h)
last_index-append c (x ∷ xs) t h = ground (arith, last_index-append c xs t h)
