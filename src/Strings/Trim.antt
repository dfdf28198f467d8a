-- ===== src/Strings/Trim.antt =====
-- strings.Trim, strings.TrimSpace and their halves, and what a trimmed text looks like.
use cloud_secrets.Prelude.{
  ℕ, zero, suc, ◌≤◌, ◌≡◌, refl, ap, inl, inr, Bool, true, false, ◌&&◌, ◌||◌, [], ◌∷◌, arith, leb,
  eqb, if◌then◌else◌, Bool-cases, length, any, Text,
}
use cloud_secrets.Strings.{contains}
use mathlib.Core.List.{reverse}

module _ (cut : ℕ → Bool) where
  unfoldable pub trim_left : Text → Text
  trim_left [] = []
  trim_left (x ∷ xs) = elim (cut x) [ true ↦ trim_left xs | false ↦ x ∷ xs ]

  -- what is kept before the trailing run
  abbrev pub hold : ℕ → Text → Text
  hold x [] = if cut x then [] else x ∷ []
  hold x (y ∷ ys) = x ∷ y ∷ ys

  unfoldable pub trim_right : Text → Text
  trim_right [] = []
  trim_right (x ∷ xs) = hold x (trim_right xs)

  unfoldable pub trim_both : Text → Text
  unfolding trim_left trim_right
  trim_both s = trim_right (trim_left s)

-- strings.Trim(s, "/")
unfoldable pub trim_slashes : Text → Text
unfolding trim_both
trim_slashes = trim_both (λ c. eqb c b'/')

-- unicode.IsSpace of a rune, by its bytes in UTF-8: tab to carriage return and the space; U+0085 and
-- U+00A0; U+1680, U+2000 to U+200A, U+2028, U+2029, U+202F, U+205F and U+3000.
abbrev pub is_space : ℕ → Bool
is_space c = (leb 9 c && leb c 13) || eqb c 32

abbrev pub is_space_of_two : ℕ → ℕ → Bool
is_space_of_two b c = eqb b 0xC2 && (eqb c 0x85 || eqb c 0xA0)

abbrev pub is_space_of_three : ℕ → ℕ → ℕ → Bool
is_space_of_three a b c =
    eqb a 0xE1 && eqb b 0x9A && eqb c 0x80
    || eqb a 0xE2
      && eqb b 0x80
      && (leb 0x80 c && leb c 0x8A || eqb c 0xA8 || eqb c 0xA9 || eqb c 0xAF)
    || eqb a 0xE2 && eqb b 0x81 && eqb c 0x9F
    || eqb a 0xE3 && eqb b 0x80 && eqb c 0x80

-- The length of the white space that a text begins with, in bytes, 0 if it begins with none.
abbrev pub first_space : Text → ℕ
first_space [] = 0
first_space (a ∷ []) = if is_space a then 1 else 0
first_space (a ∷ b ∷ []) = if is_space a then 1 else if is_space_of_two a b then 2 else 0
first_space (a ∷ b ∷ c ∷ _) =
    if is_space a
    then 1
    else if is_space_of_two a b
    then 2
    else if is_space_of_three a b c
    then 3
    else 0

-- The same of the white space that a text ends with; the text is given from its end.
abbrev pub last_space : Text → ℕ
last_space [] = 0
last_space (c ∷ []) = if is_space c then 1 else 0
last_space (c ∷ b ∷ []) = if is_space c then 1 else if is_space_of_two b c then 2 else 0
last_space (c ∷ b ∷ a ∷ _) =
    if is_space c
    then 1
    else if is_space_of_two b c
    then 2
    else if is_space_of_three a b c
    then 3
    else 0

-- What is left behind so many bytes and the white space that follows them.
unfoldable pub skip_spaces : (Text → ℕ) → ℕ → Text → Text
skip_spaces space_at skipped [] = []
skip_spaces space_at (suc skipped) (c ∷ rest) = skip_spaces space_at skipped rest
skip_spaces space_at zero (c ∷ rest) = elim (space_at (c ∷ rest)) [
  | zero ↦ c ∷ rest
  | suc skipped ↦ skip_spaces space_at skipped rest
]

-- strings.TrimSpace(s)
unfoldable pub trim_space : Text → Text
unfolding skip_spaces
trim_space s = reverse (skip_spaces last_space 0 (reverse (skip_spaces first_space 0 s)))

no_break_space_cut : trim_space (0xC2 ∷ 0xA0 ∷ 9 ∷ 107 ∷ 32 ∷ 0xE2 ∷ 0x80 ∷ 0x83 ∷ []) ≡ 107 ∷ []
unfolding trim_space
no_break_space_cut = refl

inner_bytes_kept :
    trim_space (0xC4 ∷ 0x85 ∷ 107 ∷ 0xC3 ∷ 0xA0 ∷ []) ≡ 0xC4 ∷ 0x85 ∷ 107 ∷ 0xC3 ∷ 0xA0 ∷ []
unfolding trim_space
inner_bytes_kept = refl

module _ (cut : ℕ → Bool) where
  trim_left_idem : (s : Text) → trim_left cut (trim_left cut s) ≡ trim_left cut s
  unfolding trim_left
  trim_left_idem [] = refl
  trim_left_idem (x ∷ xs) = ground (arith, trim_left_idem xs)

  trim_right-hold :
      (x : ℕ) (s : Text) → trim_right cut s ≡ s → trim_right cut (hold cut x s) ≡ hold cut x s
  unfolding trim_right
  trim_right-hold x [] h = ground arith
  trim_right-hold x (y ∷ ys) h = ground arith

  trim_right_idem : (s : Text) → trim_right cut (trim_right cut s) ≡ trim_right cut s
  unfolding trim_right
  trim_right_idem [] = refl
  trim_right_idem (x ∷ xs) = trim_right-hold x (trim_right cut xs) (trim_right_idem xs)

  left_of_hold : (x : ℕ) (s : Text) → cut x ≡ false → trim_left cut (hold cut x s) ≡ hold cut x s
  unfolding trim_left
  left_of_hold x [] h = ground arith
  left_of_hold x (y ∷ ys) h = ground arith

  length-trim_left : (s : Text) → length (trim_left cut s) ≤ length s
  unfolding trim_left
  length-trim_left [] = omega arith
  length-trim_left (x ∷ xs) = ground (arith, length-trim_left xs)

  head_kept : (x : ℕ) (xs : Text) → trim_left cut (x ∷ xs) ≡ x ∷ xs → cut x ≡ false
  unfolding trim_left
  head_kept x xs h = elim (Bool-cases (cut x)) [
    | inl gone ↦ absurd (
        let shorter : length (trim_left cut xs) ≤ length xs = length-trim_left xs in
        let rest_kept : trim_left cut xs ≡ x ∷ xs = ground arith in
        let same : length (trim_left cut xs) ≡ suc (length xs) = ap length rest_kept in omega arith)
    | inr kept ↦ kept
  ]

  left_of_right :
      (s : Text) → trim_left cut s ≡ s → trim_left cut (trim_right cut s) ≡ trim_right cut s
  unfolding trim_left trim_right
  left_of_right [] h = refl
  left_of_right (x ∷ xs) h = left_of_hold x (trim_right cut xs) (head_kept x xs h)

  pub trim_both_idem : (s : Text) → trim_both cut (trim_both cut s) ≡ trim_both cut s
  unfolding trim_both
  trim_both_idem s =
      rw (left_of_right (trim_left cut s) (trim_left_idem s)) (trim_right_idem (trim_left cut s))

pub trim_slashes_idem : (s : Text) → trim_slashes (trim_slashes s) ≡ trim_slashes s
unfolding trim_slashes
trim_slashes_idem = trim_both_idem (λ c. eqb c b'/')

module _ (cut : ℕ → Bool) where
  trim_left_none : (s : Text) → any cut s ≡ false → trim_left cut s ≡ s
  unfolding trim_left
  trim_left_none [] h = refl
  trim_left_none (x ∷ xs) h = ground arith

  hold_kept : (x : ℕ) (s : Text) → cut x ≡ false → hold cut x s ≡ x ∷ s
  hold_kept x [] h = ground arith
  hold_kept x (y ∷ ys) h = refl

  trim_right_none : (s : Text) → any cut s ≡ false → trim_right cut s ≡ s
  unfolding trim_right
  trim_right_none [] h = refl
  trim_right_none (x ∷ xs) h = ground (arith, trim_right_none xs, hold_kept x xs)

any-contains : (s : Text) → contains b'/' s ≡ false → any (λ c. eqb c b'/') s ≡ false
unfolding contains
any-contains [] h = refl
any-contains (x ∷ xs) h = ground (arith, any-contains xs)

-- A text without a slash is trimmed already.
pub trim_slashes_plain : (s : Text) → contains b'/' s ≡ false → trim_slashes s ≡ s
unfolding trim_slashes trim_both
trim_slashes_plain s h =
    let none_cut = any-contains s h in
    rw (trim_left_none (λ c. eqb c b'/') s none_cut) (trim_right_none (λ c. eqb c b'/') s none_cut)
