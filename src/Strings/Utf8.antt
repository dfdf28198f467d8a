-- ===== src/Strings/Utf8.antt =====
-- utf8.Valid of Go's package `unicode/utf8`.
use cloud_secrets.Prelude.{
  ℕ, zero, suc, Bool, true, false, ◌&&◌, Option, none, some, [], ◌∷◌, ltb, leb, eqb, if◌then◌else◌,
  Text,
}

-- How many bytes follow a first byte, and the bounds of the next one.
abbrev pub leads : ℕ → Option (ℕ × (ℕ × ℕ))
leads c =
    if ltb c 0x80
    then some (0, (0x80, 0xBF))
    else if ltb c 0xC2
    then none
    else if ltb c 0xE0
    then some (1, (0x80, 0xBF))
    else if eqb c 0xE0
    then some (2, (0xA0, 0xBF))
    else if eqb c 0xED
    then some (2, (0x80, 0x9F))
    else if ltb c 0xF0
    then some (2, (0x80, 0xBF))
    else if eqb c 0xF0
    then some (3, (0x90, 0xBF))
    else if ltb c 0xF4
    then some (3, (0x80, 0xBF))
    else if eqb c 0xF4
    then some (3, (0x80, 0x8F))
    else none

-- `needed` bytes are still to come, the next one within the bounds.
unfoldable pub valid_from : ℕ → ℕ → ℕ → Text → Bool
valid_from zero low high [] = true
valid_from (suc needed) low high [] = false
valid_from zero low high (c ∷ rest) = elim (leads c) [
  | none ↦ false
  | some (needed, (low', high')) ↦ valid_from needed low' high' rest
]
valid_from (suc needed) low high (c ∷ rest) =
    leb low c && leb c high && valid_from needed 0x80 0xBF rest

unfoldable pub valid_utf8 : Text → Bool
unfolding valid_from
valid_utf8 s = valid_from 0 0x80 0xBF s
