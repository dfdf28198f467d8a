-- ===== src/Strings/Sort.antt =====
-- sort.Strings, as an insertion sort.
use cloud_secrets.Prelude.{Bool, true, false, List, [], ◌∷◌, if◌then◌else◌, Text, ltb}

-- sort.Strings, byte by byte
abbrev text_leb : Text → Text → Bool
text_leb [] t = true
text_leb (x ∷ xs) [] = false
text_leb (x ∷ xs) (y ∷ ys) =
    let rest = text_leb xs ys in if ltb x y then true else if ltb y x then false else rest

unfoldable insert_sorted : Text → List Text → List Text
insert_sorted t [] = t ∷ []
insert_sorted t (u ∷ us) = if text_leb t u then t ∷ u ∷ us else u ∷ insert_sorted t us

unfoldable pub sort_strings : List Text → List Text
unfolding insert_sorted
sort_strings [] = []
sort_strings (t ∷ ts) = insert_sorted t (sort_strings ts)
