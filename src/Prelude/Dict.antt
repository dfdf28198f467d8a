-- ===== src/Prelude/Dict.antt =====
-- Go maps with text keys, as association lists. A range over a map is a walk of the list; the
-- theorems hold for every list, so for every order in which Go may walk the map.
use mathlib.Core.Path.{◌≡◌, refl}
use mathlib.Core.Bool.{Bool, true, false}
use mathlib.Core.Option.{Option, none, some}
use mathlib.Core.List.{List, [], ◌∷◌, ◌++◌}
use native.Mathlib.Omega.{arith}
use cloud_secrets.Prelude.Tests.{if◌then◌else◌}
use cloud_secrets.Prelude.Bytes.{Text, ◌==◌, eq_refl}

abbrev pub Dict {ℓ} : Type ℓ → Type ℓ
Dict V = List (Text × V)

-- A set of texts: `map[string]struct{}`.
abbrev pub TextSet : Type 0
TextSet = Dict (Unit {0})

module _ {ℓ} {V : Type ℓ} where
  unfoldable pub lookup : Text → Dict V → Option V
  lookup k [] = none
  lookup k ((j, v) ∷ d) = if j == k then some v else lookup k d

  -- `d[k] = v`; a new key goes to the end.
  unfoldable pub insert : Text → V → Dict V → Dict V
  insert k v [] = (k, v) ∷ []
  insert k v ((j, w) ∷ d) = if j == k then (k, v) ∷ d else (j, w) ∷ insert k v d

  unfoldable pub keys : Dict V → List Text
  keys [] = []
  keys ((k, _) ∷ d) = k ∷ keys d

  unfoldable pub has : Text → Dict V → Bool
  unfolding lookup
  has k d = elim (lookup k d) [ none ↦ false | some _ ↦ true ]

  pub lookup-insert :
      (j k : Text) (v : V) (d : Dict V)
      → lookup j (insert k v d) ≡ (if k == j then some v else lookup j d)
  unfolding lookup insert
  lookup-insert j k v [] = refl
  lookup-insert j k v ((i, w) ∷ d) = ground (arith, lookup-insert j k v d)

  -- Writing to a present key keeps the keys, and writing to a new one appends it.
  pub keys-insert :
      (k : Text) (v : V) (d : Dict V)
      → keys (insert k v d) ≡ (if has k d then keys d else keys d ++ k ∷ [])
  unfolding insert keys has
  keys-insert k v [] = refl
  keys-insert k v ((j, w) ∷ d) = ground (arith, keys-insert k v d)

  pub has-insert :
      (j k : Text) (v : V) (d : Dict V) → has j (insert k v d) ≡ (if k == j then true else has j d)
  unfolding has
  has-insert j k v d = ground (arith, lookup-insert j k v d)

  -- What is present stays so, and what is written is.
  pub has-insert_old :
      (j k : Text) (v : V) (d : Dict V) → has j d ≡ true → has j (insert k v d) ≡ true
  has-insert_old j k v d present = ground (arith, has-insert j k v d)

  pub has-insert_new : (k : Text) (v : V) (d : Dict V) → has k (insert k v d) ≡ true
  has-insert_new k v d = ground (arith, has-insert k k v d, eq_refl k)

  -- No key stands twice.
  abbrev pub NodupKeys : Dict V → Type 0
  NodupKeys [] = Unit
  NodupKeys ((k, _) ∷ d) = (has k d ≡ false) × NodupKeys d

  pub insert-NodupKeys : (k : Text) (v : V) (d : Dict V) → NodupKeys d → NodupKeys (insert k v d)
  unfolding insert
  insert-NodupKeys k v [] u = unfold has lookup in (refl, tt)
  insert-NodupKeys k v ((j, w) ∷ d) (fresh, u) =
      ground (arith, insert-NodupKeys k v d u, has-insert j k v d)
