-- ===== src/Sync/Process/Names.antt =====
-- The paths under which external secrets stand in the Swarm.
use cloud_secrets.Prelude.{
  ℕ, ◌≡◌, refl, ap, ◌≢◌, ◌⊎◌, inl, inr, false, Option, none, some, [], ◌∷◌, ◌++◌, arith, eqb,
  if◌then◌else◌, ok, Text,
}
use cloud_secrets.Prelude.Dict
use cloud_secrets.Prelude.Dict.{Dict}
use cloud_secrets.Engine.{ExistingSecret}
use cloud_secrets.Strings.{replace_all, contains}
use cloud_secrets.SecretName.{validate, folder_delimiter_dash, folder_delimiter_underscore}
use cloud_secrets.Providers.Contracts.{Secret}
use cloud_secrets.Sync.Payload.{Synchronizer}
use cloud_secrets.Sync.Process.{prepare_secret_path}
use cloud_secrets.Sync.Process.Tally.{status, status_of, current}

-- No byte of the delimiter stands in the path.
abbrev pub IsFreeOf : Text → Text → Type 0
IsFreeOf [] path = Unit
IsFreeOf (d ∷ ds) path = (contains d path ≡ false) × IsFreeOf ds path

replace_all-injective :
    (c d : ℕ) (p q : Text)
    → contains d p ≡ false
    → contains d q ≡ false
    → replace_all c (d ∷ []) p ≡ replace_all c (d ∷ []) q
    → p ≡ q
unfolding replace_all contains
replace_all-injective c d [] [] hp hq e = refl
replace_all-injective c d [] (y ∷ ys) hp hq e = ground arith
replace_all-injective c d (x ∷ xs) [] hp hq e = ground arith
replace_all-injective c d (x ∷ xs) (y ∷ ys) hp hq e =
    ground (arith, replace_all-injective c d xs ys)

replace_all_collides :
    (c d : ℕ) (p q : Text)
    → replace_all c (d ∷ []) (p ++ c ∷ q) ≡ replace_all c (d ∷ []) (p ++ d ∷ q)
unfolding replace_all
replace_all_collides c d [] q = ground arith
replace_all_collides c d (x ∷ xs) q =
    ap (λ r. (if eqb x c then d ∷ [] else x ∷ []) ++ r) (replace_all_collides c d xs q)

validate_cases :
    (d : Text)
    → validate d ≡ ok tt
    → (d ≡ folder_delimiter_dash) ⊎ (d ≡ folder_delimiter_underscore)
unfolding validate
validate_cases d h = ground arith

one_byte :
    (delimiter p q : Text) (c : ℕ)
    → delimiter ≡ c ∷ []
    → IsFreeOf delimiter p
    → IsFreeOf delimiter q
    → replace_all b'/' delimiter p ≡ replace_all b'/' delimiter q
    → p ≡ q
one_byte delimiter p q c one fp fq e =
    replace_all-injective b'/' c p q (rw one at fp).0 (rw one at fq).0 (rw one at e)

not_both_current :
    (o : Option ExistingSecret) (x y : Secret)
    → x.version_id ≢ y.version_id
    → status_of o x ≡ current
    → status_of o y ≡ current
    → ⊥
not_both_current none x y other hx hy = ground arith
not_both_current (some swarm_secret) x y other hx hy = ground arith

module _ {W : Type 0} (s : Synchronizer W) where
  -- With a valid delimiter, external paths that are free of it are told apart in the Swarm.
  pub prepare_secret_path-injective :
      (p q : Text)
      → validate s.folder_delimiter ≡ ok tt
      → IsFreeOf s.folder_delimiter p
      → IsFreeOf s.folder_delimiter q
      → prepare_secret_path s p ≡ prepare_secret_path s q
      → p ≡ q
  unfolding prepare_secret_path
  prepare_secret_path-injective p q valid fp fq e = elim (validate_cases s.folder_delimiter valid) [
    | inl dash ↦ one_byte s.folder_delimiter p q _ dash fp fq e
    | inr underscore ↦ one_byte s.folder_delimiter p q _ underscore fp fq e
  ]

  -- A path that has a slash shares its Swarm secret with the one that has the delimiter, of one
  -- byte, in that place; and two external secrets of such paths, in different versions, are never
  -- both up to date, whatever secrets the Swarm has.
  pub colliding_never_current :
      (p q : Text) (d : ℕ) (x y : Secret) (secrets : Dict ExistingSecret)
      → s.folder_delimiter ≡ d ∷ []
      → x.path ≡ p ++ b'/' ∷ q
      → y.path ≡ p ++ d ∷ q
      → x.version_id ≢ y.version_id
      → (prepare_secret_path s x.path ≡ prepare_secret_path s y.path)
        × ¬ ((status s secrets x ≡ current) × (status s secrets y ≡ current))
  unfolding prepare_secret_path
  colliding_never_current p q d x y secrets delimiter px py other =
      let shared : prepare_secret_path s x.path ≡ prepare_secret_path s y.path =
        rw (px, py, delimiter) (replace_all_collides b'/' d p q) in
      (
        shared,
        λ both.
            not_both_current (Dict.lookup (prepare_secret_path s y.path) secrets) x y other
              (rw shared at both.0) both.1,
      )
