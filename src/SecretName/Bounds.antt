-- ===== src/SecretName/Bounds.antt =====
-- The names of secret versions are within what Docker accepts.
use mathlib.Core.Path.{subst}
use cloud_secrets.Prelude.{
  ℕ, ◌+◌, ◌≤◌, ◌≡◌, refl, inl, inr, true, false, ◌||◌, [], ◌∷◌, ◌++◌, arith, ltb, eqb, Bool-cases,
  length, length-append, ok, Text, codes, ◌==◌,
}
use cloud_secrets.Prelude.Exec.{Exec, pure}
use cloud_secrets.Strings.{replace_all, contains}
use cloud_secrets.SecretName.{
  max_length, validate, generate, folder_delimiter_dash, folder_delimiter_underscore,
}

-- At most 64 bytes, and no slash.
pub record IsSwarmName (name : Text) : Type 0 where
  pub short : length name ≤ max_length
  pub flat : contains b'/' name ≡ false

-- One byte that is no slash.
record IsDelimiter (d : Text) : Type 0 where
  pub one : length d ≡ 1
  pub flat : contains b'/' d ≡ false

IsDelimiter-of_text : (d e : Text) → (d == e) ≡ true → IsDelimiter e → IsDelimiter d
IsDelimiter-of_text d e same h = record {
  one = ground (arith, h.one);
  flat = ground (arith, h.flat);
}

dash-IsDelimiter : IsDelimiter folder_delimiter_dash
unfolding contains
dash-IsDelimiter = record { one = refl; flat = refl }

underscore-IsDelimiter : IsDelimiter folder_delimiter_underscore
unfolding contains
underscore-IsDelimiter = record { one = refl; flat = refl }

validate-IsDelimiter : (d : Text) → validate d ≡ ok tt → IsDelimiter d
unfolding validate
validate-IsDelimiter d h = elim (Bool-cases (d == folder_delimiter_dash)) [
  | inl dash ↦ IsDelimiter-of_text d folder_delimiter_dash dash dash-IsDelimiter
  | inr no_dash ↦
      IsDelimiter-of_text d folder_delimiter_underscore (ground arith) underscore-IsDelimiter
]

length-replace_all : (c : ℕ) (d s : Text) → length d ≡ 1 → length (replace_all c d s) ≡ length s
unfolding replace_all
length-replace_all c d [] one = refl
length-replace_all c d (x ∷ xs) one = elim (Bool-cases (eqb x c)) [
  | inl same ↦ ground (arith, length-append d (replace_all c d xs), length-replace_all c d xs)
  | inr other ↦ ground (arith, length-replace_all c d xs)
]

contains-append : (c : ℕ) (s t : Text) → contains c (s ++ t) ≡ (contains c s || contains c t)
unfolding contains
contains-append c [] t = refl
contains-append c (x ∷ xs) t = ground (arith, contains-append c xs t)

contains-replace_all :
    (c : ℕ) (d s : Text) → contains c d ≡ false → contains c (replace_all c d s) ≡ false
unfolding replace_all contains
contains-replace_all c d [] flat = refl
contains-replace_all c d (x ∷ xs) flat =
    ground (arith, contains-append c d (replace_all c d xs), contains-replace_all c d xs)

joined-IsSwarmName :
    (path d version_id : Text)
    → IsDelimiter d
    → contains b'/' version_id ≡ false
    → length path + length version_id + 1 ≤ max_length
    → IsSwarmName (replace_all b'/' d path ++ codes "-" ++ version_id)
unfolding contains
joined-IsSwarmName path d version_id delimiter flat short = record {
  short = ground (
    arith,
    length-append (replace_all b'/' d path ++ codes "-") version_id,
    length-append (replace_all b'/' d path) (codes "-"),
    length-replace_all b'/' d path delimiter.one,
  );
  flat = ground (
    arith,
    contains-append b'/' (replace_all b'/' d path ++ codes "-") version_id,
    contains-append b'/' (replace_all b'/' d path) (codes "-"),
    contains-replace_all b'/' d path delimiter.flat,
  );
}

-- With a valid delimiter and a version ID without slashes, every name that is generated is at most
-- 64 bytes long and has no slash, as a UUID is and has not.
pub generate-IsSwarmName :
    {W : Type 0} (new_uuid : Exec W Text) (path d version_id name : Text) (w : W)
    → ((uuid : Text) → (new_uuid w).0 ≡ ok uuid → IsSwarmName uuid)
    → validate d ≡ ok tt
    → contains b'/' version_id ≡ false
    → (generate new_uuid path d version_id w).0 ≡ ok name
    → IsSwarmName name
unfolding generate pure
generate-IsSwarmName new_uuid path d version_id name w uuids valid flat h =
    elim (Bool-cases (ltb max_length (length path + length version_id + 1))) [
      | inl long ↦ uuids name (ground arith)
      | inr short ↦
          subst IsSwarmName (ground arith) (
            joined-IsSwarmName path d version_id (validate-IsDelimiter d valid) flat (ground arith))
    ]
