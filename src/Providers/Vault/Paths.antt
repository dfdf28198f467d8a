-- ===== src/Providers/Vault/Paths.antt =====
-- The paths under which the keys of documents are listed, and read again.
use mathlib.Core.List.{append_assoc}
use cloud_secrets.Prelude.{
  ℕ, ◌+◌, ◌≡◌, refl, ◌≢◌, false, some, [], ◌∷◌, ◌++◌, arith, length, drop, take, length-append, ok,
  Text, codes,
}
use cloud_secrets.Strings.{contains}
use cloud_secrets.Strings.Search.{last_index-append}
use cloud_secrets.Strings.Trim.{trim_slashes_plain, trim_slashes}
use cloud_secrets.Providers.Vault.{parse_secret_path, split_at_slash, join_path}

take-append : (s t : Text) → take (length s) (s ++ t) ≡ s
take-append [] t = refl
take-append (x ∷ xs) t = ground (arith, take-append xs t)

drop-append : (s : Text) (c : ℕ) (t : Text) → drop (length s + 1) (s ++ c ∷ t) ≡ t
drop-append [] c t = refl
drop-append (x ∷ xs) c t = ground (arith, drop-append xs c t)

join_path_plain :
    (path key : Text)
    → trim_slashes path ≡ path
    → path ≢ []
    → trim_slashes key ≡ key
    → key ≢ []
    → join_path path key ≡ path ++ b'/' ∷ key
unfolding join_path
join_path_plain path key trimmed named plain keyed =
    ground (arith, append_assoc path (codes "/") key)

split_at_last :
    (path key : Text)
    → path ≢ []
    → key ≢ []
    → split_at_slash (path ++ b'/' ∷ key) (some (length path))
      ≡ ok (record { path = path; key = key })
split_at_last [] key named keyed = absurd (named refl)
split_at_last (x ∷ xs) [] named keyed = absurd (keyed refl)
split_at_last (x ∷ xs) (y ∷ ys) named keyed = ground (
  arith,
  take-append (x ∷ xs) (b'/' ∷ y ∷ ys),
  drop-append (x ∷ xs) b'/' (y ∷ ys),
  length-append (x ∷ xs) (b'/' ∷ y ∷ ys),
)

-- The path under which a key of a document is listed leads back to the document and the key, if
-- the key is not empty and has no slash, and the path of the document is not empty and has no
-- slash at its ends.
pub join-parse :
    (path key : Text)
    → trim_slashes path ≡ path
    → path ≢ []
    → contains b'/' key ≡ false
    → key ≢ []
    → parse_secret_path (join_path path key) ≡ ok (record { path = path; key = key })
unfolding parse_secret_path
join-parse path key trimmed named plain keyed =
    rw
      (
        join_path_plain path key trimmed named (trim_slashes_plain key plain) keyed,
        last_index-append b'/' path key plain,
      )
      (split_at_last path key named keyed)
