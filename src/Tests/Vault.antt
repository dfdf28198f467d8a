-- ===== src/Tests/Vault.antt =====
-- A Vault in memory: the versions of one document, the newest first.
use cloud_secrets.Providers.Vault.Listing.Ends.{list_secrets_ends}
use cloud_secrets.Prelude.Dict
use cloud_secrets.Providers.Vault.Listing.{IsFinite, KnownFolders}
use cloud_secrets.Strings.Search.{has_suffix, trim_suffix}
use mathlib.Core.Path.{subst}
use cloud_secrets.Providers.Vault.Tree.{Tree, Shows}
use cloud_secrets.Providers.Vault.Tree.Exact.{Lists, list_secrets-Lists}
use cloud_secrets.Providers.Vault.{list_secrets, VaultClient}
use cloud_secrets.Prelude.{
  ◌<◌, ◌≤◌, ℕ, suc, ◌≡◌, refl, ◌≢◌, Bool, true, false, Option, none, some, List, [], ◌∷◌, arith,
  eqb, if◌then◌else◌, length, foreign, wrap, Result, ok, err, Text, codes, ◌==◌, Text-discrete,
}
use cloud_secrets.Prelude.Exec.{Exec, actions}
use cloud_secrets.Strings.{contains}
use cloud_secrets.Providers.Vault.Paths.{join-parse}
use cloud_secrets.Providers.Vault.Api.Auth.{
  Authenticated, SecretAuth, authenticate, authenticate_leased, logged_in,
}
use cloud_secrets.Providers.Vault.{parse_secret_path, join_path}
use cloud_secrets.Strings.Trim.{trim_slashes}
use cloud_secrets.Providers.Vault.Api.Write.{Document, IsVersioned, AddsKey, create_secret_key_adds}
use cloud_secrets.Prelude.Dict.{Dict}
use cloud_secrets.Providers.Vault.Api.{Value, text, no_keys, KvSecret, VaultApi}
use cloud_secrets.Providers.Vault.Api.{create_secret_key}

abbrev pub Versions : Type 0
Versions = List (Dict Value)

abbrev newest_fields : Versions → Dict Value
newest_fields [] = []
newest_fields (fields ∷ older) = fields

abbrev pub document : Versions → Text → Document
document w path = record { version = length w; fields = newest_fields w }

abbrev get_newest : Versions → Result KvSecret
get_newest [] = err (foreign 404)
get_newest (fields ∷ older) = ok (record { fields = fields; version = some (suc (length older)) })

abbrev put_over : Dict Value → Option ℕ → Versions → Result KvSecret × Versions
put_over fields none w =
    (ok (record { fields = fields; version = some (suc (length w)) }), fields ∷ w)
put_over fields (some cas) w =
    if eqb cas (length w)
    then (ok (record { fields = fields; version = some (suc (length w)) }), fields ∷ w)
    else (err (foreign 400), w)

abbrev pub vault : VaultApi Versions
vault = record {
  get = λ path w. (get_newest w, w);
  put = λ path fields cas w. put_over fields cas w;
  get_metadata = λ path w. (ok (length w), w);
  delete_metadata = λ path w. (ok tt, []);
  list = λ path w. (ok no_keys, w);
  put_policy = λ name rules w. (ok tt, w);
  create_token = λ policies w. (ok none, w);
  is_not_found = λ e. true;
  as_response = λ e. none;
  marshal = λ value. ok [];
}

vault_read :
    (w : Versions) (secret : KvSecret) (version : ℕ)
    → get_newest w ≡ ok secret
    → secret.version ≡ some version
    → length w ≡ version
    → newest_fields w ≡ secret.fields
vault_read [] secret version h k e = cc
vault_read (fields ∷ older) secret version h k e = ground arith

vault_missing : (w : Versions) → length w ≡ 0 → newest_fields w ≡ []
vault_missing [] e = refl
vault_missing (fields ∷ older) e = absurd (omega arith)

pub vault-IsVersioned : IsVersioned vault document
vault-IsVersioned = record {
  read = λ w path secret version h k e. vault_read w secret version h k e;
  missing = λ w path x h k e. vault_missing w e;
  written = λ w path fields cas secret h. ground arith;
}

abbrev pub one_version : Versions
one_version = ((codes "user", text (codes "me")) ∷ []) ∷ []

added_run :
    (create_secret_key vault (codes "/app/db") (codes "password") (codes "secret") one_version).0
    ≡ ok tt
unfolding create_secret_key Text-discrete actions
added_run = refl

create_secret_key_adds_example :
    (before : Versions) × AddsKey vault document
      (codes "app/db")
      (codes "password")
      (codes "secret")
      before
      (create_secret_key vault (codes "/app/db") (codes "password") (codes "secret") one_version).1
unfolding trim_slashes
create_secret_key_adds_example =
    create_secret_key_adds vault document vault-IsVersioned (codes "/app/db") (codes "password")
      (codes "secret") one_version added_run

document_named : codes "app/db" ≢ []
document_named e = cc

key_named : codes "password" ≢ []
key_named e = cc

join-parse_example :
    parse_secret_path (join_path (codes "app/db") (codes "password"))
    ≡ ok (record { path = codes "app/db"; key = codes "password" })
join-parse_example =
    join-parse (codes "app/db") (codes "password") (unfold trim_slashes in refl) document_named
      (unfold contains in refl) key_named

-- A login that leases a token for a minute, over a clock.
abbrev login : Exec ℕ (Option SecretAuth)
login w = (ok (some (record { client_token = codes "token"; lease_duration = 60 })), suc w)

abbrev sealed : Exec ℕ (Option SecretAuth)
sealed w = (err (foreign 503), w)

abbrev signed_out : Authenticated ℕ
signed_out = record { token_expires_at = 0; world = 5 }

authenticate_leased_example :
    let signed_in = authenticate login (λ token w. w) (λ w. w) signed_out in
    (signed_in.0 ≡ ok tt)
    × (signed_in.1.world ≡ 6)
    × (60000000005 < 60000000006
        → authenticate login (λ token w. w) (λ w. w) (record signed_in.1 { world = 60000000005 })
          ≡ (ok tt, record signed_in.1 { world = 60000000005 }))
    × (60000000006 ≤ 60000000005
        → authenticate login (λ token w. w) (λ w. w) (record signed_in.1 { world = 60000000005 })
          ≡ logged_in login
              (λ token w. w)
              (λ w. w)
              (login 60000000005).0
              (record signed_in.1 { world = (login 60000000005).1 }))
authenticate_leased_example =
    authenticate_leased login (λ token w. w) (λ w. w) signed_out
      (record { client_token = codes "token"; lease_duration = 60 }) 6 60000000005 (omega arith)
      refl

refused :
    (authenticate sealed (λ token w. w) (λ w. w) signed_out).0 ≡ err (wrap "login" (foreign 503))
unfolding authenticate
refused = refl

-- A manager of two folders that list each other, and one document.
abbrev folders : Text → List Text
folders path = if path == [] then codes "app/" ∷ [] else codes "db" ∷ []

abbrev client : VaultClient (Unit {0})
client = record {
  list_keys = λ path w. (ok (folders path), w);
  get_secret = λ path key w.
      (ok (record { version_id = codes "1"; keys = codes "password" ∷ []; payload = [] }), w);
  create_secret_key = λ path key value w. (ok tt, w);
}

abbrev known : List Text
known = [] ∷ codes "app" ∷ []

folders-KnownFolders :
    (path : Text) (b : Bool)
    → (path == []) ≡ b
    → KnownFolders known path (if b then codes "app/" ∷ [] else codes "db" ∷ [])
unfolding has_suffix join_path trim_slashes trim_suffix Text-discrete
folders-KnownFolders path true e = (ground arith, tt)
folders-KnownFolders path false e = (refl, tt)

client-IsFinite : IsFinite client known 1
unfolding Text-discrete
client-IsFinite = record {
  root = refl;
  folders = λ path w keys h.
      subst (KnownFolders known path) {x = folders path} (ground arith)
        (folders-KnownFolders path (path == []) refl);
  short = λ path w keys h. ground arith;
}

list_secrets_ends_example : (list_secrets client 6 tt).0 ≢ ok none
list_secrets_ends_example = list_secrets_ends client known 1 client-IsFinite 6 tt (omega arith)

scanned :
    (list_secrets client 6 tt).0
    ≡ ok (
        some (
          (
            codes "app/db/password",
            record {
              version_id = codes "1";
              path = codes "app/db/password";
              full_path = [];
              description = [];
              web_url = [];
            },
          )
          ∷ []))
unfolding list_secrets Text-discrete actions Dict.has
scanned = refl

abbrev tree : Tree
tree = record {
  folder = folders;
  document = λ path. record { version_id = codes "1"; keys = codes "password" ∷ []; payload = [] };
}

client-Shows : Shows client tree
client-Shows = record {
  listed = λ path w keys h. ground arith;
  read = λ path w secret h. ground arith;
}

list_secrets-Lists_example : Lists tree (
    (
      codes "app/db/password",
      record {
        version_id = codes "1";
        path = codes "app/db/password";
        full_path = [];
        description = [];
        web_url = [];
      },
    )
    ∷ [])
list_secrets-Lists_example = list_secrets-Lists client tree 6 tt _ client-Shows scanned
