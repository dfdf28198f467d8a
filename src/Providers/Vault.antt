-- ===== src/Providers/Vault.antt =====
-- internal/providers/vault: provider.go and secret_path.go, the provider of HashiCorp Vault over
-- the interface `vaultclient.Client`.
use cloud_secrets.Prelude.{
  ℕ, zero, suc, ◌+◌, ◌/◌, String, Bool, true, false, not, ◌||◌, Option, none, some, List, [], ◌∷◌,
  ◌++◌, eqb, if◌then◌else◌, length, drop, take, Error, Sentinel, message, sentinel, wrap, Result,
  ok, err, panic, is_sentinel, invalid_create_request, secret_already_exists, create_conflict,
  secret_key_exists, cas_conflict, Text, codes, ◌==◌,
}
use cloud_secrets.Prelude.Exec.{Exec, pure, lift, ◌>>=◌, wrapped, context}
use cloud_secrets.Prelude.Dict.{Dict, TextSet}
pub mod Api
pub mod Paths
pub mod Listing
pub mod Settings
pub mod Connect
pub mod Tree
use cloud_secrets.Prelude.Dict
use cloud_secrets.Strings.{contains}
use cloud_secrets.Strings.Search.{last_index, has_suffix, trim_suffix}
use cloud_secrets.Strings.Utf8.{valid_utf8}
use cloud_secrets.Strings.Trim.{trim_slashes, trim_space}
use cloud_secrets.Providers.Contracts.{CreateSecretRequest, Secret}
use cloud_secrets.Providers.Paths.{has_invalid_segment}
use cloud_secrets.Providers.Vault.Api.{VaultSecret}

pub record SecretPath : Type 0 where
  pub path : Text
  pub key : Text

abbrev no_key : Result SecretPath
no_key = err (message "secret path does not contain a key segment")

abbrev pub split_at_slash : Text → Option ℕ → Result SecretPath
split_at_slash path none = no_key
split_at_slash path (some idx) =
    if eqb idx 0 || eqb (idx + 1) (length path)
    then no_key
    else ok (record { path = take idx path; key = drop (idx + 1) path })

unfoldable pub parse_secret_path : Text → Result SecretPath
unfolding last_index
parse_secret_path path = split_at_slash path (last_index b'/' path)

unfoldable pub join_path : Text → Text → Text
unfolding trim_slashes
join_path parent child =
    if trim_slashes parent == []
    then trim_slashes child
    else if trim_slashes child == []
    then trim_slashes parent
    else trim_slashes parent ++ codes "/" ++ trim_slashes child

abbrev invalid_request : {A : Type 0} → String → Result A
invalid_request w = err (wrap w (sentinel invalid_create_request))

unfoldable pub normalize_create_path : Text → Result Text
unfolding trim_slashes trim_space has_invalid_segment
normalize_create_path value =
    if trim_slashes (trim_space value) == []
    then invalid_request "path is required"
    else if has_invalid_segment (trim_slashes (trim_space value))
    then invalid_request "path contains an invalid segment"
    else ok (trim_slashes (trim_space value))

abbrev pub is_secret_key_exists : Sentinel → Bool
is_secret_key_exists secret_key_exists = true
is_secret_key_exists _ = false

abbrev pub is_cas_conflict_sentinel : Sentinel → Bool
is_cas_conflict_sentinel cas_conflict = true
is_cas_conflict_sentinel _ = false

-- The methods of `vaultclient.Client` that the provider calls.
pub record VaultClient (W : Type 0) : Type 0 where
  pub list_keys : Text → Exec W (List Text)
  pub get_secret : Text → Text → Exec W VaultSecret
  pub create_secret_key : Text → Text → Text → Exec W (Unit {0})

unfoldable pub creation_error : Error → Error
unfolding is_sentinel
creation_error e =
    if is_sentinel is_secret_key_exists e
    then wrap "Vault document already contains key" (sentinel secret_already_exists)
    else if is_sentinel is_cas_conflict_sentinel e
    then wrap "Vault document changed concurrently" (sentinel create_conflict)
    else wrap "create Vault secret" e

abbrev pub created_at : Text → Result (Unit {0}) → Result Secret
created_at path (ok _) =
    ok (record { version_id = []; path = path; full_path = []; description = []; web_url = [] })
created_at path (err e) = err (creation_error e)
created_at path panic = panic

-- The loop over the keys of one document.
unfoldable pub add_keys : Text → Text → List Text → Dict Secret → Result (Dict Secret)
unfolding contains join_path Dict.insert
add_keys full_path version_id [] secrets = ok secrets
add_keys full_path version_id (key ∷ keys) secrets =
    if key == []
    then err (message "secret contains empty key")
    else if contains b'/' key
    then err (message "secret has unsupported key containing /")
    else add_keys full_path version_id keys (
        Dict.insert (join_path full_path key)
          (record {
            version_id = version_id;
            path = join_path full_path key;
            full_path = [];
            description = [];
            web_url = [];
          })
          secrets)

-- What the scan has still to visit, has visited, and has found.
pub record Scan : Type 0 where
  pub paths_to_scan : List Text
  pub seen_paths : TextSet
  pub secrets : Dict Secret

module _ {W : Type 0} (client : VaultClient W) where
  -- `createSecretKey` of the client, with the outcome translated.
  abbrev pub create_key : Text → Text → Text → Exec W Secret
  create_key path key value w =
      let (r, w') = client.create_secret_key path key value w in (created_at path r, w')

  -- The checks of the request behind the path.
  abbrev pub create_at : CreateSecretRequest → Text → Exec W Secret
  create_at req path =
      if trim_space req.key == []
      then lift (invalid_request "key is required for Vault KV v2")
      else if contains b'/' (trim_space req.key)
      then lift (invalid_request "key must not contain /")
      else if not (req.description == [])
      then lift (invalid_request "description is not supported by Vault KV v2")
      else if not (valid_utf8 req.value)
      then lift (invalid_request "value must be valid UTF-8 for Vault KV v2")
      else create_key path (trim_space req.key) req.value

  unfoldable pub create_secret : CreateSecretRequest → Exec W Secret
  unfolding normalize_create_path trim_space contains valid_utf8 creation_error
  create_secret req = lift (normalize_create_path req.path) >>= create_at req

  abbrev payload_at : SecretPath → Exec W Text
  payload_at sp = context "read parent secret" (client.get_secret sp.path sp.key) >>= λ secret.
      pure secret.payload

  unfoldable pub get_secret_payload : Text → Exec W Text
  unfolding parse_secret_path
  get_secret_payload path =
      lift (wrapped "invalid secret path" (parse_secret_path path)) >>= payload_at

  -- The loop over the keys of one path: folders are queued, documents are read.
  unfoldable pub scan_keys : Text → List Text → Scan → Exec W Scan
  unfolding join_path has_suffix trim_suffix add_keys
  scan_keys path [] scan = pure scan
  scan_keys path (key ∷ keys) scan =
      if has_suffix b'/' key
      then scan_keys path keys (record scan {
        paths_to_scan = scan.paths_to_scan ++ join_path path (trim_suffix b'/' key) ∷ [];
      })
      else context "read secret" (client.get_secret (join_path path key) []) >>= λ secret.
          lift (add_keys (join_path path key) secret.version_id secret.keys scan.secrets)
          >>= λ secrets. scan_keys path keys (record scan { secrets = secrets })

  -- One pass of the loop over the queued paths.
  unfoldable pub scan_path : Text → Scan → Exec W Scan
  unfolding scan_keys Dict.insert
  scan_path path scan =
      if Dict.has path scan.seen_paths
      then pure scan
      else context "list keys" (client.list_keys path) >>= λ keys.
          scan_keys path keys (record scan { seen_paths = Dict.insert path tt scan.seen_paths })

  -- The loop of `ListSecrets`, with the passes that are left; `none` if they are used up.
  unfoldable pub scan_all : ℕ → Scan → Exec W (Option (Dict Secret))
  unfolding scan_path
  scan_all zero scan = pure none
  scan_all (suc fuel) scan = elim scan.paths_to_scan [
    | [] ↦ pure (some scan.secrets)
    | path ∷ rest ↦ scan_path path (record scan { paths_to_scan = rest }) >>= scan_all fuel
  ]

  -- `ListSecrets` with at most so many passes of its loop.
  unfoldable pub list_secrets : ℕ → Exec W (Option (Dict Secret))
  unfolding scan_all
  list_secrets fuel =
      scan_all fuel (record { paths_to_scan = [] ∷ []; seen_paths = []; secrets = [] })
