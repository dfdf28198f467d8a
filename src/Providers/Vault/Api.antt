-- ===== src/Providers/Vault/Api.antt =====
-- internal/providers/vault/api: client.go and client_write.go, the client of Vault's KV v2 engine.
-- The foreign package `vaultapi` is an argument.
use cloud_secrets.Strings.Sort.{sort_strings}
use cloud_secrets.Prelude.{
  ℕ, zero, suc, Bool, false, not, ◌&&◌, Option, none, some, List, [], ◌∷◌, ◌++◌, eqb, if◌then◌else◌,
  length, any, Error, message, sentinel, wrap, Result, ok, err, panic, Text, codes, ◌==◌,
  cas_conflict, secret_key_exists,
}
use cloud_secrets.Prelude.Exec.{Exec, pure, fail, crash, lift, ◌>>=◌, ◌>>◌, context}
use cloud_secrets.Prelude.Dict.{Dict}
pub mod Write
pub mod Role
pub mod Auth
use cloud_secrets.Prelude.Dict
use cloud_secrets.Strings.Trim.{trim_slashes, trim_space}
use cloud_secrets.Strings.Search.{contains_text, to_lower}
use cloud_secrets.Strings.Decimal.{itoa}

-- api.Secret
pub record VaultSecret : Type 0 where
  pub version_id : Text
  pub keys : List Text
  pub payload : Text

-- A decoded JSON value: `string`, `[]byte`, `json.Number`, or another one by a number.
pub data Value : Type 0 where
  text bytes json_number : Text → Value
  other : ℕ → Value

-- vaultapi.KVSecret: the data, and the version if the metadata is there
pub record KvSecret : Type 0 where
  pub fields : Dict Value
  pub version : Option ℕ

-- vaultapi.ResponseError
pub record ResponseError : Type 0 where
  pub status_code : ℕ
  pub errors : List Text

-- The payload of a listing under `keys`: absent, a list of values, a list of strings, or another.
pub data Listing : Type 0 where
  no_keys : Listing
  values : List Value → Listing
  strings : List Text → Listing
  unexpected : Listing

pub record CreateAclPolicyRequest : Type 0 where
  pub name : Text
  pub rules : Text

-- The calls of `vaultapi`: those of `KVv2`, with the version of a check-and-set write, and those of
-- the logical and system API. `is_not_found` is `errors.Is` at `ErrSecretNotFound`, `as_response`
-- is `errors.As` at `*ResponseError`, `marshal` is `json.Marshal`.
pub record VaultApi (W : Type 0) : Type 0 where
  pub get : Text → Exec W KvSecret
  pub put : Text → Dict Value → Option ℕ → Exec W KvSecret
  pub get_metadata : Text → Exec W ℕ
  pub delete_metadata : Text → Exec W (Unit {0})
  pub list : Text → Exec W Listing
  pub put_policy : Text → Text → Exec W (Unit {0})
  pub create_token : List Text → Exec W (Option Text)
  pub is_not_found : Error → Bool
  pub as_response : Error → Option ResponseError
  pub marshal : Value → Result Text

abbrev mentions_check_and_set : Text → Bool
mentions_check_and_set line = contains_text (codes "check-and-set") (to_lower line)

abbrev pub is_cas_response : Option ResponseError → Bool
is_cas_response none = false
is_cas_response (some response) =
    eqb response.status_code 400 && any mentions_check_and_set response.errors

unfoldable pub all_strings : List Value → Result (List Text)
all_strings [] = ok []
all_strings (text key ∷ rest) = elim (all_strings rest) [
  | ok keys ↦ ok (key ∷ keys)
  | err e ↦ err e
  | panic ↦ panic
]
all_strings (_ ∷ rest) = err (message "unexpected key type")

abbrev listed_keys : Listing → Result (List Text)
listed_keys no_keys = ok []
listed_keys (values keys) = all_strings keys
listed_keys (strings keys) = ok keys
listed_keys unexpected = err (message "unexpected keys payload type")

module _ {W : Type 0} (vault : VaultApi W) where
  unfoldable pub is_cas_conflict : Error → Bool
  unfolding contains_text to_lower
  is_cas_conflict e = is_cas_response (vault.as_response e)

  unfoldable pub to_bytes : Value → Result Text
  to_bytes (text typed) = ok typed
  to_bytes (bytes typed) = ok typed
  to_bytes (json_number typed) = ok typed
  to_bytes (other n) = vault.marshal (other n)

  -- `versionID`: the version of the metadata, which is read anew if the secret has none.
  abbrev pub version_of_metadata : Text → Option ℕ → Exec W Text
  version_of_metadata path (some version) = pure (itoa version)
  version_of_metadata path none =
      context "read metadata" (vault.get_metadata path) >>= λ version. pure (itoa version)

  unfoldable pub version_id : Text → KvSecret → Exec W Text
  version_id path secret = version_of_metadata path secret.version

  unfoldable pub metadata_path : Text → Text → Text
  unfolding trim_slashes
  metadata_path mount_path secret_path =
      if trim_slashes secret_path == []
      then mount_path ++ codes "/metadata"
      else mount_path ++ codes "/metadata/" ++ trim_slashes secret_path

  unfoldable pub list_keys : Text → Text → Exec W (List Text)
  unfolding metadata_path all_strings
  list_keys mount_path path =
      vault.list (metadata_path mount_path path) >>= λ listing. lift (listed_keys listing)

  abbrev payload_at : Text → Option Value → Exec W Text
  payload_at key none = fail (message "secret key not found")
  payload_at key (some value) = context "convert payload" (lift (to_bytes value))

  -- The payload is read for a key alone.
  abbrev payload_of : Text → Dict Value → VaultSecret → Exec W VaultSecret
  payload_of key fields out =
      if key == []
      then pure out
      else payload_at key (Dict.lookup key fields) >>= λ payload.
          pure (record out { payload = payload })

  unfoldable pub get_secret : Text → Text → Exec W VaultSecret
  unfolding trim_slashes version_id sort_strings to_bytes Dict.keys Dict.lookup
  get_secret path key = do
    secret ← context "read secret" (vault.get (trim_slashes path))
    version ← version_id (trim_slashes path) secret
    payload_of key secret.fields (record {
      version_id = version;
      keys = sort_strings (Dict.keys secret.fields);
      payload = [];
    })

  unfoldable pub create_secret : Text → Dict Value → Exec W VaultSecret
  unfolding trim_slashes version_id sort_strings Dict.keys
  create_secret path fields =
      if trim_slashes path == []
      then fail (message "secret path is empty")
      else if eqb (length fields) 0
      then fail (message "secret data is empty")
      else do
        secret ← context "write secret" (vault.put (trim_slashes path) fields none)
        version ← version_id (trim_slashes path) secret
        pure (record { version_id = version; keys = sort_strings (Dict.keys fields); payload = [] })

  abbrev with_key : Text → Text → Dict Value → Option ℕ → Result (Dict Value × ℕ)
  with_key key value fields none = err (message "secret has no version metadata")
  with_key key value fields (some version) = ok (Dict.insert key (text value) fields, version)

  -- `secretDataForCreate` behind the call: what is to be written, and over which version.
  abbrev pub data_of_read : Text → Text → Result KvSecret → Result (Dict Value × ℕ)
  data_of_read key value (ok secret) =
      if Dict.has key secret.fields
      then err (wrap "secret key" (sentinel secret_key_exists))
      else with_key key value secret.fields secret.version
  data_of_read key value (err e) =
      if vault.is_not_found e
      then ok ((key, text value) ∷ [], 0)
      else err (wrap "read secret before create" e)
  data_of_read key value panic = panic

  unfoldable pub secret_data_for_create : Text → Text → Text → Exec W (Dict Value × ℕ)
  unfolding Dict.has Dict.insert
  secret_data_for_create path key value w =
      let (r, w') = vault.get path w in (data_of_read key value r, w')

  -- What follows a write: success, the next attempt after a conflict, or the error.
  abbrev pub after_put : Exec W (Unit {0}) → Result KvSecret → Exec W (Unit {0})
  after_put next (ok _) = pure tt
  after_put next (err e) =
      if not (is_cas_conflict e) then fail (wrap "create secret key" e) else next
  after_put next panic = crash

  -- The loop, with the attempts that are left.
  unfoldable pub attempt : ℕ → Text → Text → Text → Exec W (Unit {0})
  unfolding secret_data_for_create is_cas_conflict
  attempt zero path key value = fail (wrap "for secret key" (sentinel cas_conflict))
  attempt (suc left) path key value = secret_data_for_create path key value >>= λ (fields, cas).
      λ w.
        let (r, w') = vault.put path fields (some cas) w in
        after_put (attempt left path key value) r w'

  abbrev pub create_secret_key_attempts : ℕ
  create_secret_key_attempts = 3

  unfoldable pub create_secret_key : Text → Text → Text → Exec W (Unit {0})
  unfolding attempt trim_slashes
  create_secret_key path key value =
      if trim_slashes path == []
      then fail (message "secret path is empty")
      else if key == []
      then fail (message "secret key is empty")
      else attempt create_secret_key_attempts (trim_slashes path) key value

  unfoldable pub delete_secret : Text → Exec W (Unit {0})
  unfolding trim_slashes
  delete_secret path =
      if trim_slashes path == []
      then fail (message "secret path is empty")
      else context "delete secret metadata" (vault.delete_metadata (trim_slashes path))

  unfoldable pub create_acl_policy : CreateAclPolicyRequest → Exec W (Unit {0})
  unfolding trim_space
  create_acl_policy req =
      if trim_space req.name == []
      then fail (message "policy name is empty")
      else if trim_space req.rules == []
      then fail (message "policy rules are empty")
      else context "create ACL policy"
          (vault.put_policy (trim_space req.name) (trim_space req.rules))

  abbrev token_returned : Option Text → Exec W Text
  token_returned none = fail (message "create Vault token: Vault returned empty token")
  token_returned (some token) =
      if token == []
      then fail (message "create Vault token: Vault returned empty token")
      else pure token

  unfoldable pub create_token : List Text → Exec W Text
  create_token policies =
      context "create Vault token" (vault.create_token policies) >>= token_returned
