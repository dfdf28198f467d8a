-- ===== src/Providers/Vault/Api/Role.antt =====
-- internal/providers/vault/api/client_role.go: AppRole authentication as Vault is set up for it.
use cloud_secrets.Prelude.Dict.{Dict}
use cloud_secrets.Prelude.{
  ℕ, Bool, true, false, Option, none, some, List, [], ◌++◌, if◌then◌else◌, message, Result, ok, err,
  Text, codes, ◌==◌,
}
use cloud_secrets.Prelude.Exec.{Exec, lift, ◌>>=◌, context}
use cloud_secrets.Prelude.Dict
use cloud_secrets.Strings.Trim.{trim_space}
use cloud_secrets.Providers.Vault.Api.{Value, text}

pub record CreateAppRoleRequest : Type 0 where
  pub name : Text
  pub token_policies : List Text
  pub token_ttl : Text
  pub token_max_ttl : Text
  pub secret_id_ttl : Text
  pub secret_id_num_uses : ℕ

-- The calls of `vaultapi`: the types of the auth mounts, the mounting of one, and writes and reads
-- by path. A nil secret and a secret without data are `none`.
pub record RoleApi (W : Type 0) : Type 0 where
  pub list_auth : Exec W (Dict Text)
  pub enable_auth : Text → Text → Exec W (Unit {0})
  pub write_role : Text → CreateAppRoleRequest → Exec W (Unit {0})
  pub write_empty : Text → Exec W (Option (Dict Value))
  pub read : Text → Exec W (Option (Dict Value))

abbrev pub app_role_auth_path : Text
app_role_auth_path = codes "approle"

unfoldable pub app_role_path : Text → Text
unfolding trim_space
app_role_path name = codes "auth/" ++ app_role_auth_path ++ codes "/role/" ++ trim_space name

abbrev string_of : Option Value → Result Text
string_of none = err (message "vault response missing key")
string_of (some (text value)) =
    if value == [] then err (message "vault response has invalid key") else ok value
string_of (some _) = err (message "vault response has invalid key")

unfoldable pub read_vault_string : Option (Dict Value) → Text → Result Text
unfolding Dict.lookup
read_vault_string none key = err (message "vault returned empty response")
read_vault_string (some fields) key = string_of (Dict.lookup key fields)

abbrev mount_enabled : Option Text → Result Bool
mount_enabled none = ok false
mount_enabled (some type) =
    if type == app_role_auth_path
    then ok true
    else err (message "vault auth mount already exists with another type")

module _ {W : Type 0} (vault : RoleApi W) where
  unfoldable pub app_role_auth_enabled : Exec W Bool
  unfolding Dict.lookup
  app_role_auth_enabled = context "list Vault auth methods" vault.list_auth >>= λ mounts.
      lift (mount_enabled (Dict.lookup (app_role_auth_path ++ codes "/") mounts))

  unfoldable pub enable_app_role_auth : Exec W (Unit {0})
  enable_app_role_auth =
      context "enable Vault AppRole auth" (vault.enable_auth app_role_auth_path app_role_auth_path)

  unfoldable pub create_app_role : CreateAppRoleRequest → Exec W (Unit {0})
  unfolding app_role_path
  create_app_role req =
      context "configure Vault AppRole" (vault.write_role (app_role_path req.name) req)

  unfoldable pub read_app_role_role_id : Text → Exec W Text
  unfolding app_role_path read_vault_string
  read_app_role_role_id name = context "read Vault AppRole role_id" (
      vault.read (app_role_path name ++ codes "/role-id") >>= λ secret.
      lift (read_vault_string secret (codes "role_id")))

  unfoldable pub create_app_role_secret_id : Text → Exec W Text
  unfolding app_role_path read_vault_string
  create_app_role_secret_id name = context "generate Vault AppRole secret_id" (
      vault.write_empty (app_role_path name ++ codes "/secret-id") >>= λ secret.
      lift (read_vault_string secret (codes "secret_id")))
