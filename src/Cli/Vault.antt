-- ===== src/Cli/Vault.antt =====
-- internal/application/cli/vault.go: the preparation of Swarm and Vault. Printing is left out.
pub mod Paths
use cloud_secrets.Prelude.{
  ℕ, zero, suc, String, Bool, not, ◌&&◌, ◌||◌, List, [], ◌∷◌, ◌++◌, if◌then◌else◌, message, Result,
  ok, err, Text, codes, ◌==◌,
}
use cloud_secrets.Prelude.Exec.{Exec, pure, fail, lift, ◌>>=◌, ◌>>◌, context}
use cloud_secrets.Strings.{has_prefix}
use cloud_secrets.Strings.Trim.{trim_slashes, trim_space}
use cloud_secrets.Strings.Search.{to_lower}
use cloud_secrets.Engine
use cloud_secrets.Cli.Requests.{
  new_cloud_secrets_acl_policy_request, new_cloud_secrets_app_role_request,
}
use cloud_secrets.Providers.Vault.Api.Auth

-- url.URL, as far as it is looked at
pub record Url : Type 0 where
  pub scheme : Text
  pub host : Text
  pub whole : Text

-- What the command asks of its surroundings: the arguments, the environment, the questions to the
-- user with their answers, `url.Parse`, and the factory of Vault clients with a static token. An
-- empty answer is refused by the questions that want one.
pub record Terminal (W : Type 0) : Type 0 where
  pub argument : Text → Text
  pub interactive : Bool
  pub lookup_env : Text → Text
  pub ask : Text → Exec W Text
  pub ask_hidden : Exec W Text
  pub select : List Text → Exec W ℕ
  pub confirm : Exec W Bool
  pub parse_url : Text → Result Url
  pub new_vault_client : Text → Url → Text → Exec W (Auth.Client W)

pub data AuthMethod : Type 0 where
  static approle : AuthMethod

abbrev pub vault_default_mount_path : Text
vault_default_mount_path = codes "prod"

abbrev pub vault_policy_name : Text
vault_policy_name = codes "cloud-secrets"

abbrev pub vault_app_role_name : Text
vault_app_role_name = codes "cloud-secrets"

abbrev pub vault_static_token_secret_name : Text
vault_static_token_secret_name = codes "cloud-secrets-vault-token"

abbrev pub vault_app_role_role_id_secret_name : Text
vault_app_role_role_id_secret_name = codes "cloud-secrets-vault-approle-role-id"

abbrev pub vault_app_role_secret_id_secret_name : Text
vault_app_role_secret_id_secret_name = codes "cloud-secrets-vault-approle-secret-id"

-- AuthMethod.Title
unfoldable pub title : AuthMethod → Text
title static = codes "Static Token"
title approle = codes "AppRole"

-- `Execution.Ask` and `Execution.AskPassword`, which refuse an empty answer
abbrev pub answered : {W : Type 0} → String → Text → Exec W Text
answered w answer = if answer == [] then fail (message w) else pure answer

abbrev pub named_method : Text → Result AuthMethod
named_method name =
    if to_lower name == codes "static"
    then ok static
    else if to_lower name == codes "approle"
    then ok approle
    else err (message "given unknown auth method")

abbrev pub method_at : ℕ → Result AuthMethod
method_at zero = ok static
method_at (suc zero) = ok approle
method_at (suc (suc n)) = err (message "invalid auth method")

module _ {W : Type 0} (docker : Engine.Client W) (exec : Terminal W) where
  unfoldable pub select_auth_method : Exec W AuthMethod
  unfolding to_lower title
  select_auth_method =
      if not (exec.argument (codes "auth-method") == [])
      then lift (named_method (exec.argument (codes "auth-method")))
      else if not exec.interactive
      then fail (message "auth method not provided in command arguments")
      else exec.select (title static ∷ title approle ∷ []) >>= λ index. lift (method_at index)

  abbrev creating : Text → Text → Text → Engine.CreatingSecret
  creating path value external_path = record {
    path = path;
    value = value;
    description = [];
    external_path = external_path;
    external_version_id = [];
  }

  -- A question that is put to an interactive user alone.
  abbrev confirmed : Exec W (Unit {0})
  confirmed =
      if not exec.interactive
      then pure tt
      else exec.confirm >>= λ yes_given.
          if yes_given then pure tt else fail (message "operation not confirmed")

  unfoldable pub init_vault_token_static : Exec W (Unit {0})
  init_vault_token_static = do
    answer ← exec.ask_hidden
    token ← answered "password not provided" answer
    confirmed
    context "create secret in Docker Swarm" (
        docker.create_secret
          (creating vault_static_token_secret_name token (codes "cloud-secrets/vault-token")))

  -- The argument, or else the variable of the environment, both trimmed.
  abbrev given : Text → Text → Text
  given name variable =
      if trim_space (exec.argument name) == []
      then trim_space (exec.lookup_env variable)
      else trim_space (exec.argument name)

  abbrev asked_if : Text → Text → Exec W Text
  asked_if value default =
      if value == [] && exec.interactive
      then exec.ask default >>= answered "answer not provided"
      else pure value

  abbrev pub with_scheme : Text → Text
  with_scheme addr =
      if not (has_prefix addr (codes "http://")) && not (has_prefix addr (codes "https://"))
      then codes "http://" ++ addr
      else addr

  abbrev checked_url : Url → Result Url
  checked_url url =
      if url.scheme == [] || url.host == []
      then err (message "vault address must include scheme and host")
      else ok url

  abbrev parsed : Text → Exec W Url
  parsed addr =
      if addr == []
      then fail (message "vault address not provided in command arguments or VAULT_ADDR")
      else context "parse Vault address" (lift (exec.parse_url (with_scheme addr))) >>= λ url.
          lift (checked_url url)

  unfoldable pub vault_addr : Exec W Url
  unfolding trim_space has_prefix
  vault_addr = asked_if (given (codes "vault-addr") (codes "VAULT_ADDR")) [] >>= parsed

  abbrev pub cleaned : Text → Result Text
  cleaned mount_path =
      if trim_slashes (if mount_path == [] then vault_default_mount_path else mount_path) == []
      then err (message "vault KV v2 mount path is empty")
      else ok (trim_slashes (if mount_path == [] then vault_default_mount_path else mount_path))

  unfoldable pub vault_mount_path : Exec W Text
  unfolding trim_space trim_slashes
  vault_mount_path =
      asked_if (given (codes "vault-mount-path") (codes "VAULT_MOUNT_PATH"))
        vault_default_mount_path
      >>= λ mount_path. lift (cleaned mount_path)

  unfoldable pub vault_setup_token : Exec W Text
  unfolding trim_space
  vault_setup_token =
      if not exec.interactive
      then if trim_space (exec.lookup_env (codes "VAULT_TOKEN")) == []
        then fail (message "vault setup token not provided in VAULT_TOKEN")
        else pure (trim_space (exec.lookup_env (codes "VAULT_TOKEN")))
      else exec.ask_hidden >>= answered "password not provided"

  unfoldable pub create_vault_app_role_docker_secret : Text → Text → Exec W (Unit {0})
  create_vault_app_role_docker_secret name value =
      context "create Docker Swarm secret"
        (docker.create_secret (creating name value (codes "cloud-secrets/" ++ name)))

  unfoldable pub ensure_app_role_auth : Auth.Client W → Exec W (Unit {0})
  ensure_app_role_auth client =
      context "check Vault AppRole auth method" client.app_role_auth_enabled >>= λ enabled.
      if enabled then pure tt else confirmed >> client.enable_app_role_auth

  unfoldable pub init_vault_app_role : Exec W (Unit {0})
  unfolding vault_addr vault_mount_path vault_setup_token ensure_app_role_auth
      new_cloud_secrets_acl_policy_request new_cloud_secrets_app_role_request
      create_vault_app_role_docker_secret
  init_vault_app_role = do
    addr ← vault_addr
    mount_path ← vault_mount_path
    token ← vault_setup_token
    client ← exec.new_vault_client mount_path addr token
    ensure_app_role_auth client
    client.create_acl_policy (new_cloud_secrets_acl_policy_request vault_policy_name mount_path)
    client.create_app_role
        (new_cloud_secrets_app_role_request vault_app_role_name vault_policy_name)
    role_id ← client.read_app_role_role_id vault_app_role_name
    secret_id ← client.create_app_role_secret_id vault_app_role_name
    create_vault_app_role_docker_secret vault_app_role_role_id_secret_name role_id
    create_vault_app_role_docker_secret vault_app_role_secret_id_secret_name secret_id

  abbrev run_method : AuthMethod → Exec W (Unit {0})
  run_method static = init_vault_token_static
  run_method approle = init_vault_app_role

  -- VaultCommand.Run
  unfoldable pub run_vault : Exec W (Unit {0})
  unfolding select_auth_method init_vault_token_static init_vault_app_role
  run_vault = select_auth_method >>= run_method
