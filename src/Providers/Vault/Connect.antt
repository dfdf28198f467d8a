-- ===== src/Providers/Vault/Connect.antt =====
-- The constructors of internal/providers/vault: NewHttpClient of api/client.go, which chooses the
-- authentication and pings, and NewProvider of provider.go. The clients of `vaultapi` are foreign.
use cloud_secrets.Prelude.{
  ℕ, not, Option, none, some, [], if◌then◌else◌, wrap, Result, ok, err, panic, Text, codes, ◌==◌,
}
use cloud_secrets.Prelude.Exec.{Exec, pure, crash, lift, ◌>>=◌, ◌>>◌, context}
use cloud_secrets.Strings.Trim.{trim_slashes}
use cloud_secrets.Providers.Contracts.{Provider, ProviderDefinition}
use cloud_secrets.Providers.Vault
use cloud_secrets.Providers.Vault.{VaultClient}
use cloud_secrets.Providers.Vault.Settings.{AuthConfig}
use cloud_secrets.Providers.Vault.Api as KvApi
use cloud_secrets.Providers.Vault.Api.{VaultApi}
use cloud_secrets.Providers.Vault.Api.Role
use cloud_secrets.Providers.Vault.Api.Role.{RoleApi}
use cloud_secrets.Providers.Vault.Api.Auth.{Client, Authenticated, SecretAuth, authenticated_client}

-- HttpClient: the operations over the foreign client, whose KV engine is that of the mount path
unfoldable pub http_client : {W : Type 0} → VaultApi W → RoleApi W → Text → Client W
unfolding trim_slashes
http_client vault roles mount_path = record {
  list_keys = KvApi.list_keys vault (trim_slashes mount_path);
  get_secret = KvApi.get_secret vault;
  create_secret = KvApi.create_secret vault;
  create_secret_key = KvApi.create_secret_key vault;
  delete_secret = KvApi.delete_secret vault;
  create_acl_policy = KvApi.create_acl_policy vault;
  create_token = KvApi.create_token vault;
  app_role_auth_enabled = Role.app_role_auth_enabled roles;
  enable_app_role_auth = Role.enable_app_role_auth roles;
  create_app_role = Role.create_app_role roles;
  read_app_role_role_id = Role.read_app_role_role_id roles;
  create_app_role_secret_id = Role.create_app_role_secret_id roles;
}

-- What is foreign in the construction: `vaultapi.NewClient` for the address of the configuration,
-- the calls of that client, with the KV engine of a mount path, `SetToken`, `approle.NewAppRoleAuth`
-- with its `Login`, and the clock.
pub record Connection (W : Type 0) : Type 0 where
  pub new_client : Exec W (Unit {0})
  pub vault : Text → VaultApi W
  pub roles : RoleApi W
  pub set_token : Text → W → W
  pub new_app_role_auth : Text → Text → Result (Exec W (Option SecretAuth))
  pub now : W → ℕ

-- A call beside the state of the authentication, which it leaves alone.
abbrev pub beside : {W A : Type 0} → Exec W A → Exec (Authenticated W) A
beside m a = let (r, w) = m a.world in (r, record a { world = w })

-- The client with no authenticator.
unfoldable pub unauthenticated : {W : Type 0} → Client W → Client (Authenticated W)
unauthenticated client = record {
  list_keys = λ path. beside (client.list_keys path);
  get_secret = λ path key. beside (client.get_secret path key);
  create_secret = λ path fields. beside (client.create_secret path fields);
  create_secret_key = λ path key value. beside (client.create_secret_key path key value);
  delete_secret = λ path. beside (client.delete_secret path);
  create_acl_policy = λ req. beside (client.create_acl_policy req);
  create_token = λ policies. beside (client.create_token policies);
  app_role_auth_enabled = beside client.app_role_auth_enabled;
  enable_app_role_auth = beside client.enable_app_role_auth;
  create_app_role = λ req. beside (client.create_app_role req);
  read_app_role_role_id = λ name. beside (client.read_app_role_role_id name);
  create_app_role_secret_id = λ name. beside (client.create_app_role_secret_id name);
}

module _ {W : Type 0} (conn : Connection W) (mount_path : Text) (auth : AuthConfig) where
  abbrev client : Client W
  client = http_client (conn.vault mount_path) conn.roles mount_path

  abbrev decorated : Result (Exec W (Option SecretAuth)) → Result (Client (Authenticated W))
  decorated (ok login) = ok (authenticated_client login conn.set_token conn.now client)
  decorated (err e) = err (wrap "create app role authenticator" (wrap "create auth" e))
  decorated panic = panic

  abbrev with_token : Exec (Authenticated W) (Client (Authenticated W))
  with_token a =
      (ok (unauthenticated client), record a { world = conn.set_token auth.token a.world })

  -- `clientBuild`: a token is set once and for all, an AppRole logs in before the calls.
  unfoldable pub client_build : Exec (Authenticated W) (Client (Authenticated W))
  unfolding unauthenticated authenticated_client http_client
  client_build =
      context "create vault client" (beside conn.new_client)
      >> (if not (auth.token == [])
          then with_token
          else lift (decorated (conn.new_app_role_auth auth.role_id auth.secret_id)))

  -- NewHttpClient
  unfoldable pub new_http_client : Exec (Authenticated W) (Client (Authenticated W))
  unfolding client_build
  new_http_client =
      client_build >>= λ built. context "ping vault" (built.list_keys (codes "/")) >> pure built

-- The methods of the client that the provider calls.
abbrev pub for_provider : {W : Type 0} → Client W → VaultClient W
for_provider client = record {
  list_keys = client.list_keys;
  get_secret = client.get_secret;
  create_secret_key = client.create_secret_key;
}

-- Definition
abbrev pub vault_definition : ProviderDefinition
vault_definition = record {
  name = codes "HashiCorp Vault";
  links = record { doc = codes "https://developer.hashicorp.com/vault/docs"; manager = [] };
}

-- A scan that has used up its passes stands for one that goes on.
abbrev scanned : {W A : Type 0} → Option A → Exec W A
scanned none = crash
scanned (some secrets) = pure secrets

-- The provider over a client, with a bound on the passes of a scan.
unfoldable pub vault_provider : {W : Type 0} → ℕ → VaultClient W → Provider W
unfolding Vault.create_secret Vault.get_secret_payload Vault.list_secrets
vault_provider fuel client = record {
  definition = vault_definition;
  create_secret = Vault.create_secret client;
  get_secret_payload = Vault.get_secret_payload client;
  list_secrets = Vault.list_secrets client fuel >>= scanned;
}

-- NewProvider
unfoldable pub new_provider :
    {W : Type 0}
    → Connection W
    → ℕ
    → Text
    → AuthConfig
    → Exec (Authenticated W) (Provider (Authenticated W))
unfolding trim_slashes new_http_client vault_provider
new_provider conn fuel mount_path auth =
    context "create client" (new_http_client conn (trim_slashes mount_path) auth) >>= λ client.
    pure (vault_provider fuel (for_provider client))
