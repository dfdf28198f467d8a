-- ===== src/Tests/Service.antt =====
-- The service over the provider of Vault, with a KV engine in memory.
use cloud_secrets.Prelude.{◌≡◌, refl, none, [], Error, ok, codes, Text-discrete}
use cloud_secrets.Prelude.Exec.{actions}
use cloud_secrets.Api.{CreateSecretResponse, reply, Reply, Syncer}
use cloud_secrets.Api
use cloud_secrets.Providers.Grpc.{code_unknown, Code}
use cloud_secrets.Providers.Contracts.{CreateSecretRequest}
use cloud_secrets.Providers.Metered.{Metered, with_metrics}
use cloud_secrets.Providers.Vault
use cloud_secrets.Providers.Vault.Api as KvApi
use cloud_secrets.Providers.Vault.Api.Role.{RoleApi}
use cloud_secrets.Providers.Vault.Api.Write.{AddsKey}
use cloud_secrets.Providers.Vault.Connect.{vault_provider, http_client}
use cloud_secrets.Service.{answer, create_adds}
use cloud_secrets.Sync.Payload.{no_result}
use cloud_secrets.Sync.Pipeline.{returned}
use cloud_secrets.Strings.Trim.{trim_slashes, trim_space}
use cloud_secrets.Tests.Vault.{Versions, vault, document, vault-IsVersioned, one_version}

abbrev no_code : Error → Code
no_code e = code_unknown

abbrev roles : RoleApi Versions
roles = record {
  list_auth = λ w. (ok [], w);
  enable_auth = λ path kind w. (ok tt, w);
  write_role = λ path req w. (ok tt, w);
  write_empty = λ path w. (ok none, w);
  read = λ path w. (ok none, w);
}

abbrev syncer : Syncer (Metered Versions)
syncer = record {
  sync = λ trigger w. (returned no_result none, w);
  last_sync_at = λ w. none;
  next_sync_at = λ w. (ok none, w);
}

abbrev request : CreateSecretRequest
request = record {
  path = codes "/app/db";
  value = codes "secret";
  key = codes "password";
  description = [];
}

abbrev before_request : Metered Versions
before_request = record { requests = []; world = one_version }

abbrev response : CreateSecretResponse
response = record { path = codes "app/db"; manager_url = none }

abbrev answered : Reply CreateSecretResponse × Metered Versions
answered = answer no_code (codes "v") vault roles (codes "kv") 9 syncer request before_request

answered_created : answered.0 ≡ reply response
unfolding Api.create vault_provider http_client Text-discrete actions with_metrics
    Vault.create_secret KvApi.create_secret_key
answered_created = refl

create_adds_example :
    (before : Versions) × AddsKey vault document
      (codes "app/db")
      (codes "password")
      (codes "secret")
      before
      answered.1.world
unfolding trim_slashes trim_space
create_adds_example =
    create_adds no_code (codes "v") vault roles (codes "kv") 9 syncer document vault-IsVersioned
      request before_request response answered_created
