-- ===== src/Tests/Cli.antt =====
-- The command line without a user, and the configuration of Vault.
use cloud_secrets.Configuration.Loaded.{IsLoaded, load-IsLoaded}
use cloud_secrets.Configuration.{Settings, load}
use cloud_secrets.Prelude.{
  ◌≡◌, refl, true, false, none, some, [], if◌then◌else◌, message, ok, err, Text, codes, ◌==◌,
  Text-discrete,
}
use cloud_secrets.Prelude.Exec.{actions}
use cloud_secrets.Cli.Vault.{Terminal, vault_mount_path}
use cloud_secrets.Tests.Swarm.{World, client, world}
use cloud_secrets.Providers.Vault.Settings.{AuthConfig}

abbrev arguments : Text → Text
arguments name = if name == codes "vault-mount-path" then codes " /kv/ " else []

abbrev terminal : Terminal World
terminal = record {
  argument = arguments;
  interactive = false;
  lookup_env = λ name. [];
  ask = λ default w. (ok default, w);
  ask_hidden = λ w. (ok [], w);
  select = λ choices w. (ok 0, w);
  confirm = λ w. (ok true, w);
  parse_url = λ url. err (message "parse");
  new_vault_client = λ mount_path url token w. (err (message "no Vault"), w);
}

mount_path : (vault_mount_path client terminal world).0 ≡ ok (codes "kv")
unfolding vault_mount_path Text-discrete actions
mount_path = refl

abbrev token_only : AuthConfig
token_only = record { token = codes " token "; role_id = []; secret_id = [] }

abbrev environment : Settings
environment = record {
  cloudru = none;
  vault = none;
  provider = codes "vault";
  refresh_interval = 300000000000;
  grpc_addr = [];
  cleanup_orphaned = true;
  folder_delimiter = codes "_";
}

abbrev vault_settings : Settings
vault_settings = record environment { vault = some (record token_only { token = codes "token" }) }

loaded : load (err (message "no CLOUDRU")) (ok token_only) (ok environment) ≡ ok vault_settings
unfolding load Text-discrete
loaded = refl

load-IsLoaded_example : IsLoaded vault_settings
load-IsLoaded_example =
    load-IsLoaded (err (message "no CLOUDRU")) (ok token_only) (ok environment) vault_settings
      loaded
