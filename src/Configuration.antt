-- ===== src/Configuration.antt =====
-- internal/config: config.go and provider.go, and the choice of internal/providers/factory.go. The
-- foreign package `env` parses the environment; what it returns is an argument.
pub mod Loaded
use cloud_secrets.Prelude.{
  ℕ, Bool, Option, some, if◌then◌else◌, message, wrap, Result, ok, err, panic, Text, codes, ◌==◌,
}
use cloud_secrets.Prelude.Exec.{Exec, pure, fail, ◌>>=◌, wrapped}
use cloud_secrets.SecretName
use cloud_secrets.Providers.Contracts.{Provider}
use cloud_secrets.Providers.Metered.{Metered, with_metrics}
use cloud_secrets.Providers.Cloudru.{validate_config}
use cloud_secrets.Providers.Cloudru
use cloud_secrets.Providers.Vault.Settings.{AuthConfig, validate_auth}

abbrev pub provider_name_cloudru : Text
provider_name_cloudru = codes "cloudru"

abbrev pub provider_name_vault : Text
provider_name_vault = codes "vault"

-- ProviderName.Validate
unfoldable pub validate_provider_name : Text → Result (Unit {0})
validate_provider_name t =
    if t == provider_name_cloudru
    then ok tt
    else if t == provider_name_vault
    then ok tt
    else err (message "unsupported CS_PROVIDER")

-- config.Config; of the provider's own configuration the one that was chosen is there.
pub record Settings : Type 0 where
  pub cloudru : Option Cloudru.Config
  pub vault : Option AuthConfig
  pub provider : Text
  pub refresh_interval : ℕ
  pub grpc_addr : Text
  pub cleanup_orphaned : Bool
  pub folder_delimiter : Text

abbrev pub with_cloudru : Settings → Cloudru.Config → Result (Unit {0}) → Result Settings
with_cloudru cfg c (ok _) = ok (record cfg { cloudru = some c })
with_cloudru cfg c (err e) = err (wrap "validate cloudru config" e)
with_cloudru cfg c panic = panic

abbrev pub with_vault : Settings → Result AuthConfig → Result Settings
with_vault cfg (ok c) = ok (record cfg { vault = some c })
with_vault cfg (err e) = err (wrap "validate vault config" e)
with_vault cfg panic = panic

-- `loadProviderCloudruConfig` and `loadProviderVaultConfig` behind the parse
unfoldable pub load_cloudru : Settings → Result Cloudru.Config → Result Settings
unfolding validate_config
load_cloudru cfg (ok c) = with_cloudru cfg c (validate_config c)
load_cloudru cfg (err e) = err (wrap "parse cloudru config" e)
load_cloudru cfg panic = panic

unfoldable pub load_vault : Settings → Result AuthConfig → Result Settings
unfolding validate_auth
load_vault cfg (ok c) = with_vault cfg (validate_auth c)
load_vault cfg (err e) = err (wrap "parse vault config" e)
load_vault cfg panic = panic

module _ (parse_cloudru : Result Cloudru.Config) (parse_vault : Result AuthConfig) where
  unfoldable pub load_provider_config : Settings → Result Settings
  unfolding load_cloudru load_vault
  load_provider_config cfg =
      if cfg.provider == provider_name_cloudru
      then load_cloudru cfg parse_cloudru
      else if cfg.provider == provider_name_vault
      then load_vault cfg parse_vault
      else err (message "unsupported CS_PROVIDER")

  abbrev pub load_valid : Settings → Result (Unit {0}) → Result Settings
  load_valid cfg (ok _) = wrapped "load provider config" (load_provider_config cfg)
  load_valid cfg (err e) = err (wrap "validate CS_SECRET_NAME_FOLDER_DELIMITER" e)
  load_valid cfg panic = panic

  -- Load
  unfoldable pub load : Result Settings → Result Settings
  unfolding load_provider_config SecretName.validate
  load (ok cfg) = load_valid cfg (SecretName.validate cfg.folder_delimiter)
  load (err e) = err (wrap "read env" e)
  load panic = panic

abbrev metered_provider : {W : Type 0} → Provider W → Exec W (Provider (Metered W))
metered_provider provider = pure (with_metrics provider)

-- providers.Create, over the constructors of the providers
unfoldable pub create :
    {W : Type 0} → Text → Exec W (Provider W) → Exec W (Provider W) → Exec W (Provider (Metered W))
unfolding with_metrics
create name new_cloudru new_vault =
    if name == provider_name_cloudru
    then new_cloudru >>= metered_provider
    else if name == provider_name_vault
    then new_vault >>= metered_provider
    else fail (message "unsupported secrets provider")
