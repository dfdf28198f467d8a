-- ===== src/Configuration/Loaded.antt =====
-- What a configuration that was loaded is good for.
use cloud_secrets.Configuration.{
  Settings, load, load_cloudru, load_provider_config, load_vault, load_valid,
  validate_provider_name, with_cloudru, with_vault, provider_name_cloudru, provider_name_vault,
}
use cloud_secrets.Prelude.{◌≡◌, refl, inl, inr, arith, Bool-cases, Result, ok, err, panic, ◌==◌}
use cloud_secrets.Prelude.Exec.{wrapped}
use cloud_secrets.SecretName
use cloud_secrets.Providers.Cloudru.{validate_config}
use cloud_secrets.Providers.Cloudru
use cloud_secrets.Providers.Vault.Settings.{AuthConfig, validate_auth}

-- What was loaded kept the values that the rest of the program reads.
record IsSame (cfg cfg' : Settings) : Type 0 where
  pub delimiter : cfg'.folder_delimiter ≡ cfg.folder_delimiter
  pub provider : cfg'.provider ≡ cfg.provider

load_cloudru-IsSame :
    (cfg cfg' : Settings) (r : Result Cloudru.Config)
    → load_cloudru cfg r ≡ ok cfg'
    → IsSame cfg cfg'
unfolding load_cloudru
load_cloudru-IsSame cfg cfg' (ok c) h = with_cloudru-IsSame (validate_config c) h
  where
    with_cloudru-IsSame : (v : Result (Unit {0})) → with_cloudru cfg c v ≡ ok cfg' → IsSame cfg cfg'
    with_cloudru-IsSame (ok _) e = record { delimiter = ground arith; provider = ground arith }
    with_cloudru-IsSame (err x) e = cc
    with_cloudru-IsSame panic e = cc
load_cloudru-IsSame cfg cfg' (err e) h = cc
load_cloudru-IsSame cfg cfg' panic h = cc

load_vault-IsSame :
    (cfg cfg' : Settings) (r : Result AuthConfig) → load_vault cfg r ≡ ok cfg' → IsSame cfg cfg'
unfolding load_vault
load_vault-IsSame cfg cfg' (ok c) h = with_vault-IsSame (validate_auth c) h
  where
    with_vault-IsSame : (v : Result AuthConfig) → with_vault cfg v ≡ ok cfg' → IsSame cfg cfg'
    with_vault-IsSame (ok _) e = record { delimiter = ground arith; provider = ground arith }
    with_vault-IsSame (err x) e = cc
    with_vault-IsSame panic e = cc
load_vault-IsSame cfg cfg' (err e) h = cc
load_vault-IsSame cfg cfg' panic h = cc

-- A configuration that the program runs with: a delimiter that makes valid names, and a provider
-- that there is.
pub record IsLoaded (cfg : Settings) : Type 0 where
  pub delimiter : SecretName.validate cfg.folder_delimiter ≡ ok tt
  pub provider : validate_provider_name cfg.provider ≡ ok tt

module _ (parse_cloudru : Result Cloudru.Config) (parse_vault : Result AuthConfig) where
  provider-IsLoaded :
      (cfg cfg' : Settings)
      → SecretName.validate cfg.folder_delimiter ≡ ok tt
      → load_provider_config parse_cloudru parse_vault cfg ≡ ok cfg'
      → IsLoaded cfg'
  unfolding load_provider_config validate_provider_name
  provider-IsLoaded cfg cfg' valid h = elim (Bool-cases (cfg.provider == provider_name_cloudru)) [
    | inl cloudru ↦
        let same = load_cloudru-IsSame cfg cfg' parse_cloudru (ground arith) in
        record { delimiter = rw same.delimiter valid; provider = rw same.provider (ground arith) }
    | inr no_cloudru ↦ elim (Bool-cases (cfg.provider == provider_name_vault)) [
      | inl vault ↦
          let same = load_vault-IsSame cfg cfg' parse_vault (ground arith) in
          record { delimiter = rw same.delimiter valid; provider = rw same.provider (ground arith) }
      | inr no_vault ↦ absurd (ground arith)
    ]
  ]

  load_valid-IsLoaded :
      (cfg cfg' : Settings) (r : Result (Unit {0}))
      → SecretName.validate cfg.folder_delimiter ≡ r
      → load_valid parse_cloudru parse_vault cfg r ≡ ok cfg'
      → IsLoaded cfg'
  load_valid-IsLoaded cfg cfg' (ok _) e h =
      provider-IsLoaded cfg cfg' e
        (unwrapped (load_provider_config parse_cloudru parse_vault cfg) h)
    where
      unwrapped : (r : Result Settings) → wrapped "load provider config" r ≡ ok cfg' → r ≡ ok cfg'
      unwrapped (ok c) k = k
      unwrapped (err x) k = cc
      unwrapped panic k = cc
  load_valid-IsLoaded cfg cfg' (err x) e h = cc
  load_valid-IsLoaded cfg cfg' panic e h = cc

  -- A configuration that is loaded without an error has a valid folder delimiter and the name of a
  -- provider that there is.
  pub load-IsLoaded :
      (parsed : Result Settings) (cfg : Settings)
      → load parse_cloudru parse_vault parsed ≡ ok cfg
      → IsLoaded cfg
  unfolding load
  load-IsLoaded (ok parsed) cfg h =
      load_valid-IsLoaded parsed cfg (SecretName.validate parsed.folder_delimiter) refl h
  load-IsLoaded (err e) cfg h = cc
  load-IsLoaded panic cfg h = cc
