-- ===== src/Providers/Contracts.antt =====
-- internal/providers/contracts/provider.go: what every provider offers.
use cloud_secrets.Prelude.{Text}
use cloud_secrets.Prelude.Dict.{Dict}
use cloud_secrets.Prelude.Exec.{Exec}

pub record CreateSecretRequest : Type 0 where
  pub path : Text
  pub value : Text
  pub key : Text
  pub description : Text

pub record Secret : Type 0 where
  pub version_id : Text
  pub path : Text
  pub full_path : Text
  pub description : Text
  pub web_url : Text

pub record Links : Type 0 where
  pub doc : Text
  pub manager : Text

pub record ProviderDefinition : Type 0 where
  pub name : Text
  pub links : Links

-- The interface `contracts.Provider`, over a world that the calls change.
pub record Provider (W : Type 0) : Type 0 where
  pub definition : ProviderDefinition
  pub create_secret : CreateSecretRequest → Exec W Secret
  pub get_secret_payload : Text → Exec W Text
  pub list_secrets : Exec W (Dict Secret)
