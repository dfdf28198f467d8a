-- ===== src/Providers/Cloudru/Created.antt =====
-- What CreateSecret of Cloud.ru accepts lies below the root folder, and is listed.
use cloud_secrets.Prelude.{◌≡◌, List, [], ok, Text, ◌==◌}
use cloud_secrets.Prelude.{◌⊎◌, any, ◌++◌, true}
use cloud_secrets.Strings.{has_prefix}
use cloud_secrets.Providers.Cloudru.{slash}
use cloud_secrets.Prelude.Dict
use cloud_secrets.Prelude.Dict.{Dict}
use cloud_secrets.Providers.Cloudru.{Config, CloudSecret, SecretService}

-- A path below the root folder, where there is one.
abbrev pub IsBelow : Config → Text → Type 0
IsBelow cfg path = (cfg.root_folder ≡ []) ⊎ (has_prefix path (cfg.root_folder ++ slash) ≡ true)

-- What the service documents of a search with any depth, for a predicate that says which paths have a
-- secret: an answer has every secret below the folder that it is asked for.
pub record FindsBelow {W : Type 0} (cfg : Config) (service : SecretService W)
    (Exists : Text → W → Type 0) : Type 0 where
  pub finds :
      (path : Text) (w : W) (secrets : List CloudSecret)
      → (service.search cfg.project_id cfg.root_folder w).0 ≡ ok secrets
      → IsBelow cfg path
      → Exists path w
      → any (λ secret. secret.path == path) secrets ≡ true
