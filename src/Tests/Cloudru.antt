-- ===== src/Tests/Cloudru.antt =====
-- The Cloud.ru provider with the root folder `app`, which is left out of the paths.
use cloud_secrets.Providers.Cloudru.Paths.{scope-resolve}
use cloud_secrets.Strings.Trim.{trim_slashes}
use cloud_secrets.Providers.Cloudru.Iam.{IamInterceptor, TokenResponse}
use cloud_secrets.Strings.{has_prefix}
use cloud_secrets.Providers.Cloudru.{
  Config, CloudSecret, SecretService, list_secrets, scope_secret_path, resolve_secret_path,
}
use cloud_secrets.Prelude.{
  ℕ, suc, ◌≡◌, refl, ◌≢◌, true, false, none, List, [], ◌∷◌, foreign, ok, err, Text, codes,
  Text-discrete,
}
use cloud_secrets.Prelude.Exec.{Exec, lift, ◌>>=◌}
use cloud_secrets.Prelude.Dict
use cloud_secrets.Providers.Contracts.{Secret}
use cloud_secrets.Providers.Grpc.{code_unknown}
use cloud_secrets.Providers.Cloudru.Listing.{Described, last_at, list_secrets-Described}

abbrev cfg : Config
cfg = record {
  iam_address = [];
  iam_client_id = codes "id";
  iam_client_secret = codes "secret";
  csm_address = [];
  discovery_url = [];
  project_id = codes "project";
  root_folder = codes "app";
  root_folder_omit_prefix = true;
}

root_named : codes "app" ≢ []
root_named e = cc

db_named : codes "db" ≢ []
db_named e = cc

nested_named : codes "app/db" ≢ []
nested_named e = cc

scoped : scope_secret_path cfg (codes "app/db") ≡ ok (codes "db")
unfolding scope_secret_path Text-discrete
scoped = refl

scope-resolve_example : resolve_secret_path cfg (codes "db") ≡ codes "app/db"
unfolding Text-discrete has_prefix trim_slashes
scope-resolve_example =
    scope-resolve cfg (codes "app/db") (codes "db") refl root_named scoped refl db_named

-- The path below the root folder begins with its name: the payload of another secret is read.
nested_scoped : scope_secret_path cfg (codes "app/app/db") ≡ ok (codes "app/db")
unfolding scope_secret_path Text-discrete
nested_scoped = refl

nested_resolved : resolve_secret_path cfg (codes "app/db") ≡ codes "app/db"
unfolding Text-discrete has_prefix trim_slashes
nested_resolved =
    scope-resolve cfg (codes "app/app/db") (codes "app/db") refl root_named nested_scoped refl
      nested_named

-- A clock for a world.
abbrev new_token : Text → Text → Exec ℕ TokenResponse
new_token key secret w = (ok (record { access_token = codes "token"; expires_in = 60 }), suc w)

abbrev no_token : Text → Text → Exec ℕ TokenResponse
no_token key secret w = (err (foreign 1), w)

abbrev empty_cache : IamInterceptor
empty_cache = record {
  access_token = [];
  access_token_expires_at = 0;
  access_key = codes "key";
  access_secret = codes "secret";
}

-- A secret with a disabled version before an enabled one, in a service that never changes.
abbrev cloud_db : CloudSecret
cloud_db = record {
  name = codes "db";
  path = codes "app/db";
  description = codes "database";
  versions = record { id = 3; enabled = false } ∷ record { id = 2; enabled = true } ∷ [];
}

abbrev service : SecretService ℕ
service = record {
  create = λ req w. (ok tt, w);
  search = λ project folder w. (ok (cloud_db ∷ []), w);
  access = λ path project w. (ok path, w);
  status_code = λ e. code_unknown;
  web_url = λ path project. path;
  query_escape = λ text. text;
}

abbrev listed_db : Secret
listed_db = record {
  version_id = codes "2";
  path = codes "db";
  full_path = codes "app/db";
  description = codes "database";
  web_url = [];
}

lists : (list_secrets cfg service 5).0 ≡ ok ((codes "app/db", listed_db) ∷ [])
unfolding list_secrets lift ◌>>=◌ Text-discrete
lists = refl

list_secrets-Described_example :
    (secrets : List CloudSecret) × ((service.search cfg.project_id cfg.root_folder 5).0
      ≡ ok secrets)
    × ((path : Text)
        → Described cfg
            (last_at path secrets none)
            (Dict.lookup path ((codes "app/db", listed_db) ∷ [])))
list_secrets-Described_example = list_secrets-Described cfg service 5 _ lists

-- The service has one secret, below the root folder.
abbrev IsDb : Text → ℕ → Type 0
IsDb path w = path ≡ codes "app/db"
