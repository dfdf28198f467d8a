-- ===== src/Tests/Docker.antt =====
-- A Docker in memory: a listing, and removals that find nothing.
use cloud_secrets.Engine.Docker.Latest.{IsNewest, map_secrets-latest}
use cloud_secrets.Engine.Docker.Secrets.{versions_at, described, last_parent, map_secrets-described}
use cloud_secrets.Engine.{ExistingSecret, latest_version}
use cloud_secrets.Engine.Docker.{map_secrets, remove_secret}
use cloud_secrets.Prelude.Dict.{Dict}
use cloud_secrets.Engine.Docker.{
  DockerApi, SwarmSecret, collect_versions, collect_secrets, labels_of,
}
use cloud_secrets.Prelude.{
  ℕ, Bool, any, All, arith, if◌then◌else◌, ◌==◌, false, suc, String, ◌≡◌, refl, ◌≢◌, true, none,
  some, List, [], ◌∷◌, foreign, ok, err, is_secret_not_found, Text, codes, Text-discrete,
}
use cloud_secrets.Prelude.Exec.{actions}
use cloud_secrets.Engine.Docker.{docker_client}
use cloud_secrets.Providers.Contracts.{Provider}
use cloud_secrets.Sync.Payload.{
  Synchronizer, SyncState, SecretVersionRemoval, empty_payload, step_actions,
}
use cloud_secrets.Sync.Remove.{remove_old_versions}
use cloud_secrets.Sync.Remove.Sweep.{due}
use cloud_secrets.Sync.Remove.Gone.{RemovesForGood, remove_old_versions-Gone}
use cloud_secrets.Prelude.Dict

abbrev secret_of : String → String → Text → ℕ → SwarmSecret
secret_of id name path updated_at = record {
  id = codes id;
  name = codes name;
  labels = labels_of path (codes "app/db") (codes id) [];
  updated_at = updated_at;
}

abbrev parent_secret : SwarmSecret
parent_secret = secret_of "1" "app-db" (codes "app-db") 3

abbrev version_secret : SwarmSecret
version_secret = secret_of "2" "app-db-2" (codes "app-db") 8

abbrev listing : List SwarmSecret
listing = version_secret ∷ parent_secret ∷ []

-- The world counts the recorded requests.
abbrev docker : DockerApi ℕ
docker = record {
  secret_remove = λ id w. (err (foreign 404), w);
  secret_create = λ spec w. (ok (codes "new"), w);
  secret_list = λ w. (ok listing, w);
  container_list = λ label w. (ok [], w);
  container_kill = λ id signal w. (ok tt, w);
  service_list = λ w. (ok [], w);
  service_update = λ service w. (ok [], w);
  is_not_found = λ e. true;
  record_request = λ name w. suc w;
}

abbrev secrets : Dict ExistingSecret
secrets = collect_versions listing (collect_secrets listing [])

listed : (map_secrets docker 0).0 ≡ ok secrets
unfolding map_secrets actions
listed = refl

abbrev db : ExistingSecret
db = record {
  id = codes "1";
  path = codes "app-db";
  external_path = codes "app/db";
  managed = true;
  versions =
      record { id = codes "1"; external_id = codes "1"; updated_at = 3 }
      ∷ record { id = codes "2"; external_id = codes "2"; updated_at = 8 }
      ∷ [];
  latest = record { id = codes "2"; external_id = codes "2"; updated_at = 8 };
}

db_listed : Dict.lookup (codes "app-db") secrets ≡ some db
unfolding collect_versions collect_secrets Text-discrete Dict.lookup
db_listed = refl

path_named : codes "app-db" ≢ []
path_named e = cc

map_secrets-described_example :
    versions_at (Dict.lookup (codes "app-db") secrets)
    ≡ described (codes "app-db") listing (last_parent (codes "app-db") listing none)
map_secrets-described_example =
    map_secrets-described docker 0 listing secrets (codes "app-db") path_named refl listed

map_secrets-latest_example : IsNewest (latest_version db) db.versions
map_secrets-latest_example =
    map_secrets-latest docker 0 listing secrets (codes "app-db") db path_named refl listed db_listed

-- A Docker whose world is the IDs that are gone; what is gone is not found again.
abbrev is_gone : Text → List Text → Bool
is_gone id w = any (λ other. other == id) w

abbrev bin : DockerApi (List Text)
bin = record {
  secret_remove = λ id w. if is_gone id w then (err (foreign 404), w) else (ok tt, id ∷ w);
  secret_create = λ spec w. (ok (codes "new"), w);
  secret_list = λ w. (ok [], w);
  container_list = λ label w. (ok [], w);
  container_kill = λ id signal w. (ok tt, w);
  service_list = λ w. (ok [], w);
  service_update = λ service w. (ok [], w);
  is_not_found = λ e. true;
  record_request = λ name w. w;
}

abbrev IsGone : Text → List Text → Type 0
IsGone id w = is_gone id w ≡ true

bin-RemovesForGood : RemovesForGood bin IsGone
unfolding is_secret_not_found
bin-RemovesForGood = record {
  removed = λ id w h. ground arith;
  missing = λ id e w h e'. ground arith;
  foreign_error = λ id e w h. ground arith;
  kept = λ id other w gone. ground arith;
  counted = λ id name w gone. gone;
}

abbrev bin_manager : Provider (List Text)
bin_manager = record {
  definition = record { name = codes "none"; links = record { doc = []; manager = [] } };
  create_secret = λ request w. (err (foreign 1), w);
  get_secret_payload = λ path w. (ok [], w);
  list_secrets = λ w. (ok [], w);
}

abbrev bin_synchronizer : Synchronizer (List Text)
bin_synchronizer = record {
  engine = docker_client bin;
  secret_provider = bin_manager;
  cleanup_orphaned = false;
  folder_delimiter = codes "-";
  new_uuid = λ w. (ok [], w);
}

-- The second version has been removed by hand.
abbrev half_removed : SyncState (List Text)
half_removed = record {
  world = codes "2" ∷ [];
  metrics = record { created = 0; removed_secrets = 0; removed_versions = 0; updated = 0 };
  payload = empty_payload;
}

abbrev removals : List SecretVersionRemoval
removals = record { secret = db; remove_parent = true } ∷ []

all_removed : (remove_old_versions bin_synchronizer removals half_removed).0 ≡ ok tt
unfolding remove_old_versions remove_secret step_actions Text-discrete
all_removed = refl

remove_old_versions-Gone_example :
    All
      (λ id. IsGone id (remove_old_versions bin_synchronizer removals half_removed).1.world)
      (due removals)
remove_old_versions-Gone_example =
    remove_old_versions-Gone bin_synchronizer bin IsGone removals half_removed bin-RemovesForGood
      all_removed
