-- ===== src/Tests/Swarm.antt =====
-- A Swarm and a secret manager in memory: a small world behind the two interfaces.
use cloud_secrets.Prelude.{
  Bool, true, false, some, List, [], ◌∷◌, ◌++◌, Text, codes, ◌==◌, ok, err, message, if◌then◌else◌,
}
use cloud_secrets.Prelude.Dict.{Dict}
use cloud_secrets.Engine.{Client, Service, SecretReference, ExistingSecret, ExistingSecretVersion}
use cloud_secrets.Providers.Contracts.{Provider, Secret}
use cloud_secrets.Sync.Payload.{Synchronizer}

-- The secrets of the Swarm, its services, what the secret manager lists, the removed IDs in order,
-- and whether service updates fail.
pub record World : Type 0 where
  pub secrets : Dict ExistingSecret
  pub services : List Service
  pub listed : Dict Secret
  pub removed : List Text
  pub updated : List Text
  pub frozen : Bool

abbrev pub update_in_place : Service → List Service → List Service
update_in_place service [] = []
update_in_place service (other ∷ rest) =
    (if other.id == service.id then service else other) ∷ update_in_place service rest

abbrev pub client : Client World
client = record {
  create_secret_version =
      λ secret version w. (ok (record { id = codes "new-id"; name = version.path }), w);
  update_service = λ service w. if w.frozen then (err (message "update failed"), w) else (
    ok tt,
    record w {
      services = update_in_place service w.services;
      updated = w.updated ++ service.id ∷ [];
    },
  );
  remove_secret = λ id w. (ok tt, record w { removed = w.removed ++ id ∷ [] });
  create_secret = λ spec w. (ok tt, w);
  map_secrets = λ w. (ok w.secrets, w);
  list_services = λ w. (ok w.services, w);
}

abbrev pub manager : Provider World
manager = record {
  definition = record { name = codes "memory"; links = record { doc = []; manager = [] } };
  create_secret = λ request w. (err (message "read only"), w);
  get_secret_payload = λ path w. (ok (codes "payload"), w);
  list_secrets = λ w. (ok w.listed, w);
}

abbrev pub synchronizer : Synchronizer World
synchronizer = record {
  engine = client;
  secret_provider = manager;
  cleanup_orphaned = false;
  folder_delimiter = codes "-";
  new_uuid = λ w. (ok (codes "00000000-0000-4000-8000-000000000000"), w);
}

-- One secret of one version, used by one service; the manager has version 2 of it.
abbrev pub first_version : ExistingSecretVersion
first_version = record { id = codes "id1"; external_id = codes "1"; updated_at = 5 }

abbrev pub db_password : ExistingSecret
db_password = record {
  id = codes "id1";
  path = codes "app-db";
  external_path = codes "app/db";
  managed = true;
  versions = first_version ∷ [];
  latest = first_version;
}

abbrev pub db_reference : SecretReference
db_reference = record {
  file = record { name = codes "db"; uid = codes "0"; gid = codes "0"; mode = 0o444 };
  secret_id = codes "id1";
  secret_name = codes "app-db";
}

abbrev pub web : Service
web = record {
  id = codes "svc";
  name = codes "web";
  version = 7;
  container_spec = some (db_reference ∷ []);
}

abbrev pub external_db : Secret
external_db = record {
  version_id = codes "2";
  path = codes "app/db";
  full_path = codes "app/db";
  description = [];
  web_url = [];
}

abbrev pub world : World
world = record {
  secrets = (codes "app-db", db_password) ∷ [];
  services = web ∷ [];
  listed = (codes "app/db", external_db) ∷ [];
  removed = [];
  updated = [];
  frozen = false;
}
