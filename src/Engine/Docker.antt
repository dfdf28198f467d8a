-- ===== src/Engine/Docker.antt =====
-- internal/engine/docker.go, docker_service.go and errors.go: the client over the Docker API. The
-- foreign API is the argument `docker`; the log lines are left out.
use cloud_secrets.Prelude.{
  ℕ, Bool, true, not, ◌||◌, Option, none, some, List, [], ◌∷◌, ◌++◌, ltb, if◌then◌else◌, Error,
  message, secret_not_found, wrap, Result, ok, err, panic, Text, codes, ◌==◌,
}
use cloud_secrets.Prelude.Exec.{Exec, pure, fail, ◌>>=◌, ◌>>◌, context}
use cloud_secrets.Engine.{
  Client, CreatingSecret, ExistingSecret, ExistingSecretVersion, Service, Bool,
  CreatingSecretVersion, List, Option, codes, ℕ, CreatedSecretVersion, ◌∷◌, [],
}
use cloud_secrets.Prelude.Dict.{Dict}
use cloud_secrets.Prelude.Bytes.{Text}
pub mod Secrets
pub mod Latest
use cloud_secrets.Prelude.Dict

-- swarm.SecretSpec with its annotations
pub record SecretSpec : Type 0 where
  pub name : Text
  pub labels : Dict Text
  pub payload : Text

-- swarm.Secret as a listing shows it, without the payload
pub record SwarmSecret : Type 0 where
  pub id : Text
  pub name : Text
  pub labels : Dict Text
  pub updated_at : ℕ

-- The calls of `dock.APIClient` that the program makes: `container_list` is the list of IDs for one
-- label and a limit of 1, `service_update` returns warnings. `is_not_found` is
-- `errdefs.IsNotFound`, and `record_request` the metric of a request with its duration.
pub record DockerApi (W : Type 0) : Type 0 where
  pub secret_remove : Text → Exec W (Unit {0})
  pub secret_create : SecretSpec → Exec W Text
  pub secret_list : Exec W (List SwarmSecret)
  pub container_list : Text → Exec W (List Text)
  pub container_kill : Text → Text → Exec W (Unit {0})
  pub service_list : Exec W (List Service)
  pub service_update : Service → Exec W (List Text)
  pub is_not_found : Error → Bool
  pub record_request : Text → W → W

abbrev pub managed_label : Text
managed_label = codes "cloud-secrets.secret.managed"

unfoldable pub get_label : Dict Text → Text → Text
unfolding Dict.lookup
get_label labels key = elim (Dict.lookup key labels) [ none ↦ [] | some label ↦ label ]

-- `labels[managedLabel] == "true"`; a missing label is the empty string.
unfoldable pub is_managed : SwarmSecret → Bool
unfolding get_label
is_managed secret = get_label secret.labels managed_label == codes "true"

unfoldable pub logical_path : SwarmSecret → Text
unfolding get_label
logical_path secret = get_label secret.labels (codes "logical_path")

unfoldable pub version_of : SwarmSecret → ExistingSecretVersion
unfolding get_label
version_of secret = record {
  id = secret.id;
  external_id = get_label secret.labels (codes "external_version_id");
  updated_at = secret.updated_at;
}

unfoldable pub parent_of : SwarmSecret → Text → ExistingSecret
unfolding version_of is_managed
parent_of secret path = record {
  id = secret.id;
  path = path;
  external_path = get_label secret.labels (codes "external_path");
  managed = is_managed secret;
  versions = version_of secret ∷ [];
  latest = version_of secret;
}

-- The first loop of `MapSecrets`: the secrets that bear their logical path as their name.
unfoldable pub collect_secrets : List SwarmSecret → Dict ExistingSecret → Dict ExistingSecret
unfolding logical_path parent_of Dict.insert
collect_secrets [] d = d
collect_secrets (secret ∷ rest) d = collect_secrets rest (
    if logical_path secret == [] || not (logical_path secret == secret.name)
    then d
    else Dict.insert (logical_path secret) (parent_of secret (logical_path secret)) d)

-- What the second loop writes to the parent.
unfoldable pub with_version : SwarmSecret → ExistingSecret → ExistingSecret
unfolding version_of is_managed
with_version secret parent = record parent {
  versions = parent.versions ++ version_of secret ∷ [];
  managed = parent.managed || is_managed secret;
  latest =
      if ltb parent.latest.updated_at secret.updated_at then version_of secret else parent.latest;
}

abbrev pub add_to_found :
    Option ExistingSecret → Text → SwarmSecret → Dict ExistingSecret → Dict ExistingSecret
add_to_found none path secret d = d
add_to_found (some parent) path secret d = Dict.insert path (with_version secret parent) d

-- The second loop of `MapSecrets`: the versions, each put to the secret of its logical path.
unfoldable pub collect_versions : List SwarmSecret → Dict ExistingSecret → Dict ExistingSecret
unfolding logical_path with_version Dict.insert Dict.lookup
collect_versions [] d = d
collect_versions (secret ∷ rest) d = collect_versions rest (
    if logical_path secret == [] || logical_path secret == secret.name
    then d
    else add_to_found (Dict.lookup (logical_path secret) d) (logical_path secret) secret d)

abbrev pub labels_of : Text → Text → Text → Text → Dict Text
labels_of path external_path external_version_id description =
    (codes "logical_path", path)
    ∷ (codes "external_path", external_path)
    ∷ (codes "external_version_id", external_version_id)
    ∷ (codes "description", description)
    ∷ (managed_label, codes "true")
    ∷ []

module _ {W : Type 0} (docker : DockerApi W) where
  -- The deferred metric is recorded however the call ends.
  abbrev recorded : {A : Type 0} → Text → Exec W A → Exec W A
  recorded name m w = let (r, w') = m w in (r, docker.record_request name w')

  -- The metric is recorded after a success alone.
  abbrev recorded_if_ok : {A : Type 0} → Text → Exec W A → Exec W A
  recorded_if_ok name m = do a ← m; λ w. (ok a, docker.record_request name w)

  abbrev pub removal_error : Text → Error → Error
  removal_error id e =
      if docker.is_not_found e then secret_not_found id else wrap "remove secret in swarm" e

  abbrev pub removed : Text → Result (Unit {0}) → Result (Unit {0})
  removed id (ok _) = ok tt
  removed id (err e) = err (removal_error id e)
  removed id panic = panic

  unfoldable pub remove_secret : Text → Exec W (Unit {0})
  remove_secret id =
      recorded (codes "remove_secret")
        (λ w. let (r, w') = docker.secret_remove id w in (removed id r, w'))

  unfoldable pub create_secret_version :
      ExistingSecret → CreatingSecretVersion → Exec W CreatedSecretVersion
  create_secret_version secret version = recorded (codes "create_secret_version") (do
    id ← context "create secret" (
        docker.secret_create (record {
          name = version.path;
          labels =
              labels_of secret.path secret.external_path version.external_id version.description;
          payload = version.value;
        }))
    pure (record { id = id; name = version.path }))

  unfoldable pub create_secret : CreatingSecret → Exec W (Unit {0})
  create_secret spec = recorded (codes "create_secret") (do
    id ← docker.secret_create (record {
      name = spec.path;
      labels = labels_of spec.path spec.external_path spec.external_version_id spec.description;
      payload = spec.value;
    })
    pure tt)

  abbrev first_id : List Text → Exec W Text
  first_id [] = fail (message "no containers found")
  first_id (id ∷ _) = pure id

  unfoldable pub get_container_id : Text → Exec W Text
  get_container_id label = context "list containers" (docker.container_list label) >>= first_id

  unfoldable pub sighup_container : Text → Exec W (Unit {0})
  sighup_container id = docker.container_kill id (codes "SIGHUP")

  unfoldable pub map_secrets : Exec W (Dict ExistingSecret)
  unfolding collect_secrets collect_versions
  map_secrets = do
    secrets ←
        recorded_if_ok (codes "list_secrets") (context "list swarm secrets" docker.secret_list)
    pure (collect_versions secrets (collect_secrets secrets []))

  unfoldable pub list_services : Exec W (List Service)
  list_services =
      recorded_if_ok (codes "list_services") (context "list services in swarm" docker.service_list)

  unfoldable pub update_service : Service → Exec W (Unit {0})
  update_service service = do
    warnings ←
        recorded_if_ok (codes "update_service")
          (context "update service" (docker.service_update service))
    pure tt

  -- engine.NewDockerClient, as the interface that the synchronizer uses
  abbrev pub docker_client : Client W
  docker_client = record {
    create_secret_version = create_secret_version;
    update_service = update_service;
    remove_secret = remove_secret;
    create_secret = create_secret;
    map_secrets = map_secrets;
    list_services = list_services;
  }
