-- ===== src/Engine.antt =====
-- internal/engine/client.go, errors.go and ref.go: the view of Docker Swarm that the program works
-- with. Of the foreign `swarm.Service` and `swarm.SecretReference` only the fields are kept that
-- the program reads or writes.
pub mod Docker
use cloud_secrets.Prelude.{ℕ, Bool, Option, List, [], ◌∷◌, ltb}
use cloud_secrets.Prelude.{if◌then◌else◌, Text, codes, ◌==◌}
use cloud_secrets.Prelude.Dict.{Dict}
use cloud_secrets.Prelude.Exec.{Exec}

-- swarm.SecretReferenceFileTarget
pub record FileTarget : Type 0 where
  pub name : Text
  pub uid : Text
  pub gid : Text
  pub mode : ℕ

-- swarm.SecretReference
pub record SecretReference : Type 0 where
  pub file : FileTarget
  pub secret_id : Text
  pub secret_name : Text

-- swarm.Service: `container_spec` is the list `Spec.TaskTemplate.ContainerSpec.Secrets`, or `none`
-- for a nil `ContainerSpec`.
pub record Service : Type 0 where
  pub id : Text
  pub name : Text
  pub version : ℕ
  pub container_spec : Option (List SecretReference)

pub record CreatingSecret : Type 0 where
  pub path : Text
  pub value : Text
  pub description : Text
  pub external_path : Text
  pub external_version_id : Text

pub record CreatingSecretVersion : Type 0 where
  pub path : Text
  pub description : Text
  pub external_id : Text
  pub value : Text

pub record CreatedSecretVersion : Type 0 where
  pub id : Text
  pub name : Text

-- `updated_at` counts from the zero time.
pub record ExistingSecretVersion : Type 0 where
  pub id : Text
  pub external_id : Text
  pub updated_at : ℕ

pub record ExistingSecret : Type 0 where
  pub id : Text
  pub path : Text
  pub external_path : Text
  pub managed : Bool
  pub versions : List ExistingSecretVersion
  pub latest : ExistingSecretVersion

-- The interface `engine.Client`, over a world that the calls change.
pub record Client (W : Type 0) : Type 0 where
  pub create_secret_version : ExistingSecret → CreatingSecretVersion → Exec W CreatedSecretVersion
  pub update_service : Service → Exec W (Unit {0})
  pub remove_secret : Text → Exec W (Unit {0})
  pub create_secret : CreatingSecret → Exec W (Unit {0})
  pub map_secrets : Exec W (Dict ExistingSecret)
  pub list_services : Exec W (List Service)

-- The loop of `LatestVersion`: a later version replaces the latest one only if it is newer.
unfoldable pub newest : ExistingSecretVersion → List ExistingSecretVersion → ExistingSecretVersion
newest latest [] = latest
newest latest (version ∷ rest) =
    newest (if ltb latest.updated_at version.updated_at then version else latest) rest

unfoldable pub latest_version : ExistingSecret → ExistingSecretVersion
unfolding newest
latest_version v =
    if v.latest.id == []
    then elim v.versions [ [] ↦ v.latest | first ∷ rest ↦ newest first rest ]
    else v.latest

abbrev secret_file_mode : ℕ
secret_file_mode = 0o444

-- engine.NewSecretRef
unfoldable pub new_secret_ref : Text → Text → Text → SecretReference
new_secret_ref path name id = record {
  file = record { name = path; uid = codes "0"; gid = codes "0"; mode = secret_file_mode };
  secret_id = id;
  secret_name = name;
}
