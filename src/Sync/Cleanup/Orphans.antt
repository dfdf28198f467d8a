-- ===== src/Sync/Cleanup/Orphans.antt =====
-- What the orphan cleanup spares: a secret that a service refers to, by any of its versions.
use cloud_secrets.Prelude.{
  ◌≡◌, ◌∙◌, refl, Bool, true, false, Option, none, some, List, [], ◌∷◌, ◌||◌, any, All, Text, ◌==◌,
  if◌then◌else◌, arith,
}
use cloud_secrets.Prelude.Dict
use cloud_secrets.Prelude.Dict.{Dict, TextSet}
use cloud_secrets.Engine.{Service, SecretReference, ExistingSecret, ExistingSecretVersion}
use cloud_secrets.Sync.Payload.{SyncPayload, SecretVersionRemoval}
use cloud_secrets.Sync.Cleanup.{
  index_versions, index_secrets, secret_path_by_id, use_reference, use_references, use_container,
  use_services, used_secret_paths, orphans, orphaned_managed_secret_removals,
}

-- A version of the list has the ID.
abbrev pub has_version : Text → List ExistingSecretVersion → Bool
has_version id versions = any (λ version. version.id == id) versions

-- A version of some secret of the map has the ID.
abbrev pub is_known : Text → Dict ExistingSecret → Bool
is_known id [] = false
is_known id ((_, secret) ∷ rest) = has_version id secret.versions || is_known id rest

-- No ID belongs to versions of two secrets, as Docker gives every secret an ID of its own.
abbrev pub UniqueIds : Dict ExistingSecret → Type 0
UniqueIds [] = Unit
UniqueIds ((_, secret) ∷ rest) =
    All (λ version. is_known version.id rest ≡ false) secret.versions × UniqueIds rest

lookup-index_versions :
    (id path : Text) (versions : List ExistingSecretVersion) (d : Dict Text)
    → Dict.lookup id (index_versions path versions d)
      ≡ (if has_version id versions then some path else Dict.lookup id d)
unfolding index_versions
lookup-index_versions id path [] d = refl
lookup-index_versions id path (version ∷ rest) d =
    rw (lookup-index_versions id path rest, Dict.lookup-insert) (ground arith)

lookup-index_secrets_of_unknown :
    (id : Text) (secrets : Dict ExistingSecret) (d : Dict Text)
    → is_known id secrets ≡ false
    → Dict.lookup id (index_secrets secrets d) ≡ Dict.lookup id d
unfolding index_secrets
lookup-index_secrets_of_unknown id [] d h = refl
lookup-index_secrets_of_unknown id ((path, secret) ∷ rest) d h = ground (
  arith,
  lookup-index_secrets_of_unknown id rest (index_versions path secret.versions d),
  lookup-index_versions id path secret.versions d,
)

-- The ID is referred to by a container of the list.
abbrev pub container_refers : Text → Option (List SecretReference) → Bool
container_refers id none = false
container_refers id (some refs) = any (λ ref. ref.secret_id == id) refs

abbrev pub is_referenced : Text → List Service → Bool
is_referenced id services = any (λ service. container_refers id service.container_spec) services

module _ (path_by_id : Dict Text) (id path : Text)
    (known : Dict.lookup id path_by_id ≡ some path) where
  use_references-has :
      (refs : List SecretReference) (used : TextSet)
      → any (λ ref. ref.secret_id == id) refs || Dict.has path used ≡ true
      → Dict.has path (use_references path_by_id refs used) ≡ true
  unfolding use_references
  use_references-has [] used h = h
  use_references-has (ref ∷ refs) used h =
      use_references-has refs _ (used_before (Dict.lookup ref.secret_id path_by_id) refl)
    where
      used_before :
          (o : Option Text)
          → Dict.lookup ref.secret_id path_by_id ≡ o
          → any (λ ref. ref.secret_id == id) refs || Dict.has path (use_reference o used) ≡ true
      used_before none e = ground arith
      used_before (some p) e = ground (arith, Dict.has-insert path p tt used)

  use_container-has :
      (c : Option (List SecretReference)) (used : TextSet)
      → container_refers id c || Dict.has path used ≡ true
      → Dict.has path (use_container path_by_id c used) ≡ true
  use_container-has none used h = h
  use_container-has (some refs) used h = use_references-has refs used h

  use_services-has :
      (services : List Service) (used : TextSet)
      → is_referenced id services || Dict.has path used ≡ true
      → Dict.has path (use_services path_by_id services used) ≡ true
  unfolding use_services
  use_services-has [] used h = h
  use_services-has (service ∷ services) used h =
      use_services-has services _ (ground (arith, use_container-has service.container_spec used))

-- The map of IDs leads each version to the path of its secret.
abbrev IsIndexed : Dict Text → Dict ExistingSecret → Type 0
IsIndexed path_by_id [] = Unit
IsIndexed path_by_id ((path, secret) ∷ rest) =
    All (λ version. Dict.lookup version.id path_by_id ≡ some path) secret.versions
    × IsIndexed path_by_id rest

index_versions-All :
    (path : Text) (all versions : List ExistingSecretVersion) (rest : Dict ExistingSecret)
    (d : Dict Text)
    → All (λ version. is_known version.id rest ≡ false) versions
    → All (λ version. has_version version.id all ≡ true) versions
    → All
        (λ version.
          Dict.lookup version.id (index_secrets rest (index_versions path all d)) ≡ some path)
        versions
index_versions-All path all [] rest d unknown present = tt
index_versions-All path all (version ∷ versions) rest d unknown present = (
  lookup-index_secrets_of_unknown version.id rest _ unknown.0
      ∙ lookup-index_versions version.id path all d
      ∙ rw present.0,
  index_versions-All path all versions rest d unknown.1 present.1,
)

has_version-later :
    (first : ExistingSecretVersion) (all versions : List ExistingSecretVersion)
    → All (λ version. has_version version.id all ≡ true) versions
    → All (λ version. has_version version.id (first ∷ all) ≡ true) versions
has_version-later first all [] h = tt
has_version-later first all (version ∷ versions) h =
    (ground arith, has_version-later first all versions h.1)

has_version_self :
    (versions : List ExistingSecretVersion)
    → All (λ version. has_version version.id versions ≡ true) versions
has_version_self [] = tt
has_version_self (version ∷ versions) =
    (ground arith, has_version-later version versions versions (has_version_self versions))

index_secrets-IsIndexed :
    (secrets : Dict ExistingSecret) (d : Dict Text)
    → UniqueIds secrets
    → IsIndexed (index_secrets secrets d) secrets
unfolding index_secrets
index_secrets-IsIndexed [] d u = tt
index_secrets-IsIndexed ((path, secret) ∷ rest) d u = (
  index_versions-All path secret.versions secret.versions rest d u.0
      (has_version_self secret.versions),
  index_secrets-IsIndexed rest (index_versions path secret.versions d) u.1,
)

-- No service of the list refers to a version of the secret.
abbrev pub Unreferenced : List Service → ExistingSecret → Type 0
Unreferenced services secret =
    All (λ version. is_referenced version.id services ≡ false) secret.versions

versions-Unreferenced :
    (path_by_id : Dict Text) (path : Text) (services : List Service)
    (versions : List ExistingSecretVersion)
    → All (λ version. Dict.lookup version.id path_by_id ≡ some path) versions
    → Dict.has path (use_services path_by_id services []) ≡ false
    → All (λ version. is_referenced version.id services ≡ false) versions
versions-Unreferenced path_by_id path services [] indexed unused = tt
versions-Unreferenced path_by_id path services (version ∷ versions) indexed unused = (
  ground (arith, use_services-has path_by_id version.id path indexed.0 services []),
  versions-Unreferenced path_by_id path services versions indexed.1 unused,
)

unless_passed_over :
    (P : SecretVersionRemoval → Type 0) (a b c : Bool) (removal : SecretVersionRemoval)
    (others : List SecretVersionRemoval)
    → All P others
    → (b ≡ false → P removal)
    → All P (if a then others else if b then others else if c then others else removal ∷ others)
unless_passed_over P true b c removal others h k = h
unless_passed_over P false true c removal others h k = h
unless_passed_over P false false true removal others h k = h
unless_passed_over P false false false removal others h k = (k refl, h)

orphans-Unreferenced :
    (path_by_id : Dict Text) (services : List Service) (existing : TextSet)
    (secrets : Dict ExistingSecret)
    → IsIndexed path_by_id secrets
    → All
        (λ removal. Unreferenced services removal.secret)
        (orphans (use_services path_by_id services []) existing secrets)
unfolding orphans
orphans-Unreferenced path_by_id services existing [] indexed = tt
orphans-Unreferenced path_by_id services existing ((path, secret) ∷ rest) indexed =
    unless_passed_over (λ removal. Unreferenced services removal.secret) _ _ _ _ _
      (orphans-Unreferenced path_by_id services existing rest indexed.1)
      (versions-Unreferenced path_by_id path services secret.versions indexed.0)

-- With IDs of their own for all versions, the cleanup selects no secret that a service refers to
-- by the ID of any version, whatever its path and label.
pub orphaned_managed_secret_removals-Unreferenced :
    (p : SyncPayload) (folder_delimiter : Text)
    → UniqueIds p.swarm_secrets_map
    → All
        (λ removal. Unreferenced p.services removal.secret)
        (orphaned_managed_secret_removals p folder_delimiter)
unfolding orphaned_managed_secret_removals used_secret_paths secret_path_by_id
orphaned_managed_secret_removals-Unreferenced p folder_delimiter u =
    orphans-Unreferenced _ p.services _ p.swarm_secrets_map
      (index_secrets-IsIndexed p.swarm_secrets_map [] u)
