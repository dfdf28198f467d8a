-- ===== src/Engine/Docker/Latest.antt =====
-- The latest version of each secret that `MapSecrets` returns.
use cloud_secrets.Engine.Docker.Secrets.{
  add_versions, lookup-map_secrets, versions_added, parent_at,
}
use cloud_secrets.Engine.{latest_version, newest}
use cloud_secrets.Prelude.{
  ◌≤◌, ◌≡◌, refl, sym, ◌∙◌, ◌≢◌, Bool, true, false, Option, none, some, List, [], ◌∷◌, ◌++◌, arith,
  ltb, if◌then◌else◌, All, All-append, ok, Text,
}
use mathlib.Core.Path.{subst}
use cloud_secrets.Engine.{ExistingSecret, ExistingSecretVersion}
use cloud_secrets.Engine.Docker.{
  SwarmSecret, parent_of, with_version, version_of, DockerApi, map_secrets,
}
use cloud_secrets.Prelude.Dict.{Dict}
use cloud_secrets.Prelude.Dict

-- No version is newer than the latest one that is kept.
abbrev pub IsNewest : ExistingSecretVersion → List ExistingSecretVersion → Type 0
IsNewest latest versions = All (λ version. version.updated_at ≤ latest.updated_at) versions

IsNewest-later :
    (latest later : ExistingSecretVersion) (versions : List ExistingSecretVersion)
    → latest.updated_at ≤ later.updated_at
    → IsNewest latest versions
    → IsNewest later versions
IsNewest-later latest later [] h k = tt
IsNewest-later latest later (version ∷ rest) h k =
    (omega (arith, k.0), IsNewest-later latest later rest h k.1)

latest_step :
    (parent : ExistingSecret) (secret : SwarmSecret) (b : Bool)
    → ltb parent.latest.updated_at secret.updated_at ≡ b
    → IsNewest parent.latest parent.versions
    → IsNewest
        (if b then version_of secret else parent.latest)
        (parent.versions ++ version_of secret ∷ [])
unfolding version_of
latest_step parent secret true e h =
    All-append _ parent.versions _
      (IsNewest-later parent.latest (version_of secret) parent.versions (ground arith) h)
      (omega arith, tt)
latest_step parent secret false e h = All-append _ parent.versions _ h (ground arith, tt)

if_version-IsNewest :
    (b : Bool) (secret : SwarmSecret) (parent : ExistingSecret)
    → IsNewest parent.latest parent.versions
    → let s = if b then with_version secret parent else parent in IsNewest s.latest s.versions
unfolding with_version
if_version-IsNewest true secret parent h = latest_step parent secret _ refl h
if_version-IsNewest false secret parent h = h

add_versions-IsNewest :
    (path : Text) (secrets : List SwarmSecret) (parent : ExistingSecret)
    → IsNewest parent.latest parent.versions
    → let s = add_versions path secrets parent in IsNewest s.latest s.versions
add_versions-IsNewest path [] parent h = h
add_versions-IsNewest path (secret ∷ rest) parent h =
    add_versions-IsNewest path rest _ (if_version-IsNewest _ secret parent h)

newest-le :
    (version : ExistingSecretVersion) (versions : List ExistingSecretVersion)
    → version.updated_at ≤ (newest version versions).updated_at
unfolding newest
newest-le version [] = omega arith
newest-le version (other ∷ rest) = ground (arith, newest-le version rest, newest-le other rest)

newest-IsNewest :
    (versions : List ExistingSecretVersion) (latest : ExistingSecretVersion)
    → IsNewest (newest latest versions) versions
unfolding newest
newest-IsNewest [] latest = tt
newest-IsNewest (version ∷ rest) latest =
    (ground (arith, newest-le version rest, newest-le latest rest), newest-IsNewest rest _)

latest_version_by :
    (secret : ExistingSecret) (versions : List ExistingSecretVersion) (b : Bool)
    → IsNewest secret.latest versions
    → IsNewest
        (if b
          then elim versions [ [] ↦ secret.latest | first ∷ rest ↦ newest first rest ]
          else secret.latest)
        versions
latest_version_by secret versions false h = h
latest_version_by secret [] true h = h
latest_version_by secret (first ∷ rest) true h = (newest-le first rest, newest-IsNewest rest first)

pub found_version-IsNewest :
    (path : Text) (secrets : List SwarmSecret) (o : Option SwarmSecret) (secret : ExistingSecret)
    → versions_added path secrets (parent_at path o) ≡ some secret
    → IsNewest (latest_version secret) secret.versions
unfolding latest_version parent_of
found_version-IsNewest path secrets none secret h = cc
found_version-IsNewest path secrets (some parent) secret h =
    let same : add_versions path secrets (parent_of parent path) ≡ secret = ground arith in
    subst (λ s. IsNewest (latest_version s) s.versions) same
      (latest_version_by (add_versions path secrets (parent_of parent path)) _ _
        (add_versions-IsNewest path secrets (parent_of parent path) (omega arith, tt)))

module _ {W : Type 0} (docker : DockerApi W) where
  -- Of every secret that the map has at a path that is not empty, no version is newer than
  -- `LatestVersion`.
  pub map_secrets-latest :
      (w : W) (secrets : List SwarmSecret) (m : Dict ExistingSecret) (path : Text)
      (secret : ExistingSecret)
      → path ≢ []
      → (docker.secret_list w).0 ≡ ok secrets
      → (map_secrets docker w).0 ≡ ok m
      → Dict.lookup path m ≡ some secret
      → IsNewest (latest_version secret) secret.versions
  map_secrets-latest w secrets m path secret named listing h found =
      found_version-IsNewest path secrets _ secret
        (sym (lookup-map_secrets docker w secrets m path named listing h) ∙ found)
