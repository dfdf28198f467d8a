-- ===== src/Engine/Docker/Secrets.antt =====
-- What `MapSecrets` makes of a listing.
use cloud_secrets.Prelude.{
  ◌≡◌, refl, sym, ap, ◌∙◌, ◌≢◌, Bool, not, ◌&&◌, Option, none, some, List, [], ◌∷◌, ◌++◌, map,
  arith, if◌then◌else◌, keep, ok, Text, ◌==◌,
}
use mathlib.Core.Path.{subst}
use mathlib.Core.List.{append-nil, append_assoc}
use cloud_secrets.Engine.{ExistingSecret, ExistingSecretVersion}
use cloud_secrets.Engine.Docker.{
  SwarmSecret, logical_path, parent_of, collect_secrets, with_version, add_to_found,
  collect_versions, version_of, DockerApi, map_secrets,
}
use cloud_secrets.Prelude.Exec.{actions}
use cloud_secrets.Prelude.Dict.{Dict}
use cloud_secrets.Prelude.Dict

-- The secret is the parent of the path, or one of its versions.
abbrev pub is_parent_of : Text → SwarmSecret → Bool
is_parent_of path secret = logical_path secret == path && secret.name == path

abbrev pub is_version_of : Text → SwarmSecret → Bool
is_version_of path secret = logical_path secret == path && not (secret.name == path)

-- The last parent that the listing has for a path.
abbrev pub last_parent : Text → List SwarmSecret → Option SwarmSecret → Option SwarmSecret
last_parent path [] o = o
last_parent path (secret ∷ rest) o =
    last_parent path rest (if is_parent_of path secret then some secret else o)

abbrev pub parent_at : Text → Option SwarmSecret → Option ExistingSecret
parent_at path none = none
parent_at path (some secret) = some (parent_of secret path)

-- The parent with the versions of the listing added in order.
abbrev pub add_versions : Text → List SwarmSecret → ExistingSecret → ExistingSecret
add_versions path [] parent = parent
add_versions path (secret ∷ rest) parent =
    add_versions path rest
      (if is_version_of path secret then with_version secret parent else parent)

abbrev pub versions_added : Text → List SwarmSecret → Option ExistingSecret → Option ExistingSecret
versions_added path secrets none = none
versions_added path secrets (some parent) = some (add_versions path secrets parent)

abbrev changed : (ExistingSecret → ExistingSecret) → Option ExistingSecret → Option ExistingSecret
changed f none = none
changed f (some parent) = some (f parent)

module _ (path : Text) (named : path ≢ []) where
  lookup-collect_secrets :
      (secrets : List SwarmSecret) (d : Dict ExistingSecret) (o : Option SwarmSecret)
      → Dict.lookup path d ≡ parent_at path o
      → Dict.lookup path (collect_secrets secrets d) ≡ parent_at path (last_parent path secrets o)
  unfolding collect_secrets
  lookup-collect_secrets [] d o h = h
  lookup-collect_secrets (secret ∷ rest) d o h = lookup-collect_secrets rest _ _ (
      ground (
        arith,
        Dict.lookup-insert path (logical_path secret) (parent_of secret (logical_path secret)) d,
      ))

  one_version :
      (secret : SwarmSecret) (d : Dict ExistingSecret) (o : Option ExistingSecret)
      → Dict.lookup (logical_path secret) d ≡ o
      → Dict.lookup path (add_to_found o (logical_path secret) secret d) ≡ (
          if logical_path secret == path
          then changed (with_version secret) o
          else Dict.lookup path d)
  one_version secret d none h = ground arith
  one_version secret d (some parent) h =
      ground (arith, Dict.lookup-insert path (logical_path secret) (with_version secret parent) d)

  lookup-collect_versions :
      (secrets : List SwarmSecret) (d : Dict ExistingSecret) (o : Option ExistingSecret)
      → Dict.lookup path d ≡ o
      → Dict.lookup path (collect_versions secrets d) ≡ versions_added path secrets o
  unfolding collect_versions
  lookup-collect_versions [] d none h = h
  lookup-collect_versions [] d (some parent) h = h
  lookup-collect_versions (secret ∷ rest) d none h =
      lookup-collect_versions rest _ none
        (ground (arith, one_version secret d (Dict.lookup (logical_path secret) d) refl))
  lookup-collect_versions (secret ∷ rest) d (some parent) h =
      lookup-collect_versions rest _ (some _)
        (ground (arith, one_version secret d (Dict.lookup (logical_path secret) d) refl))

versions-add_versions :
    (path : Text) (secrets : List SwarmSecret) (parent : ExistingSecret)
    → (add_versions path secrets parent).versions
      ≡ parent.versions ++ map version_of (keep (is_version_of path) secrets)
unfolding with_version
versions-add_versions path [] parent = sym (append-nil parent.versions)
versions-add_versions path (secret ∷ rest) parent = ground (
  arith,
  versions-add_versions path rest (with_version secret parent),
  versions-add_versions path rest parent,
  append_assoc parent.versions (version_of secret ∷ [])
      (map version_of (keep (is_version_of path) rest)),
)

abbrev pub versions_at : Option ExistingSecret → List ExistingSecretVersion
versions_at none = []
versions_at (some secret) = secret.versions

-- The parent of a path, and behind it the secrets that name the path, in the order of the listing.
abbrev pub described : Text → List SwarmSecret → Option SwarmSecret → List ExistingSecretVersion
described path secrets none = []
described path secrets (some parent) =
    version_of parent ∷ map version_of (keep (is_version_of path) secrets)

described-versions :
    (path : Text) (secrets : List SwarmSecret) (o : Option SwarmSecret)
    → versions_at (versions_added path secrets (parent_at path o)) ≡ described path secrets o
unfolding parent_of
described-versions path secrets none = refl
described-versions path secrets (some parent) =
    versions-add_versions path secrets (parent_of parent path)

module _ {W : Type 0} (docker : DockerApi W) where
  map_secrets-listed :
      (w : W) (secrets : List SwarmSecret)
      → (docker.secret_list w).0 ≡ ok secrets
      → (map_secrets docker w).0 ≡ ok (collect_versions secrets (collect_secrets secrets []))
  unfolding map_secrets actions
  map_secrets-listed w secrets listing = rw listing refl

  pub lookup-map_secrets :
      (w : W) (secrets : List SwarmSecret) (m : Dict ExistingSecret) (path : Text)
      → path ≢ []
      → (docker.secret_list w).0 ≡ ok secrets
      → (map_secrets docker w).0 ≡ ok m
      → Dict.lookup path m
        ≡ versions_added path secrets (parent_at path (last_parent path secrets none))
  lookup-map_secrets w secrets m path named listing h =
      subst
        (λ d.
          Dict.lookup path d
          ≡ versions_added path secrets (parent_at path (last_parent path secrets none)))
        (ground (arith, map_secrets-listed w secrets listing))
        (lookup-collect_versions path named secrets _ _
          (lookup-collect_secrets path named secrets [] none (unfold Dict.lookup in refl)))

  -- The versions that a path, which is not empty, has in the map are the last listed secret that
  -- bears the path as its name and its label, and behind it all the secrets that are labelled with
  -- the path but named otherwise, in the order of the listing; without the former the path has no
  -- versions at all.
  pub map_secrets-described :
      (w : W) (secrets : List SwarmSecret) (m : Dict ExistingSecret) (path : Text)
      → path ≢ []
      → (docker.secret_list w).0 ≡ ok secrets
      → (map_secrets docker w).0 ≡ ok m
      → versions_at (Dict.lookup path m) ≡ described path secrets (last_parent path secrets none)
  map_secrets-described w secrets m path named listing h =
      ap versions_at (lookup-map_secrets w secrets m path named listing h)
      ∙ described-versions path secrets (last_parent path secrets none)
