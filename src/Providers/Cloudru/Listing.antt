-- ===== src/Providers/Cloudru/Listing.antt =====
-- What ListSecrets of Cloud.ru makes of the secrets that the service returns.
use cloud_secrets.Prelude.{
  ◌≡◌, refl, Bool-cases, inl, inr, Option, none, some, List, [], ◌∷◌, arith, if◌then◌else◌, Result,
  ok, err, panic, Text, ◌==◌,
}
use cloud_secrets.Prelude.Dict
use cloud_secrets.Prelude.Dict.{Dict}
use cloud_secrets.Prelude.Exec.{run_ok, lift}
use cloud_secrets.Providers.Contracts.{Secret}
use cloud_secrets.Providers.Cloudru.{
  Config, CloudSecret, SecretService, secret_latest_version_id, scope_secret_path, map_scoped,
  map_versioned, map_secret, collect_mapped, collect, list_secrets,
}

-- A secret of the service and its entry: the first enabled version, and the path below the root.
pub record IsEntry (cfg : Config) (secret : CloudSecret) (entry : Secret) : Type 0 where
  pub full_path : entry.full_path ≡ secret.path
  pub description : entry.description ≡ secret.description
  pub version : secret_latest_version_id secret.versions ≡ some entry.version_id
  pub scoped : scope_secret_path cfg secret.path ≡ ok entry.path

-- The last secret at a path, if there is one, or else the one before.
abbrev pub last_at : Text → List CloudSecret → Option CloudSecret → Option CloudSecret
last_at path [] before = before
last_at path (secret ∷ rest) before =
    last_at path rest (if secret.path == path then some secret else before)

abbrev pub Described : Config → Option CloudSecret → Option Secret → Type 0
Described cfg none o = o ≡ none
Described cfg (some secret) o = (entry : Secret) × (o ≡ some entry) × IsEntry cfg secret entry

map_scoped-IsEntry :
    (cfg : Config) (secret : CloudSecret) (version : Text) (r : Result Text) (entry : Secret)
    → secret_latest_version_id secret.versions ≡ some version
    → scope_secret_path cfg secret.path ≡ r
    → map_scoped secret version r ≡ ok entry
    → IsEntry cfg secret entry
map_scoped-IsEntry cfg secret version (ok scoped) entry v s h = record {
  full_path = ground arith;
  description = ground arith;
  version = ground arith;
  scoped = ground arith;
}
map_scoped-IsEntry cfg secret version (err e) entry v s h = cc
map_scoped-IsEntry cfg secret version panic entry v s h = cc

map_versioned-IsEntry :
    (cfg : Config) (secret : CloudSecret) (version : Option Text) (entry : Secret)
    → secret_latest_version_id secret.versions ≡ version
    → map_versioned cfg secret version ≡ ok entry
    → IsEntry cfg secret entry
map_versioned-IsEntry cfg secret none entry v h = cc
map_versioned-IsEntry cfg secret (some version) entry v h =
    map_scoped-IsEntry cfg secret version (scope_secret_path cfg secret.path) entry v refl h

map_secret-IsEntry :
    (cfg : Config) (secret : CloudSecret) (entry : Secret)
    → map_secret cfg secret ≡ ok entry
    → IsEntry cfg secret entry
unfolding map_secret
map_secret-IsEntry cfg secret entry h =
    map_versioned-IsEntry cfg secret (secret_latest_version_id secret.versions) entry refl h

collect_mapped-ok :
    (rest : Secret → Result (Dict Secret)) (r : Result Secret) (d : Dict Secret)
    → collect_mapped rest r ≡ ok d
    → (entry : Secret) × (r ≡ ok entry) × (rest entry ≡ ok d)
collect_mapped-ok rest (ok entry) d h = (entry, refl, h)
collect_mapped-ok rest (err e) d h = cc
collect_mapped-ok rest panic d h = cc

insert-Described :
    (cfg : Config) (path : Text) (secret : CloudSecret) (entry : Secret)
    (before : Option CloudSecret) (d : Dict Secret)
    → IsEntry cfg secret entry
    → Described cfg before (Dict.lookup path d)
    → Described cfg
        (if secret.path == path then some secret else before)
        (Dict.lookup path (Dict.insert secret.path entry d))
insert-Described cfg path secret entry before d e described =
    rw (Dict.lookup-insert path secret.path entry d) (elim (Bool-cases (secret.path == path)) [
      | inl same ↦ rw same (entry, refl, e)
      | inr other ↦ rw other described
    ])

collect-Described :
    (cfg : Config) (path : Text) (secrets : List CloudSecret) (before : Option CloudSecret)
    (d d' : Dict Secret)
    → Described cfg before (Dict.lookup path d)
    → collect cfg secrets d ≡ ok d'
    → Described cfg (last_at path secrets before) (Dict.lookup path d')
unfolding collect
collect-Described cfg path [] before d d' described h =
    let same : d ≡ d' = ground arith in rw (← same) described
collect-Described cfg path (secret ∷ rest) before d d' described h =
    let mapped =
      collect_mapped-ok (λ entry. collect cfg rest (Dict.insert secret.path entry d))
        (map_secret cfg secret) d' h in
    collect-Described cfg path rest _ (Dict.insert secret.path mapped.0 d) d'
      (insert-Described cfg path secret mapped.0 before d
        (map_secret-IsEntry cfg secret mapped.0 mapped.1) described)
      mapped.2

-- A listing that succeeds has, under every path, an entry for the last secret that the service
-- returns there, and none if it returns none: with the secret's path and description, its first
-- enabled version, and its path below the root folder.
pub list_secrets-Described :
    {W : Type 0} (cfg : Config) (service : SecretService W) (w : W) (d : Dict Secret)
    → (list_secrets cfg service w).0 ≡ ok d
    → (secrets : List CloudSecret) × ((service.search cfg.project_id cfg.root_folder w).0
        ≡ ok secrets)
      × ((path : Text) → Described cfg (last_at path secrets none) (Dict.lookup path d))
unfolding list_secrets lift
list_secrets-Described cfg service w d h =
    let run = run_ok (service.search cfg.project_id cfg.root_folder) _ w d h in
    (
      run.0,
      run.1,
      λ path. collect-Described cfg path run.0 none [] d (unfold Dict.lookup in refl) run.2,
    )
