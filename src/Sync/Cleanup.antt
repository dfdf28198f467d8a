-- ===== src/Sync/Cleanup.antt =====
-- The orphans of payload.go, and step7_cleanup_orphaned_secrets.go. The log lines are left out.
pub mod Orphans
use cloud_secrets.Prelude.{
  Option, none, some, true, none, some, List, [], ◌∷◌, not, if◌then◌else◌, Text,
}
use cloud_secrets.Prelude.Dict
use cloud_secrets.Prelude.Dict.{Dict, TextSet}
use cloud_secrets.Prelude.Exec.{pure, context}
use cloud_secrets.Strings.{replace_all}
use cloud_secrets.Engine.{Service, SecretReference, ExistingSecret, ExistingSecretVersion}
use cloud_secrets.Providers.Contracts.{Secret}
use cloud_secrets.Sync.Payload.{Synchronizer, SyncPayload, SecretVersionRemoval, Step}
use cloud_secrets.Sync.Remove.{remove_old_versions}

-- The loop over the versions of one secret.
unfoldable pub index_versions : Text → List ExistingSecretVersion → Dict Text → Dict Text
unfolding Dict.insert
index_versions path [] d = d
index_versions path (version ∷ rest) d = index_versions path rest (Dict.insert version.id path d)

unfoldable pub index_secrets : Dict ExistingSecret → Dict Text → Dict Text
unfolding index_versions
index_secrets [] d = d
index_secrets ((path, secret) ∷ rest) d = index_secrets rest (index_versions path secret.versions d)

unfoldable pub secret_path_by_id : SyncPayload → Dict Text
unfolding index_secrets
secret_path_by_id p = index_secrets p.swarm_secrets_map []

-- `usedPaths[path] = struct{}{}` for a known ID.
abbrev pub use_reference : Option Text → TextSet → TextSet
use_reference none used = used
use_reference (some path) used = Dict.insert path tt used

-- The loop over the references of one container.
unfoldable pub use_references : Dict Text → List SecretReference → TextSet → TextSet
unfolding Dict.insert Dict.lookup
use_references path_by_id [] used = used
use_references path_by_id (ref ∷ refs) used =
    use_references path_by_id refs (use_reference (Dict.lookup ref.secret_id path_by_id) used)

-- A service without a container specification is passed over.
abbrev pub use_container : Dict Text → Option (List SecretReference) → TextSet → TextSet
use_container path_by_id none used = used
use_container path_by_id (some refs) used = use_references path_by_id refs used

unfoldable pub use_services : Dict Text → List Service → TextSet → TextSet
unfolding use_references
use_services path_by_id [] used = used
use_services path_by_id (service ∷ services) used =
    use_services path_by_id services (use_container path_by_id service.container_spec used)

unfoldable pub used_secret_paths : SyncPayload → TextSet
unfolding secret_path_by_id use_services
used_secret_paths p = use_services (secret_path_by_id p) p.services []

unfoldable pub collect_paths : Text → Dict Secret → TextSet → TextSet
unfolding replace_all Dict.insert
collect_paths folder_delimiter [] paths = paths
collect_paths folder_delimiter ((_, secret) ∷ rest) paths =
    collect_paths folder_delimiter rest
      (Dict.insert (replace_all b'/' folder_delimiter secret.path) tt paths)

unfoldable pub external_secret_paths : SyncPayload → Text → TextSet
unfolding collect_paths
external_secret_paths p folder_delimiter = collect_paths folder_delimiter p.external_secrets []

-- The loop of `orphanedManagedSecretRemovals`.
unfoldable pub orphans : TextSet → TextSet → Dict ExistingSecret → List SecretVersionRemoval
unfolding Dict.has
orphans used existing [] = []
orphans used existing ((path, secret) ∷ rest) =
    let others = orphans used existing rest in
    if not secret.managed
    then others
    else if Dict.has path used
    then others
    else if Dict.has path existing
    then others
    else record { secret = secret; remove_parent = true } ∷ others

unfoldable pub orphaned_managed_secret_removals : SyncPayload → Text → List SecretVersionRemoval
unfolding used_secret_paths external_secret_paths orphans
orphaned_managed_secret_removals p folder_delimiter =
    orphans (used_secret_paths p) (external_secret_paths p folder_delimiter) p.swarm_secrets_map

abbrev pub clean : {W : Type 0} → Synchronizer W → List SecretVersionRemoval → Step W
clean s [] = pure tt
clean s (removal ∷ rest) =
    context "cleanup orphaned secrets" (remove_old_versions s (removal ∷ rest))

unfoldable pub cleanup_orphaned_secrets : {W : Type 0} → Synchronizer W → Step W
unfolding orphaned_managed_secret_removals remove_old_versions
cleanup_orphaned_secrets s st =
    clean s (orphaned_managed_secret_removals st.payload s.folder_delimiter) st
