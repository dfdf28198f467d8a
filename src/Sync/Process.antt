-- ===== src/Sync/Process.antt =====
-- step3_process_secrets.go: each external secret is compared with its Swarm secret. The log lines
-- are left out.
pub mod Branches
pub mod Quiet
pub mod Tally
pub mod Containers
pub mod Names
pub mod Mirror
use cloud_secrets.Prelude.{
  Bool, ◌+◌, true, false, Option, none, some, [], ◌∷◌, ◌++◌, ◌&&◌, length, ltb, if◌then◌else◌, Text,
  ◌==◌,
}
use cloud_secrets.Prelude.Dict
use cloud_secrets.Prelude.Dict.{Dict}
use cloud_secrets.Prelude.Exec.{Exec, pure, lift, context, ◌>>=◌, ◌>>◌}
use cloud_secrets.Strings.{replace_all}
use cloud_secrets.SecretName.{generate}
use cloud_secrets.Engine.{
  ExistingSecret, CreatingSecretVersion, CreatedSecretVersion, latest_version,
}
use cloud_secrets.Providers.Contracts.{Secret}
use cloud_secrets.Metrics.{inc_created, inc_updated}
use cloud_secrets.Sync.Payload.{
  Synchronizer, SyncState, SyncPayload, Step, call, modify, reads, count,
}
use cloud_secrets.Sync.Enqueue.{enqueue_same_version_services, enqueue_updated_services}

-- `swarmSecret.Managed = true` is written through the pointer that the map holds.
abbrev pub marked : ExistingSecret → ExistingSecret
marked swarm_secret = record swarm_secret { managed = true }

-- What follows the creation of the version: removal of the old ones, service updates, restore.
abbrev pub with_removal : Text → ExistingSecret → SyncPayload → SyncPayload
with_removal key swarm_secret p = record p {
  swarm_secrets_map = Dict.insert key (marked swarm_secret) p.swarm_secrets_map;
  pending_version_removals =
      p.pending_version_removals
      ++ record { secret = marked swarm_secret; remove_parent = true } ∷ [];
}

-- `swarmSecret.LatestVersion().ExternalID == externalSecret.VersionID`
abbrev pub latest_is : ExistingSecret → Secret → Bool
latest_is swarm_secret external_secret =
    (latest_version swarm_secret).external_id == external_secret.version_id

module _ {W : Type 0} (s : Synchronizer W) where
  unfoldable pub prepare_secret_path : Text → Text
  unfolding replace_all
  prepare_secret_path path = replace_all b'/' s.folder_delimiter path

  unfoldable pub create_missing_secret : Secret → Text → Step W
  create_missing_secret external_secret fixed_secret_path = do
    payload ←
        context "get payload of secret"
          (call (s.secret_provider.get_secret_payload external_secret.path))
    context "create secret" (
        call (
          s.engine.create_secret (record {
            path = fixed_secret_path;
            value = payload;
            description = external_secret.description;
            external_path = external_secret.full_path;
            external_version_id = external_secret.version_id;
          })))
    modify (λ p. record p { result = record p.result { created = p.result.created + 1 } })
    count inc_created

  unfoldable pub get_updated_secret_payload : Secret → Exec (SyncState W) CreatingSecretVersion
  unfolding generate
  get_updated_secret_payload external_secret = do
    payload ←
        context "get payload of secret"
          (call (s.secret_provider.get_secret_payload external_secret.path))
    path ←
        call
          (generate s.new_uuid external_secret.path s.folder_delimiter external_secret.version_id)
    pure (record {
      path = path;
      description = external_secret.description;
      external_id = external_secret.version_id;
      value = payload;
    })

  -- The part of `createUpdatedSecretVersion` behind the call.
  unfoldable pub queue_update :
      Text → Secret → ExistingSecret → CreatingSecretVersion → CreatedSecretVersion → Step W
  unfolding enqueue_updated_services
  queue_update key external_secret swarm_secret secret_payload created_version = do
    modify (with_removal key swarm_secret)
    services ← reads (λ p. p.services)
    before ← reads (λ p. p.pending)
    after ← lift (enqueue_updated_services services (marked swarm_secret) created_version before)
    modify (λ p. record p {
      pending = after;
      pending_secret_restores =
          p.pending_secret_restores
          ++ record {
            path = swarm_secret.path;
            value = secret_payload.value;
            description = external_secret.description;
            external_path = external_secret.full_path;
            external_id = external_secret.version_id;
          }
            ∷ [];
      result = record p.result { updated = p.result.updated + 1 };
    })
    count inc_updated

  unfoldable pub create_updated_secret_version : Text → Secret → ExistingSecret → Step W
  unfolding get_updated_secret_payload queue_update
  create_updated_secret_version key external_secret swarm_secret = do
    secret_payload ← get_updated_secret_payload external_secret
    created_version ←
        context "create secret version"
          (call (s.engine.create_secret_version swarm_secret secret_payload))
    queue_update key external_secret swarm_secret secret_payload created_version

  -- The same external version: services that still use an older version are moved to the parent,
  -- and further versions of a managed secret are removed.
  unfoldable pub skip_same_version : ExistingSecret → Step W
  unfolding enqueue_same_version_services
  skip_same_version swarm_secret = do
    services ← reads (λ p. p.services)
    before ← reads (λ p. p.pending)
    after ← lift (enqueue_same_version_services services swarm_secret before)
    modify (λ p. record p {
      pending = after;
      pending_version_removals =
          if swarm_secret.managed && ltb 1 (length swarm_secret.versions)
          then p.pending_version_removals
            ++ record { secret = swarm_secret; remove_parent = false } ∷ []
          else p.pending_version_removals;
      result = record p.result { skipped = p.result.skipped + 1 };
    })

  abbrev pub process_found : Text → Secret → Option ExistingSecret → Step W
  process_found key external_secret none = create_missing_secret external_secret key
  process_found key external_secret (some swarm_secret) =
      if latest_is swarm_secret external_secret
      then skip_same_version swarm_secret
      else create_updated_secret_version key external_secret swarm_secret

  unfoldable pub process_external_secret : Secret → Step W
  unfolding prepare_secret_path Dict.lookup create_missing_secret skip_same_version
      create_updated_secret_version latest_version
  process_external_secret external_secret st =
      let key = prepare_secret_path external_secret.path in
      process_found key external_secret (Dict.lookup key st.payload.swarm_secrets_map) st

  unfoldable pub process_secrets : Dict Secret → Step W
  unfolding process_external_secret
  process_secrets [] = pure tt
  process_secrets ((_, external_secret) ∷ rest) =
      process_external_secret external_secret >> process_secrets rest

  unfoldable pub process_external_secrets : Step W
  unfolding process_secrets
  process_external_secrets st = process_secrets st.payload.external_secrets st
