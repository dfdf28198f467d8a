-- ===== src/Sync/Pipeline/Unremoved.antt =====
-- The steps up to the rollout keep whatever no call but `RemoveSecret` can break.
use cloud_secrets.Prelude.{Option, none, some, List, [], ◌∷◌, Text}
use cloud_secrets.Prelude.Dict.{Dict}
use cloud_secrets.Prelude.Exec.{Exec}
use cloud_secrets.Prelude.Exec.Keeps.{
  Keeps, Keeps-pure, keeps_rules, Keeps-if, Keeps-bind, Keeps-context,
}
use cloud_secrets.SecretName.{generate}
use cloud_secrets.Engine.{
  CreatingSecret, ExistingSecret, CreatingSecretVersion, CreatedSecretVersion, Service,
  SecretReference,
}
use cloud_secrets.Providers.Contracts.{Secret}
use cloud_secrets.Metrics.{Secrets}
use cloud_secrets.Sync.Payload.{
  Synchronizer, SyncState, SyncPayload, ServiceTask, call, modify, reads, count,
}
use cloud_secrets.Sync.Load.{load_swarm_state, load_external_state}
use cloud_secrets.Sync.Process.{
  queue_update, create_missing_secret, get_updated_secret_payload, skip_same_version,
  create_updated_secret_version, process_found, latest_is, process_external_secret, process_secrets,
  process_external_secrets,
}
use cloud_secrets.Sync.Apply.{
  apply_from, apply_container, apply_found, apply_task, apply_tasks, apply_service_updates,
}

-- Every call of the clients but `RemoveSecret` keeps `Q`.
pub record KeptWithoutRemoval {W : Type 0} (s : Synchronizer W) (Q : W → Type 0) : Type 0 where
  pub list_services : Keeps Q s.engine.list_services
  pub map_secrets : Keeps Q s.engine.map_secrets
  pub update_service : (service : Service) → Keeps Q (s.engine.update_service service)
  pub create_secret : (spec : CreatingSecret) → Keeps Q (s.engine.create_secret spec)
  pub create_secret_version :
      (secret : ExistingSecret) (version : CreatingSecretVersion)
      → Keeps Q (s.engine.create_secret_version secret version)
  pub list_secrets : Keeps Q s.secret_provider.list_secrets
  pub get_secret_payload : (path : Text) → Keeps Q (s.secret_provider.get_secret_payload path)
  pub new_uuid : Keeps Q s.new_uuid

-- `Q` holds of the world of a run.
pub record InWorld {W : Type 0} (Q : W → Type 0) (st : SyncState W) : Type 0 where
  pub at_world : Q st.world

module _ {W : Type 0} {Q : W → Type 0} where
  Keeps-call : {A : Type 0} (m : Exec W A) → Keeps Q m → Keeps (InWorld Q) (call m)
  unfolding call
  Keeps-call m k = record { at = λ st h. record { at_world = k.at st.world h.at_world } }

  Keeps-modify : (f : SyncPayload → SyncPayload) → Keeps (InWorld Q) (modify f)
  unfolding modify
  Keeps-modify f = record { at = λ st h. record { at_world = h.at_world } }

  Keeps-reads : {A : Type 0} (f : SyncPayload → A) → Keeps (InWorld Q) (reads f)
  unfolding reads
  Keeps-reads f = record { at = λ st h. record { at_world = h.at_world } }

  Keeps-count : (f : Secrets → Secrets) → Keeps (InWorld Q) (count f)
  unfolding count
  Keeps-count f = record { at = λ st h. record { at_world = h.at_world } }

ruleset world_rules = (keeps_rules, Keeps-call, Keeps-modify, Keeps-reads, Keeps-count)

module _ {W : Type 0} (s : Synchronizer W) {Q : W → Type 0} (k : KeptWithoutRemoval s Q) where
  pub load_swarm_state-Keeps : Keeps (InWorld Q) (load_swarm_state s)
  unfolding load_swarm_state
  load_swarm_state-Keeps =
      Keeps-bind _ _ (Keeps-context _ _ (Keeps-call _ k.list_services)) λ services.
        Keeps-bind _ _ (Keeps-context _ _ (Keeps-call _ k.map_secrets))
          λ swarm_secrets_map. Keeps-modify _

  pub load_external_state-Keeps : Keeps (InWorld Q) (load_external_state s)
  unfolding load_external_state
  load_external_state-Keeps =
      Keeps-bind _ _ (Keeps-context _ _ (Keeps-call _ k.list_secrets)) λ secrets. Keeps-modify _

  create_missing_secret-Keeps :
      (external_secret : Secret) (path : Text)
      → Keeps (InWorld Q) (create_missing_secret s external_secret path)
  unfolding create_missing_secret
  create_missing_secret-Keeps external_secret path =
      search (world_rules, k.get_secret_payload, k.create_secret) depth 12

  generate-Keeps :
      (path delimiter version : Text) → Keeps Q (generate s.new_uuid path delimiter version)
  unfolding generate
  generate-Keeps path delimiter version = Keeps-if _ k.new_uuid (Keeps-pure _)

  get_updated_secret_payload-Keeps :
      (external_secret : Secret) → Keeps (InWorld Q) (get_updated_secret_payload s external_secret)
  unfolding get_updated_secret_payload
  get_updated_secret_payload-Keeps external_secret =
      search (world_rules, k.get_secret_payload, generate-Keeps) depth 12

  skip_same_version-Keeps :
      (swarm_secret : ExistingSecret) → Keeps (InWorld Q) (skip_same_version s swarm_secret)
  unfolding skip_same_version
  skip_same_version-Keeps swarm_secret = search world_rules depth 12

  queue_update-Keeps :
      (key : Text) (external_secret : Secret) (swarm_secret : ExistingSecret)
      (version : CreatingSecretVersion) (created : CreatedSecretVersion)
      → Keeps (InWorld Q) (queue_update s key external_secret swarm_secret version created)
  unfolding queue_update
  queue_update-Keeps key external_secret swarm_secret version created = search world_rules depth 16

  create_updated_secret_version-Keeps :
      (key : Text) (external_secret : Secret) (swarm_secret : ExistingSecret)
      → Keeps (InWorld Q) (create_updated_secret_version s key external_secret swarm_secret)
  unfolding create_updated_secret_version
  create_updated_secret_version-Keeps key external_secret swarm_secret =
      search
        (world_rules, get_updated_secret_payload-Keeps, queue_update-Keeps, k.create_secret_version)
        depth 16

  process_found-Keeps :
      (key : Text) (external_secret : Secret) (o : Option ExistingSecret)
      → Keeps (InWorld Q) (process_found s key external_secret o)
  process_found-Keeps key external_secret none = create_missing_secret-Keeps external_secret key
  process_found-Keeps key external_secret (some swarm_secret) =
      Keeps-if (latest_is swarm_secret external_secret) (skip_same_version-Keeps swarm_secret)
        (create_updated_secret_version-Keeps key external_secret swarm_secret)

  process_external_secret-Keeps :
      (external_secret : Secret) → Keeps (InWorld Q) (process_external_secret s external_secret)
  unfolding process_external_secret
  process_external_secret-Keeps external_secret = record {
    at = λ st h. (process_found-Keeps _ external_secret _).at st h;
  }

  process_secrets-Keeps : (secrets : Dict Secret) → Keeps (InWorld Q) (process_secrets s secrets)
  unfolding process_secrets
  process_secrets-Keeps [] = search keeps_rules
  process_secrets-Keeps ((_, external_secret) ∷ rest) =
      Keeps-bind _ _ (process_external_secret-Keeps external_secret)
        (λ _. process_secrets-Keeps rest)

  pub process_external_secrets-Keeps : Keeps (InWorld Q) (process_external_secrets s)
  unfolding process_external_secrets
  process_external_secrets-Keeps = record {
    at = λ st h. (process_secrets-Keeps st.payload.external_secrets).at st h;
  }

  apply_container-Keeps :
      (id : Text) (task : ServiceTask) (c : Option (List SecretReference))
      → Keeps (InWorld Q) (apply_container s id task c)
  apply_container-Keeps id task none = search keeps_rules
  apply_container-Keeps id task (some refs) = search (world_rules, k.update_service) depth 12

  apply_found-Keeps : (id : Text) (o : Option ServiceTask) → Keeps (InWorld Q) (apply_found s id o)
  apply_found-Keeps id none = search keeps_rules
  apply_found-Keeps id (some task) = apply_container-Keeps id task task.service.container_spec

  apply_task-Keeps : (id : Text) → Keeps (InWorld Q) (apply_task s id)
  unfolding apply_task
  apply_task-Keeps id = record { at = λ st h. (apply_found-Keeps id _).at st h }

  apply_tasks-Keeps : (ids : List Text) → Keeps (InWorld Q) (apply_tasks s ids)
  unfolding apply_tasks
  apply_tasks-Keeps [] = search keeps_rules
  apply_tasks-Keeps (id ∷ rest) = Keeps-bind _ _ (apply_task-Keeps id) (λ _. apply_tasks-Keeps rest)

  apply_from-Keeps : (p : SyncPayload) → Keeps (InWorld Q) (apply_from s p)
  apply_from-Keeps p = search (keeps_rules, apply_tasks-Keeps)

  pub apply_service_updates-Keeps : Keeps (InWorld Q) (apply_service_updates s)
  unfolding apply_service_updates
  apply_service_updates-Keeps = record { at = λ st h. (apply_from-Keeps st.payload).at st h }
