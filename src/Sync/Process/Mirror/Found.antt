-- ===== src/Sync/Process/Mirror/Found.antt =====
-- What processSecret does to an external secret, on each branch, is what the program says.
use cloud_secrets.Prelude.{
  ◌≡◌, inl, inr, false, Option, none, some, arith, Bool-cases, any, ok, Text,
}
use cloud_secrets.Prelude.Exec.{Exec, bind_assoc, pure_bind, pure, ◌>>=◌, context}
use cloud_secrets.Prelude.Dict
use cloud_secrets.Prelude.Dict.{Dict}
use cloud_secrets.SecretName.{generate}
use cloud_secrets.Engine.{ExistingSecret, CreatingSecretVersion, CreatedSecretVersion}
use cloud_secrets.Providers.Contracts.{Secret}
use cloud_secrets.Sync.Payload.{Synchronizer, SyncState, Step, call, step_actions}
use cloud_secrets.Sync.Enqueue.{enqueue_updated_services, enqueue_same_version_services}
use cloud_secrets.Sync.Enqueue.Crash.{has_no_container, enqueue_services-panic}
use cloud_secrets.Sync.Process.{
  create_missing_secret, get_updated_secret_payload, skip_same_version, queue_update,
  create_updated_secret_version, process_found, latest_is, marked,
}
use cloud_secrets.Sync.Process.Mirror.{
  renewed, mirror_found, mirror_update, Mirrors, after, call-Mirrors, context-call-Mirrors,
}

module _ {W : Type 0} (s : Synchronizer W) where
  create_missing_secret-Mirrors :
      (key : Text) (external_secret : Secret) (st : SyncState W)
      → Mirrors s st
          (create_missing_secret s external_secret key st)
          (mirror_found s st.payload.swarm_secrets_map key external_secret none st.world)
  unfolding create_missing_secret step_actions
  create_missing_secret-Mirrors key external_secret st = record {
    seen = ground arith;
    services = ground arith;
  }

  skip_same_version-Mirrors :
      (swarm_secret : ExistingSecret) (st : SyncState W)
      → any has_no_container st.payload.services ≡ false
      → Mirrors s st
          (skip_same_version s swarm_secret st)
          (ok st.payload.swarm_secrets_map, st.world)
  unfolding skip_same_version enqueue_same_version_services step_actions
  skip_same_version-Mirrors swarm_secret st containers = record {
    seen = rw enqueue_services-panic (rw containers);
    services = rw enqueue_services-panic (rw containers);
  }

  queue_update-Mirrors :
      (key : Text) (external_secret : Secret) (swarm_secret : ExistingSecret)
      (version : CreatingSecretVersion) (created : CreatedSecretVersion) (st : SyncState W)
      → any has_no_container st.payload.services ≡ false
      → Mirrors s st
          (queue_update s key external_secret swarm_secret version created st)
          (ok (Dict.insert key (marked swarm_secret) st.payload.swarm_secrets_map), st.world)
  unfolding queue_update enqueue_updated_services step_actions
  queue_update-Mirrors key external_secret swarm_secret version created st containers = record {
    seen = rw enqueue_services-panic (rw containers);
    services = rw enqueue_services-panic (rw containers);
  }

  module _ (key : Text) (external_secret : Secret) (swarm_secret : ExistingSecret) where
    abbrev create_version : CreatingSecretVersion → Step W
    create_version version =
        context "create secret version" (call (s.engine.create_secret_version swarm_secret version))
        >>= queue_update s key external_secret swarm_secret version

    abbrev name_of : Exec W Text
    name_of = generate s.new_uuid external_secret.path s.folder_delimiter external_secret.version_id

    create_version-Mirrors :
        (name value : Text) (st : SyncState W)
        → any has_no_container st.payload.services ≡ false
        → Mirrors s st (create_version (renewed external_secret name value) st) (
            (context "create secret version"
                  (s.engine.create_secret_version swarm_secret (renewed external_secret name value))
                >>= λ created.
                    pure (Dict.insert key (marked swarm_secret) st.payload.swarm_secrets_map))
              st.world)
    unfolding pure
    create_version-Mirrors name value st containers =
        context-call-Mirrors s "create secret version" _ _ _ st λ created.
          queue_update-Mirrors key external_secret swarm_secret (renewed external_secret name value)
            created _ containers

    named-Mirrors :
        (value : Text) (st : SyncState W)
        → any has_no_container st.payload.services ≡ false
        → Mirrors s st
            ((call name_of
                >>= (λ name. pure (renewed external_secret name value))
                >>= create_version)
              st)
            ((name_of >>= λ name.
                context "create secret version"
                  (s.engine.create_secret_version swarm_secret (renewed external_secret name value))
                >>= λ created.
                    pure (Dict.insert key (marked swarm_secret) st.payload.swarm_secrets_map))
              st.world)
    named-Mirrors value st containers =
        rw
          (bind_assoc (call name_of) (λ name. pure (renewed external_secret name value))
            create_version st)
          (call-Mirrors s name_of _ _ st λ name.
            rw (pure_bind (renewed external_secret name value) create_version (after s name_of st))
              (create_version-Mirrors name value (after s name_of st) containers))

    create_updated_secret_version-Mirrors :
        (st : SyncState W)
        → any has_no_container st.payload.services ≡ false
        → Mirrors s st
            (create_updated_secret_version s key external_secret swarm_secret st)
            (mirror_update s st.payload.swarm_secrets_map key external_secret swarm_secret st.world)
    unfolding create_updated_secret_version get_updated_secret_payload
    create_updated_secret_version-Mirrors st containers =
        (rw
          (bind_assoc
            (context "get payload of secret"
              (call (s.secret_provider.get_secret_payload external_secret.path)))
            _ create_version st)
          (context-call-Mirrors s "get payload of secret" _ _ _ st
            λ value. named-Mirrors value _ containers))

  pub process_found-Mirrors :
      (key : Text) (external_secret : Secret) (found : Option ExistingSecret) (st : SyncState W)
      → any has_no_container st.payload.services ≡ false
      → Mirrors s st
          (process_found s key external_secret found st)
          (mirror_found s st.payload.swarm_secrets_map key external_secret found st.world)
  unfolding pure
  process_found-Mirrors key external_secret none st containers =
      create_missing_secret-Mirrors key external_secret st
  process_found-Mirrors key external_secret (some swarm_secret) st containers =
      elim (Bool-cases (latest_is swarm_secret external_secret)) [
        | inl same ↦ rw same (skip_same_version-Mirrors swarm_secret st containers)
        | inr other ↦
            rw other
              (create_updated_secret_version-Mirrors key external_secret swarm_secret st containers)
      ]
