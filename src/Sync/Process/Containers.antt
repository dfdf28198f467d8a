-- ===== src/Sync/Process/Containers.antt =====
-- What a service without a container specification, as another runtime has none, does to the step.
use cloud_secrets.Prelude.{
  ◌≡◌, refl, ◌∙◌, inl, inr, Bool, true, false, Option, none, some, [], ◌∷◌, arith, any, Bool-cases,
  ok, Text, ◌||◌,
}
use cloud_secrets.Prelude.Exec.{run_through}
use cloud_secrets.Prelude.Dict
use cloud_secrets.Prelude.Dict.{Dict}
use cloud_secrets.Engine.{ExistingSecret, CreatingSecretVersion, CreatedSecretVersion}
use cloud_secrets.Providers.Contracts.{Secret}
use cloud_secrets.Sync.Payload.{Synchronizer, SyncState, step_actions}
use cloud_secrets.Sync.Enqueue.{enqueue_updated_services, enqueue_same_version_services}
use cloud_secrets.Sync.Enqueue.Crash.{has_no_container, enqueue_services-panic}
use cloud_secrets.Sync.Process.{
  prepare_secret_path, create_missing_secret, get_updated_secret_payload, skip_same_version,
  queue_update, create_updated_secret_version, process_found, latest_is, process_external_secret,
  process_secrets, process_external_secrets,
}
use cloud_secrets.Sync.Process.Branches.{get_updated_secret_payload-IsCall, context-call-IsCall}

-- One of the listed secrets is in the Swarm, in whatever version.
abbrev pub any_in_swarm : {W : Type 0} → Synchronizer W → Dict ExistingSecret → Dict Secret → Bool
any_in_swarm s secrets [] = false
any_in_swarm s secrets ((_, external_secret) ∷ rest) =
    Dict.has (prepare_secret_path s external_secret.path) secrets || any_in_swarm s secrets rest

module _ {W : Type 0} (s : Synchronizer W) where
  abbrev pub HaveContainers : SyncState W → Type 0
  HaveContainers st = any has_no_container st.payload.services ≡ false

  skip_same_version-HaveContainers :
      (swarm_secret : ExistingSecret) (st : SyncState W)
      → (skip_same_version s swarm_secret st).0 ≡ ok tt
      → HaveContainers st
  unfolding skip_same_version enqueue_same_version_services step_actions
  skip_same_version-HaveContainers swarm_secret st h =
      elim (Bool-cases (any has_no_container st.payload.services)) [
        | inl lacking ↦
            let run = rw enqueue_services-panic at h in
            let crash = rw lacking at run in absurd (cc crash)
        | inr fine ↦ fine
      ]

  queue_update-HaveContainers :
      (key : Text) (external_secret : Secret) (swarm_secret : ExistingSecret)
      (version : CreatingSecretVersion) (created : CreatedSecretVersion) (st : SyncState W)
      → (queue_update s key external_secret swarm_secret version created st).0 ≡ ok tt
      → HaveContainers st
  unfolding queue_update enqueue_updated_services step_actions
  queue_update-HaveContainers key external_secret swarm_secret version created st h =
      elim (Bool-cases (any has_no_container st.payload.services)) [
        | inl lacking ↦
            let run = rw enqueue_services-panic at h in let crash = rw lacking at run in absurd cc
        | inr fine ↦ fine
      ]

  create_updated_secret_version-HaveContainers :
      (key : Text) (external_secret : Secret) (swarm_secret : ExistingSecret) (st : SyncState W)
      → (create_updated_secret_version s key external_secret swarm_secret st).0 ≡ ok tt
      → HaveContainers st
  unfolding create_updated_secret_version
  create_updated_secret_version-HaveContainers key external_secret swarm_secret st h =
      let got = run_through (get_updated_secret_payload s external_secret) _ st tt h in
      let got_kept = get_updated_secret_payload-IsCall s external_secret st in
      let made =
        run_through _ (queue_update s key external_secret swarm_secret got.0) _ tt
          (rw got.2 at h) in
      let made_kept =
        context-call-IsCall "create secret version"
          (s.engine.create_secret_version swarm_secret got.0)
          (get_updated_secret_payload s external_secret st).1 in
      let fine =
        queue_update-HaveContainers key external_secret swarm_secret got.0 made.0 _
          (rw made.2 at (rw got.2 at h)) in
      rw (made_kept.0 ∙ got_kept.0) at fine

  found-HaveContainers :
      (key : Text) (external_secret : Secret) (swarm_secret : ExistingSecret) (st : SyncState W)
      → (process_found s key external_secret (some swarm_secret) st).0 ≡ ok tt
      → HaveContainers st
  found-HaveContainers key external_secret swarm_secret st h =
      elim (Bool-cases (latest_is swarm_secret external_secret)) [
        | inl e ↦ skip_same_version-HaveContainers swarm_secret st (rw e at h)
        | inr e ↦
            create_updated_secret_version-HaveContainers key external_secret swarm_secret st
              (rw e at h)
      ]

  create_missing_secret-same :
      (external_secret : Secret) (key : Text) (st : SyncState W)
      → (create_missing_secret s external_secret key st).0 ≡ ok tt
      → let st' = (create_missing_secret s external_secret key st).1 in
        (st'.payload.services ≡ st.payload.services)
        × (st'.payload.swarm_secrets_map ≡ st.payload.swarm_secrets_map)
  unfolding create_missing_secret step_actions
  create_missing_secret-same external_secret key st h = (ground arith, ground arith)

  -- The step on the first secret, with what was found of it, and on the others.
  found_first :
      (external_secret : Secret) (key : Text) (rest : Dict Secret) (o : Option ExistingSecret)
      (st : SyncState W)
      → Dict.lookup key st.payload.swarm_secrets_map ≡ o
      → (process_found s key external_secret o st).0 ≡ ok tt
      → ((st' : SyncState W)
          → st' ≡ (process_found s key external_secret o st).1
          → any_in_swarm s st'.payload.swarm_secrets_map rest ≡ true
          → HaveContainers st')
      → Dict.has key st.payload.swarm_secrets_map
          || any_in_swarm s st.payload.swarm_secrets_map rest
        ≡ true
      → HaveContainers st
  unfolding Dict.has
  found_first external_secret key rest none st found h ih here =
      let same = create_missing_secret-same external_secret key st h in
      let later : any_in_swarm s st.payload.swarm_secrets_map rest ≡ true = ground arith in
      let fine = ih _ refl (rw same.1 later) in rw same.0 at fine
  found_first external_secret key rest (some swarm_secret) st found h ih here =
      found-HaveContainers key external_secret swarm_secret st h

  process_secrets-HaveContainers :
      (external_secrets : Dict Secret) (st : SyncState W)
      → any_in_swarm s st.payload.swarm_secrets_map external_secrets ≡ true
      → (process_secrets s external_secrets st).0 ≡ ok tt
      → HaveContainers st
  unfolding process_secrets process_external_secret
  process_secrets-HaveContainers [] st here h = cc
  process_secrets-HaveContainers ((_, external_secret) ∷ rest) st here h =
      let first = run_through (process_external_secret s external_secret) _ st tt h in
      found_first external_secret (prepare_secret_path s external_secret.path) rest _ st refl
        first.1
        (λ st' e among. process_secrets-HaveContainers rest st' among (rw e (rw first.2 at h))) here

  pub process_external_secrets-HaveContainers :
      (st : SyncState W)
      → any_in_swarm s st.payload.swarm_secrets_map st.payload.external_secrets ≡ true
      → (process_external_secrets s st).0 ≡ ok tt
      → HaveContainers st
  unfolding process_external_secrets
  process_external_secrets-HaveContainers st here h =
      process_secrets-HaveContainers st.payload.external_secrets st here h
