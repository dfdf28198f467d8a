-- ===== src/Sync/Process/Branches.antt =====
-- What processing one external secret does on each branch.
use cloud_secrets.Prelude.{
  String, ◌+◌, ◌≡◌, ◌∙◌, refl, Bool, true, false, Option, none, some, [], ◌∷◌, ◌++◌, ◌&&◌, length,
  ltb, any, Text, Error, Result, ok, err, panic, if◌then◌else◌, arith,
}
use cloud_secrets.Prelude.Dict
use cloud_secrets.Prelude.Exec.{Exec, context, continue, ◌>>=◌}
use cloud_secrets.SecretName.{generate}
use cloud_secrets.Engine.{ExistingSecret, CreatingSecretVersion, CreatedSecretVersion}
use cloud_secrets.Providers.Contracts.{Secret}
use cloud_secrets.Sync.Payload.{Synchronizer, SyncState, Step, call, step_actions}
use cloud_secrets.Sync.Enqueue.{
  is_stale, secret_reference_uses_managed_secret, enqueue_updated_services,
  enqueue_same_version_services,
}
use cloud_secrets.Sync.Enqueue.Crash.{has_no_container, enqueue_all, enqueue_services-panic}
use cloud_secrets.Sync.Process.{
  prepare_secret_path, create_missing_secret, get_updated_secret_payload, skip_same_version,
  queue_update, create_updated_secret_version, process_found, latest_is, marked,
  process_external_secret,
}

-- An action that changes the payload and the metrics only if it does not fail.
abbrev IsAtomic : {W : Type 0} → Step W → Type 0
IsAtomic {W} m =
    (st : SyncState W) (e : Error)
    → (m st).0 ≡ err e
    → ((m st).1.payload ≡ st.payload) × ((m st).1.metrics ≡ st.metrics)

-- An action that changes the world alone.
abbrev IsCall : {W A : Type 0} → Exec (SyncState W) A → Type 0
IsCall {W} m =
    (st : SyncState W) → ((m st).1.payload ≡ st.payload) × ((m st).1.metrics ≡ st.metrics)

module _ {W A : Type 0} where
  continue_atomic :
      (r : Result A) (f : A → Step W) (st st' : SyncState W) (e : Error)
      → ((a : A) → IsAtomic (f a))
      → (st'.payload ≡ st.payload) × (st'.metrics ≡ st.metrics)
      → (continue r f st').0 ≡ err e
      → ((continue r f st').1.payload ≡ st.payload) × ((continue r f st').1.metrics ≡ st.metrics)
  continue_atomic (ok a) f st st' e k same h =
      let rest = k a st' e h in (rest.0 ∙ same.0, rest.1 ∙ same.1)
  continue_atomic (err x) f st st' e k same h = same
  continue_atomic panic f st st' e k same h = same

  IsAtomic-bind :
      (m : Exec (SyncState W) A) (f : A → Step W)
      → IsCall m
      → ((a : A) → IsAtomic (f a))
      → IsAtomic (m >>= f)
  unfolding ◌>>=◌
  IsAtomic-bind m f call k st e h = continue_atomic (m st).0 f st (m st).1 e k (call st) h

pub context-call-IsCall : {W A : Type 0} (w : String) (m : Exec W A) → IsCall (context w (call m))
unfolding step_actions
context-call-IsCall w m st = (refl, refl)

module _ {W : Type 0} (s : Synchronizer W) where
  create_missing_secret-IsAtomic :
      (external_secret : Secret) (path : Text)
      → IsAtomic (create_missing_secret s external_secret path)
  unfolding create_missing_secret step_actions
  create_missing_secret-IsAtomic external_secret path st e h = ground arith

  skip_same_version-IsAtomic :
      (swarm_secret : ExistingSecret) → IsAtomic (skip_same_version s swarm_secret)
  unfolding skip_same_version enqueue_same_version_services step_actions
  skip_same_version-IsAtomic swarm_secret st e h = ground (
    arith,
    enqueue_services-panic (is_stale swarm_secret)
        (record { name = swarm_secret.path; id = swarm_secret.id }) st.payload.services
        st.payload.pending,
  )

  queue_update-IsAtomic :
      (key : Text) (external_secret : Secret) (swarm_secret : ExistingSecret)
      (version : CreatingSecretVersion) (created : CreatedSecretVersion)
      → IsAtomic (queue_update s key external_secret swarm_secret version created)
  unfolding queue_update enqueue_updated_services step_actions
  queue_update-IsAtomic key external_secret swarm_secret version created st e h = ground (
    arith,
    enqueue_services-panic (λ ref. secret_reference_uses_managed_secret ref (marked swarm_secret))
        (record { name = created.name; id = created.id }) st.payload.services st.payload.pending,
  )

  pub get_updated_secret_payload-IsCall :
      (external_secret : Secret) → IsCall (get_updated_secret_payload s external_secret)
  unfolding get_updated_secret_payload generate step_actions
  get_updated_secret_payload-IsCall external_secret st = ground arith

  create_updated_secret_version-IsAtomic :
      (key : Text) (external_secret : Secret) (swarm_secret : ExistingSecret)
      → IsAtomic (create_updated_secret_version s key external_secret swarm_secret)
  unfolding create_updated_secret_version
  create_updated_secret_version-IsAtomic key external_secret swarm_secret =
      IsAtomic-bind _ _ (get_updated_secret_payload-IsCall external_secret) λ version.
        IsAtomic-bind _ _ (context-call-IsCall _ _)
          (queue_update-IsAtomic key external_secret swarm_secret version)

  process_found-IsAtomic :
      (key : Text) (external_secret : Secret) (o : Option ExistingSecret)
      → IsAtomic (process_found s key external_secret o)
  process_found-IsAtomic key external_secret none =
      create_missing_secret-IsAtomic external_secret key
  process_found-IsAtomic key external_secret (some swarm_secret) =
      chosen (latest_is swarm_secret external_secret)
    where
      chosen :
          (b : Bool)
          → IsAtomic (
              if b
              then skip_same_version s swarm_secret
              else create_updated_secret_version s key external_secret swarm_secret)
      chosen true = skip_same_version-IsAtomic swarm_secret
      chosen false = create_updated_secret_version-IsAtomic key external_secret swarm_secret

  -- An external secret whose processing fails leaves no trace but in the world: nothing is queued
  -- or counted for it, and the Swarm secrets in memory stay.
  pub process_external_secret_failed :
      (external_secret : Secret) (st : SyncState W) (e : Error)
      → (process_external_secret s external_secret st).0 ≡ err e
      → ((process_external_secret s external_secret st).1.payload ≡ st.payload)
        × ((process_external_secret s external_secret st).1.metrics ≡ st.metrics)
  unfolding process_external_secret
  process_external_secret_failed external_secret st = process_found-IsAtomic _ external_secret _ st

  -- A secret that is up to date costs no call: the world, the metrics, the restores and the Swarm
  -- secrets stay, the secret counts as skipped, services that lag behind are queued, and old
  -- versions are queued for removal, the parent kept, exactly when the secret is managed and has
  -- further versions.
  pub process_external_secret_up_to_date :
      (external_secret : Secret) (swarm_secret : ExistingSecret) (st : SyncState W)
      → Dict.lookup (prepare_secret_path s external_secret.path) st.payload.swarm_secrets_map
        ≡ some swarm_secret
      → latest_is swarm_secret external_secret ≡ true
      → any has_no_container st.payload.services ≡ false
      → process_external_secret s external_secret st ≡ (
        ok tt,
        record st {
          payload = record st.payload {
            pending =
                enqueue_all
                  (is_stale swarm_secret)
                  (record { name = swarm_secret.path; id = swarm_secret.id })
                  st.payload.services
                  st.payload.pending;
            pending_version_removals =
                if swarm_secret.managed && ltb 1 (length swarm_secret.versions)
                then st.payload.pending_version_removals
                  ++ record { secret = swarm_secret; remove_parent = false } ∷ []
                else st.payload.pending_version_removals;
            result = record st.payload.result { skipped = st.payload.result.skipped + 1 };
          };
        },
      )
  unfolding process_external_secret skip_same_version enqueue_same_version_services step_actions
  process_external_secret_up_to_date external_secret swarm_secret st found latest containers =
      rw found (rw latest (rw enqueue_services-panic (rw containers)))
