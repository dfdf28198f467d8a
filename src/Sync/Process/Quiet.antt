-- ===== src/Sync/Process/Quiet.antt =====
-- What processing does where the Swarm has all that the secret manager has.
use cloud_secrets.Prelude.{
  ℕ, ◌+◌, ◌≡◌, refl, Bool, true, false, ◌&&◌, ◌||◌, Option, none, some, List, [], ◌∷◌, arith, ltb,
  length, any, ok,
}
use cloud_secrets.Prelude.Dict
use cloud_secrets.Prelude.Dict.{Dict}
use cloud_secrets.Engine.{Service, SecretReference, ExistingSecret}
use cloud_secrets.Providers.Contracts.{Secret}
use cloud_secrets.Sync.Payload.{
  Synchronizer, SyncState, Pending, UpdatingServiceSecret, step_actions,
}
use cloud_secrets.Sync.Enqueue.{is_stale, enqueue_references}
use cloud_secrets.Sync.Enqueue.Crash.{has_no_container, enqueue_all, enqueue_present}
use cloud_secrets.Sync.Process.{
  prepare_secret_path, latest_is, process_external_secret, process_secrets,
}
use cloud_secrets.Sync.Process.Branches.{process_external_secret_up_to_date}

abbrev pub some_reference : (SecretReference → Bool) → Option (List SecretReference) → Bool
some_reference p none = false
some_reference p (some refs) = any p refs

-- Some service has a reference that passes the test.
abbrev pub some_service : (SecretReference → Bool) → List Service → Bool
some_service p services = any (λ service. some_reference p service.container_spec) services

-- The Swarm has the version of the external secret under its path, no service uses the secret by
-- another ID than the parent's, and no managed secret has further versions.
pub record IsSynced {W : Type 0} (s : Synchronizer W) (services : List Service)
    (secrets : Dict ExistingSecret) (external_secret : Secret) : Type 0 where
  pub swarm_secret : ExistingSecret
  pub found : Dict.lookup (prepare_secret_path s external_secret.path) secrets ≡ some swarm_secret
  pub latest : latest_is swarm_secret external_secret ≡ true
  pub single : (swarm_secret.managed && ltb 1 (length swarm_secret.versions)) ≡ false
  pub settled : some_service (is_stale swarm_secret) services ≡ false

-- The external secrets of a dictionary, whose keys the synchronizer does not read.
abbrev pub AllSynced :
    {W : Type 0} → Synchronizer W → List Service → Dict ExistingSecret → Dict Secret → Type 0
AllSynced s services secrets [] = Unit
AllSynced s services secrets ((_, external_secret) ∷ rest) =
    IsSynced s services secrets external_secret × AllSynced s services secrets rest

or_false : (a : Bool) {b : Bool} → (a || b) ≡ false → (a ≡ false) × (b ≡ false)
or_false true h = cc
or_false false h = (refl, h)

module _ (affected : SecretReference → Bool) (new : UpdatingServiceSecret) where
  enqueue_references_none :
      (service : Service) (refs : List SecretReference) (p : Pending)
      → any affected refs ≡ false
      → enqueue_references affected new service refs p ≡ p
  unfolding enqueue_references
  enqueue_references_none service [] p h = refl
  enqueue_references_none service (ref ∷ refs) p h =
      ground (arith, enqueue_references_none service refs p)

  enqueue_present_none :
      (service : Service) (c : Option (List SecretReference)) (p : Pending)
      → some_reference affected c ≡ false
      → enqueue_present affected new service c p ≡ p
  enqueue_present_none service none p h = refl
  enqueue_present_none service (some refs) p h = enqueue_references_none service refs p h

  enqueue_all_none :
      (services : List Service) (p : Pending)
      → some_service affected services ≡ false
      → enqueue_all affected new services p ≡ p
  enqueue_all_none [] p h = refl
  enqueue_all_none (service ∷ services) p h =
      let none_here = or_false (some_reference affected service.container_spec) h in
      rw (enqueue_present_none service service.container_spec p none_here.0)
        (enqueue_all_none services p none_here.1)

-- The state with more secrets counted as skipped.
abbrev pub skipping : {W : Type 0} → ℕ → SyncState W → SyncState W
skipping n st = record st {
  payload = record st.payload {
    result = record st.payload.result { skipped = st.payload.result.skipped + n };
  };
}

module _ {W : Type 0} (s : Synchronizer W) where
  process_external_secret_synced :
      (external_secret : Secret) (st : SyncState W)
      → any has_no_container st.payload.services ≡ false
      → IsSynced s st.payload.services st.payload.swarm_secrets_map external_secret
      → process_external_secret s external_secret st ≡ (ok tt, skipping 1 st)
  process_external_secret_synced external_secret st containers synced =
      rw
        (process_external_secret_up_to_date s external_secret synced.swarm_secret st synced.found
          synced.latest containers)
        (rw synced.single (
          rw (
            enqueue_all_none (is_stale synced.swarm_secret) _ _ st.payload.pending synced.settled)))

  pub process_secrets_synced :
      (external_secrets : Dict Secret) (st : SyncState W)
      → any has_no_container st.payload.services ≡ false
      → AllSynced s st.payload.services st.payload.swarm_secrets_map external_secrets
      → process_secrets s external_secrets st ≡ (ok tt, skipping (length external_secrets) st)
  unfolding process_secrets step_actions
  process_secrets_synced [] st containers synced = ground arith
  process_secrets_synced ((_, external_secret) ∷ rest) st containers synced =
      rw (process_external_secret_synced external_secret st containers synced.0)
        (rw (process_secrets_synced rest (skipping 1 st) containers synced.1) (ground arith))
