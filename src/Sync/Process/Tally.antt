-- ===== src/Sync/Process/Tally.antt =====
-- How the external secrets that were processed are counted.
use cloud_secrets.Prelude.{
  ◌+◌, ◌≡◌, refl, ap, ◌∙◌, inl, inr, Option, none, some, [], ◌∷◌, arith, if◌then◌else◌, Bool-cases,
  ok, Text,
}
use cloud_secrets.Prelude.Exec.{run_through, pure, ◌>>=◌, context}
use cloud_secrets.Prelude.Dict
use cloud_secrets.Prelude.Dict.{Dict}
use cloud_secrets.Engine.{
  ExistingSecret, CreatingSecretVersion, CreatedSecretVersion, latest_version,
}
use cloud_secrets.Providers.Contracts.{Secret}
use cloud_secrets.Sync.Payload.{Synchronizer, SyncState, SyncResult, Step, step_actions, call}
use cloud_secrets.Sync.Process.{
  prepare_secret_path, create_missing_secret, get_updated_secret_payload, skip_same_version,
  queue_update, create_updated_secret_version, process_found, latest_is, marked,
  process_external_secret, process_secrets, process_external_secrets,
}
use cloud_secrets.Sync.Process.Branches.{get_updated_secret_payload-IsCall, context-call-IsCall}

-- How an external secret stands to the Swarm.
pub data Status : Type 0 where
  missing outdated current : Status

abbrev pub status_of : Option ExistingSecret → Secret → Status
status_of none external_secret = missing
status_of (some swarm_secret) external_secret =
    if latest_is swarm_secret external_secret then current else outdated

abbrev pub status : {W : Type 0} → Synchronizer W → Dict ExistingSecret → Secret → Status
status s secrets external_secret =
    status_of (Dict.lookup (prepare_secret_path s external_secret.path) secrets) external_secret

-- The result with one more secret of a status.
abbrev pub bump : Status → SyncResult → SyncResult
bump missing r = record r { created = r.created + 1 }
bump outdated r = record r { updated = r.updated + 1 }
bump current r = record r { skipped = r.skipped + 1 }

-- The result with all the external secrets counted by their status.
abbrev pub tally :
    {W : Type 0} → Synchronizer W → Dict ExistingSecret → Dict Secret → SyncResult → SyncResult
tally s secrets [] r = r
tally s secrets ((_, external_secret) ∷ rest) r =
    tally s secrets rest (bump (status s secrets external_secret) r)

-- A secret of a status was counted, and no secret has changed its status.
record Bumps {W : Type 0} (s : Synchronizer W) (c : Status) (st st' : SyncState W) : Type 0 where
  counted : st'.payload.result ≡ bump c st.payload.result
  same :
      (e : Secret)
      → status s st'.payload.swarm_secrets_map e ≡ status s st.payload.swarm_secrets_map e

latest_is-marked :
    (swarm_secret : ExistingSecret) (e : Secret)
    → latest_is (marked swarm_secret) e ≡ latest_is swarm_secret e
unfolding latest_version
latest_is-marked swarm_secret e = refl

module _ {W : Type 0} (s : Synchronizer W) where
  status-marked :
      (key : Text) (swarm_secret : ExistingSecret) (secrets : Dict ExistingSecret) (e : Secret)
      → Dict.lookup key secrets ≡ some swarm_secret
      → status s (Dict.insert key (marked swarm_secret) secrets) e ≡ status s secrets e
  status-marked key swarm_secret secrets e found =
      rw (Dict.lookup-insert (prepare_secret_path s e.path) key (marked swarm_secret) secrets)
        (ground (arith, latest_is-marked swarm_secret e))

  create_missing_secret-Bumps :
      (external_secret : Secret) (key : Text) (st : SyncState W)
      → (create_missing_secret s external_secret key st).0 ≡ ok tt
      → Bumps s missing st (create_missing_secret s external_secret key st).1
  unfolding create_missing_secret step_actions
  create_missing_secret-Bumps external_secret key st h = record {
    counted = ground arith;
    same = λ e. ground arith;
  }

  skip_same_version-Bumps :
      (swarm_secret : ExistingSecret) (st : SyncState W)
      → (skip_same_version s swarm_secret st).0 ≡ ok tt
      → Bumps s current st (skip_same_version s swarm_secret st).1
  unfolding skip_same_version step_actions
  skip_same_version-Bumps swarm_secret st h = record {
    counted = ground arith;
    same = λ e. ground arith;
  }

  abbrev create_version : Text → Secret → ExistingSecret → CreatingSecretVersion → Step W
  create_version key external_secret swarm_secret version =
      context "create secret version" (call (s.engine.create_secret_version swarm_secret version))
      >>= queue_update s key external_secret swarm_secret version

  queue_update-Bumps :
      (key : Text) (external_secret : Secret) (swarm_secret : ExistingSecret)
      (version : CreatingSecretVersion) (created : CreatedSecretVersion) (st : SyncState W)
      → Dict.lookup key st.payload.swarm_secrets_map ≡ some swarm_secret
      → (queue_update s key external_secret swarm_secret version created st).0 ≡ ok tt
      → Bumps s outdated st (queue_update s key external_secret swarm_secret version created st).1
  unfolding queue_update step_actions
  queue_update-Bumps key external_secret swarm_secret version created st found h = record {
    counted = ground arith;
    same = λ e. ground (arith, status-marked key swarm_secret st.payload.swarm_secrets_map e);
  }

  Bumps-after :
      {c : Status} (st st' st'' : SyncState W)
      → st'.payload ≡ st.payload
      → Bumps s c st' st''
      → Bumps s c st st''
  Bumps-after {c} st st' st'' same b = record {
    counted = rw (← same) b.counted;
    same = λ e. rw (← same) (b.same e);
  }

  behind_payload :
      (key : Text) (external_secret : Secret) (swarm_secret : ExistingSecret)
      (version : CreatingSecretVersion) (st : SyncState W)
      → Dict.lookup key st.payload.swarm_secrets_map ≡ some swarm_secret
      → (create_version key external_secret swarm_secret version st).0 ≡ ok tt
      → Bumps s outdated st (create_version key external_secret swarm_secret version st).1
  behind_payload key external_secret swarm_secret version st found h =
      let made = run_through _ (queue_update s key external_secret swarm_secret version) st tt h in
      let kept =
        context-call-IsCall "create secret version"
          (s.engine.create_secret_version swarm_secret version) st in
      rw made.2 (
        Bumps-after _ _ _ kept.0 (
          queue_update-Bumps key external_secret swarm_secret version made.0 _ (rw kept.0 found)
            (rw made.2 at h)))

  create_updated_secret_version-Bumps :
      (key : Text) (external_secret : Secret) (swarm_secret : ExistingSecret) (st : SyncState W)
      → Dict.lookup key st.payload.swarm_secrets_map ≡ some swarm_secret
      → (create_updated_secret_version s key external_secret swarm_secret st).0 ≡ ok tt
      → Bumps s outdated st (create_updated_secret_version s key external_secret swarm_secret st).1
  unfolding create_updated_secret_version
  create_updated_secret_version-Bumps key external_secret swarm_secret st found h =
      let got = run_through (get_updated_secret_payload s external_secret) _ st tt h in
      let kept = get_updated_secret_payload-IsCall s external_secret st in
      rw got.2 (
        Bumps-after _ _ _ kept.0 (
          behind_payload key external_secret swarm_secret got.0 _ (rw kept.0 found)
            (rw got.2 at h)))

  process_found-Bumps :
      (key : Text) (external_secret : Secret) (o : Option ExistingSecret) (st : SyncState W)
      → Dict.lookup key st.payload.swarm_secrets_map ≡ o
      → (process_found s key external_secret o st).0 ≡ ok tt
      → Bumps s (status_of o external_secret) st (process_found s key external_secret o st).1
  process_found-Bumps key external_secret none st found h =
      create_missing_secret-Bumps external_secret key st h
  process_found-Bumps key external_secret (some swarm_secret) st found h =
      elim (Bool-cases (latest_is swarm_secret external_secret)) [
        | inl e ↦ rw e (skip_same_version-Bumps swarm_secret st (rw e at h))
        | inr e ↦ rw e (
            create_updated_secret_version-Bumps key external_secret swarm_secret st found
              (rw e at h))
      ]

  process_external_secret-Bumps :
      (external_secret : Secret) (st : SyncState W)
      → (process_external_secret s external_secret st).0 ≡ ok tt
      → Bumps s
          (status s st.payload.swarm_secrets_map external_secret)
          st
          (process_external_secret s external_secret st).1
  unfolding process_external_secret
  process_external_secret-Bumps external_secret st h =
      process_found-Bumps _ external_secret _ st refl h

  tally-same :
      (external_secrets : Dict Secret) (before after : Dict ExistingSecret) (r : SyncResult)
      → ((e : Secret) → status s after e ≡ status s before e)
      → tally s after external_secrets r ≡ tally s before external_secrets r
  tally-same [] before after r same = refl
  tally-same ((_, external_secret) ∷ rest) before after r same =
      rw (same external_secret) (tally-same rest before after _ same)

  process_secrets-tally :
      (external_secrets : Dict Secret) (st : SyncState W)
      → (process_secrets s external_secrets st).0 ≡ ok tt
      → (process_secrets s external_secrets st).1.payload.result
        ≡ tally s st.payload.swarm_secrets_map external_secrets st.payload.result
  unfolding process_secrets
  process_secrets-tally [] st h = unfold pure in refl
  process_secrets-tally ((_, external_secret) ∷ rest) st h =
      let first = run_through (process_external_secret s external_secret) _ st tt h in
      let bumped = process_external_secret-Bumps external_secret st first.1 in
      rw first.2 (
        process_secrets-tally rest (process_external_secret s external_secret st).1
          (rw first.2 at h)
        ∙ tally-same rest _ _ _ bumped.same
        ∙ ap (tally s st.payload.swarm_secrets_map rest) bumped.counted)

  -- If the step succeeds, it has counted every external secret once: as created if the Swarm had no
  -- secret under its path, as skipped if it had the listed version, and as updated otherwise, by
  -- what the Swarm had before the step.
  pub process_external_secrets-tally :
      (st : SyncState W)
      → (process_external_secrets s st).0 ≡ ok tt
      → (process_external_secrets s st).1.payload.result
        ≡ tally s st.payload.swarm_secrets_map st.payload.external_secrets st.payload.result
  unfolding process_external_secrets
  process_external_secrets-tally st h = process_secrets-tally st.payload.external_secrets st h
