-- ===== src/Sync/Remove/Gone.antt =====
-- The removal of old versions over the Docker client: what a removal that succeeds leaves of them.
use cloud_secrets.Prelude.{
  ◌≡◌, refl, ◌∙◌, sym, true, false, List, [], ◌∷◌, arith, All, Error, Result, ok, err, panic, Text,
  Bool-cases, inl, inr, is_secret_not_found,
}
use cloud_secrets.Prelude.Exec.{Exec}
use mathlib.Core.Path.{subst}
use cloud_secrets.Engine.Docker.{DockerApi, docker_client, removed, remove_secret}
use cloud_secrets.Sync.Payload.{Synchronizer, SyncState, SecretVersionRemoval}
use cloud_secrets.Sync.Remove.{remove_old_versions}
use cloud_secrets.Sync.Remove.Sweep.{due, after, sweep, remove_old_versions-Implements}

-- What Docker documents of `SecretRemove`, for a predicate that says of an ID that the Swarm has no
-- secret with it: a removal that succeeds has removed the secret, one that finds nothing says so,
-- and no removal brings a secret back. Its errors are not the engine's own.
pub record RemovesForGood {W : Type 0} (docker : DockerApi W) (Gone : Text → W → Type 0)
    : Type 0 where
  pub removed :
      (id : Text) (w : W)
      → (docker.secret_remove id w).0 ≡ ok tt
      → Gone id (docker.secret_remove id w).1
  pub missing :
      (id : Text) (e : Error) (w : W)
      → (docker.secret_remove id w).0 ≡ err e
      → docker.is_not_found e ≡ true
      → Gone id (docker.secret_remove id w).1
  pub foreign_error :
      (id : Text) (e : Error) (w : W)
      → (docker.secret_remove id w).0 ≡ err e
      → is_secret_not_found e ≡ false
  pub kept : (id other : Text) (w : W) → Gone other w → Gone other (docker.secret_remove id w).1
  pub counted : (id name : Text) (w : W) → Gone id w → Gone id (docker.record_request name w)

-- The same of a removal with the engine's errors.
record Removes {W : Type 0} (remove : Text → Exec W (Unit {0})) (Gone : Text → W → Type 0)
    : Type 0 where
  removed : (id : Text) (w : W) → (remove id w).0 ≡ ok tt → Gone id (remove id w).1
  missing :
      (id : Text) (e : Error) (w : W)
      → (remove id w).0 ≡ err e
      → is_secret_not_found e ≡ true
      → Gone id (remove id w).1
  kept : (id other : Text) (w : W) → Gone other w → Gone other (remove id w).1

module _ {W : Type 0} {docker : DockerApi W} {Gone : Text → W → Type 0}
    (laws : RemovesForGood docker Gone) where
  removed_ok : (id : Text) (r : Result (Unit {0})) → removed docker id r ≡ ok tt → r ≡ ok tt
  removed_ok id (ok _) h = refl
  removed_ok id (err e) h = cc
  removed_ok id panic h = cc

  removed_missing :
      (id : Text) (r : Result (Unit {0})) (e : Error)
      → ((e' : Error) → r ≡ err e' → is_secret_not_found e' ≡ false)
      → removed docker id r ≡ err e
      → is_secret_not_found e ≡ true
      → (e' : Error) × (r ≡ err e') × (docker.is_not_found e' ≡ true)
  unfolding is_secret_not_found
  removed_missing id (ok _) e own h missing = cc
  removed_missing id (err e') e own h missing = (e', refl, ground (arith, own e' refl))
  removed_missing id panic e own h missing = cc

  remove_secret-Removes : Removes (remove_secret docker) Gone
  unfolding remove_secret
  remove_secret-Removes = record {
    removed = λ id w h. laws.counted id _ _ (laws.removed id w (removed_ok id _ h));
    missing = λ id e w h own.
        let found = removed_missing id _ e (λ e'. laws.foreign_error id e' w) h own in
        laws.counted id _ _ (laws.missing id found.0 w found.1 found.2);
    kept = λ id other w gone. laws.counted other _ _ (laws.kept id other w gone);
  }

module _ {W : Type 0} {remove : Text → Exec W (Unit {0})} {Gone : Text → W → Type 0}
    (laws : Removes remove Gone) where
  after-kept :
      (ids : List Text) (r : Result (Unit {0})) (other : Text) (w : W)
      → Gone other w
      → Gone other (sweep remove ids w).world
      → Gone other (after remove (sweep remove ids) r w).world
  after-kept ids (ok _) other w gone swept = swept
  after-kept ids (err e) other w gone swept = elim (Bool-cases (is_secret_not_found e)) [
    | inl missing ↦ rw missing swept
    | inr failed ↦ rw failed gone
  ]
  after-kept ids panic other w gone swept = gone

  sweep-kept :
      (ids : List Text) (other : Text) (w : W)
      → Gone other w
      → Gone other (sweep remove ids w).world
  unfolding sweep
  sweep-kept [] other w gone = gone
  sweep-kept (id ∷ ids) other w gone =
      let still = laws.kept id other w gone in
      after-kept ids (remove id w).0 other (remove id w).1 still (sweep-kept ids other _ still)

  -- A sweep that succeeds has gone on, behind a secret that is gone.
  after-ok :
      (ids : List Text) (id : Text) (r : Result (Unit {0})) (w : W)
      → (r ≡ ok tt → Gone id w)
      → ((e : Error) → r ≡ err e → is_secret_not_found e ≡ true → Gone id w)
      → (after remove (sweep remove ids) r w).result ≡ ok tt
      → Gone id w
        × ((after remove (sweep remove ids) r w).world ≡ (sweep remove ids w).world)
        × ((sweep remove ids w).result ≡ ok tt)
  after-ok ids id (ok _) w gone missing h = (gone refl, refl, h)
  after-ok ids id (err e) w gone missing h = elim (Bool-cases (is_secret_not_found e)) [
    | inl own ↦ (missing e refl own, rw own refl, rw own at h)
    | inr failed ↦ let stuck = rw failed at h in cc
  ]
  after-ok ids id panic w gone missing h = cc

  sweep-Gone :
      (ids : List Text) (w : W)
      → (sweep remove ids w).result ≡ ok tt
      → All (λ id. Gone id (sweep remove ids w).world) ids
  unfolding sweep
  sweep-Gone [] w h = tt
  sweep-Gone (id ∷ ids) w h =
      let step =
        after-ok ids id (remove id w).0 (remove id w).1 (laws.removed id w)
          (λ e. laws.missing id e w) h in
      subst (λ v. Gone id v × All (λ id. Gone id v) ids) (sym step.1)
        (sweep-kept ids id _ step.0, sweep-Gone ids _ step.2)

module _ {W : Type 0} (s : Synchronizer W) (docker : DockerApi W) (Gone : Text → W → Type 0) where
  -- The synchronizer over the Docker client.
  abbrev pub over_docker : Synchronizer W
  over_docker = record s { engine = docker_client docker }

  -- If Docker removes as it documents, a removal of old versions that succeeds has left none of
  -- the versions that are due in the Swarm, the ones that were gone before included.
  pub remove_old_versions-Gone :
      (removals : List SecretVersionRemoval) (st : SyncState W)
      → RemovesForGood docker Gone
      → (remove_old_versions over_docker removals st).0 ≡ ok tt
      → All (λ id. Gone id (remove_old_versions over_docker removals st).1.world) (due removals)
  remove_old_versions-Gone removals st laws h =
      let swept = remove_old_versions-Implements over_docker removals st in
      subst (λ v. All (λ id. Gone id v) (due removals)) (sym swept.world)
        (sweep-Gone (remove_secret-Removes laws) (due removals) st.world (sym swept.result ∙ h))
