-- ===== src/Sync/Remove/Sweep.antt =====
-- The removal implements a plain sweep over the IDs that are due: each is removed in order, one
-- that is already gone is passed over, and any other failure ends the sweep.
use cloud_secrets.Prelude.{
  ℕ, suc, ◌+◌, ◌≡◌, refl, Bool, List, [], ◌∷◌, ◌++◌, ◌&&◌, not, Text, ◌==◌, Result, ok, err, panic,
  wrap, is_secret_not_found, if◌then◌else◌, arith,
}
use cloud_secrets.Prelude.Exec.{Exec, continue}
use cloud_secrets.Engine.{ExistingSecretVersion}
use cloud_secrets.Sync.Payload.{
  Synchronizer, SyncState, SyncResult, SecretVersionRemoval, Step, step_actions,
}
use cloud_secrets.Sync.Remove.{remove_version, remove_versions, remove_old_versions}

-- A version is due unless it is the parent and the parent is to stay.
abbrev pub is_due : SecretVersionRemoval → ExistingSecretVersion → Bool
is_due removal version = not (version.id == removal.secret.id && not removal.remove_parent)

abbrev pub due_versions : SecretVersionRemoval → List ExistingSecretVersion → List Text
due_versions removal [] = []
due_versions removal (version ∷ rest) =
    if is_due removal version
    then version.id ∷ due_versions removal rest
    else due_versions removal rest

due_append :
    (removal : SecretVersionRemoval) (version : ExistingSecretVersion)
    (rest : List ExistingSecretVersion)
    → due_versions removal (version ∷ rest)
      ≡ (if is_due removal version then version.id ∷ [] else []) ++ due_versions removal rest
due_append removal version rest = ground arith

-- The IDs that a list of removals calls for, in order.
abbrev pub due : List SecretVersionRemoval → List Text
due [] = []
due (removal ∷ rest) = due_versions removal removal.secret.versions ++ due rest

-- How a sweep ends: the result, the world and the number of secrets that it removed.
pub record Outcome (W : Type 0) : Type 0 where
  pub result : Result (Unit {0})
  pub world : W
  pub removed : ℕ

abbrev joined : {W : Type 0} → Result (Unit {0}) → Outcome W → Outcome W → Outcome W
joined (ok _) o o' = record o' { removed = o.removed + o'.removed }
joined _ o o' = o

module _ {W : Type 0} (remove : Text → Exec W (Unit {0})) where
  abbrev pub after : (W → Outcome W) → Result (Unit {0}) → W → Outcome W
  after rest (ok _) w = let o = rest w in record o { removed = suc o.removed }
  after rest (err e) w =
      let o = rest w in
      if is_secret_not_found e
      then o
      else record { result = err (wrap "remove secret version" e); world = w; removed = 0 }
  after rest panic w = record { result = panic; world = w; removed = 0 }

  -- The specification.
  unfoldable pub sweep : List Text → W → Outcome W
  sweep [] w = record { result = ok tt; world = w; removed = 0 }
  sweep (id ∷ ids) w = after (sweep ids) (remove id w).0 (remove id w).1

  -- A sweep over two lists, one after the other.
  sweep-append :
      (ids more : List Text) (w : W)
      → sweep (ids ++ more) w
        ≡ joined (sweep ids w).result (sweep ids w) (sweep more (sweep ids w).world)
  unfolding sweep
  sweep-append [] more w = ground arith
  sweep-append (id ∷ ids) more w = ground (arith, sweep-append ids more (remove id w).1)

abbrev removed_count : SyncResult → ℕ
removed_count r = r.removed_secrets + r.removed_secret_versions

-- The end of a removal agrees with an outcome of the specification.
pub record Implements {W : Type 0} (st : SyncState W) (r : Result (Unit {0}) × SyncState W)
    (o : Outcome W) : Type 0 where
  pub result : r.0 ≡ o.result
  pub world : r.1.world ≡ o.world
  pub counted : removed_count r.1.payload.result ≡ removed_count st.payload.result + o.removed

module _ {W : Type 0} (s : Synchronizer W) where
  abbrev remove : Text → Exec W (Unit {0})
  remove = s.engine.remove_secret

  remove_version-Implements :
      (removal : SecretVersionRemoval) (version : ExistingSecretVersion) (st : SyncState W)
      → Implements st
          (remove_version s removal version st)
          (sweep remove (if is_due removal version then version.id ∷ [] else []) st.world)
  unfolding remove_version sweep step_actions
  remove_version-Implements removal version st = ground arith

  -- Two removals, one after the other.
  sequence-Implements :
      (r : Result (Unit {0})) (st st' : SyncState W) (n : Step W) (more : List Text) (o : Outcome W)
      → Implements st (r, st') o
      → Implements st' (n st') (sweep remove more st'.world)
      → Implements st (continue r (λ _. n) st') (joined o.result o (sweep remove more o.world))
  sequence-Implements (ok _) st st' n more o h k = rw (← h.result, ← h.world) (ground arith)
  sequence-Implements (err e) st st' n more o h k = rw (← h.result) (ground arith)
  sequence-Implements panic st st' n more o h k = rw (← h.result) (ground arith)

  remove_versions-Implements :
      (removal : SecretVersionRemoval) (versions : List ExistingSecretVersion) (st : SyncState W)
      → Implements st
          (remove_versions s removal versions st)
          (sweep remove (due_versions removal versions) st.world)
  unfolding remove_versions step_actions
  remove_versions-Implements removal [] st =
      unfold sweep in record { result = refl; world = refl; counted = omega arith }
  remove_versions-Implements removal (version ∷ rest) st =
      rw (due_append removal version rest, sweep-append)
        (sequence-Implements _ st _ (remove_versions s removal rest) _ _
          (remove_version-Implements removal version st)
          (remove_versions-Implements removal rest _))

  -- The removal does to the world what the sweep over the due IDs does, with the same result, and
  -- counts every secret that the sweep removed.
  pub remove_old_versions-Implements :
      (removals : List SecretVersionRemoval) (st : SyncState W)
      → Implements st (remove_old_versions s removals st) (sweep remove (due removals) st.world)
  unfolding remove_old_versions step_actions
  remove_old_versions-Implements [] st =
      unfold sweep in record { result = refl; world = refl; counted = omega arith }
  remove_old_versions-Implements (removal ∷ rest) st = rw sweep-append (
      sequence-Implements _ st _ (remove_old_versions s rest) _ _
        (remove_versions-Implements removal removal.secret.versions st)
        (remove_old_versions-Implements rest _))
