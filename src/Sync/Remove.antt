-- ===== src/Sync/Remove.antt =====
-- step5_remove_old_secret_versions.go: old versions are removed; one that is already gone is no
-- error. The log lines are left out.
pub mod Sweep
pub mod Gone
use cloud_secrets.Prelude.{
  ◌+◌, Bool, true, false, List, [], ◌∷◌, ◌&&◌, not, if◌then◌else◌, ◌==◌, Result, ok, err, panic,
  wrap, is_secret_not_found,
}
use cloud_secrets.Prelude.Exec.{pure, fail, crash, ◌>>◌}
use cloud_secrets.Engine.{ExistingSecretVersion}
use cloud_secrets.Metrics.{inc_removed_secrets, inc_removed_versions}
use cloud_secrets.Sync.Payload.{
  Synchronizer, SyncResult, SecretVersionRemoval, Step, call, modify, count,
}

abbrev pub add_removed_secret : SyncResult → SyncResult
add_removed_secret r = record r { removed_secrets = r.removed_secrets + 1 }

abbrev pub add_removed_version : SyncResult → SyncResult
add_removed_version r = record r { removed_secret_versions = r.removed_secret_versions + 1 }

abbrev pub count_removed : {W : Type 0} → Bool → Step W
count_removed true =
    modify (λ p. record p { result = add_removed_secret p.result }) >> count inc_removed_secrets
count_removed false =
    modify (λ p. record p { result = add_removed_version p.result }) >> count inc_removed_versions

-- What follows the call of `RemoveSecret`.
abbrev pub after_remove : {W : Type 0} → Bool → Result (Unit {0}) → Step W
after_remove is_parent (ok _) = count_removed is_parent
after_remove is_parent (err e) =
    if is_secret_not_found e then pure tt else fail (wrap "remove secret version" e)
after_remove is_parent panic = crash

module _ {W : Type 0} (s : Synchronizer W) where
  unfoldable pub remove_version : SecretVersionRemoval → ExistingSecretVersion → Step W
  unfolding is_secret_not_found
  remove_version removal version st =
      if version.id == removal.secret.id && not removal.remove_parent
      then (ok tt, st)
      else let (r, st') = call (s.engine.remove_secret version.id) st in
        after_remove (version.id == removal.secret.id) r st'

  unfoldable pub remove_versions : SecretVersionRemoval → List ExistingSecretVersion → Step W
  unfolding remove_version
  remove_versions removal [] = pure tt
  remove_versions removal (version ∷ rest) =
      remove_version removal version >> remove_versions removal rest

  unfoldable pub remove_old_versions : List SecretVersionRemoval → Step W
  unfolding remove_versions
  remove_old_versions [] = pure tt
  remove_old_versions (removal ∷ rest) =
      remove_versions removal removal.secret.versions >> remove_old_versions rest

  unfoldable pub remove_pending_old_versions : Step W
  unfolding remove_old_versions
  remove_pending_old_versions st = remove_old_versions st.payload.pending_version_removals st
