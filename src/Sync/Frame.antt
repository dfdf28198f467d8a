-- ===== src/Sync/Frame.antt =====
-- What the steps behind the processing keep, stated once: their changes of the state are few.
use cloud_secrets.Prelude.{
  Bool, true, false, Option, none, some, List, [], ◌∷◌, if◌then◌else◌, Result, ok, err, panic, Text,
}
use cloud_secrets.Prelude.Exec.{Exec}
use cloud_secrets.Prelude.Dict.{Dict}
use cloud_secrets.Prelude.Exec.Keeps.{
  Keeps, Keeps-bind, Keeps-context, Keeps-pure, Keeps-if, Keeps-crash, Keeps-fail, keeps_rules,
}
use cloud_secrets.Engine.{Service, SecretReference, ExistingSecret, ExistingSecretVersion}
use cloud_secrets.Sync.Payload.{
  Synchronizer, SyncState, SyncPayload, call, modify, SecretVersionRemoval, ServiceTask,
  UpdatedSecret,
}
use cloud_secrets.Sync.Load.{load_swarm_state}
use cloud_secrets.Sync.Apply.{
  store_task, advance_offset, apply_container, apply_from, apply_found, apply_task, apply_tasks,
  apply_service_updates,
}
use cloud_secrets.Sync.Remove.{
  count_removed, after_remove, remove_version, remove_versions, remove_old_versions,
  remove_pending_old_versions,
}
use cloud_secrets.Sync.Restore.{restored, restore_secrets, restore_pending_secrets}
use cloud_secrets.Sync.Cleanup.{clean, orphaned_managed_secret_removals, cleanup_orphaned_secrets}

-- What the loaded services and secrets are put into.
abbrev pub with_swarm : List Service → Dict ExistingSecret → SyncPayload → SyncPayload
with_swarm services secrets p = record p { services = services; swarm_secrets_map = secrets }

-- A predicate that each single change of those steps keeps.
pub record IsFrame {W : Type 0} (P : SyncState W → Type 0) : Type 1 where
  pub of_call : (A : Type 0) (m : Exec W A) → Keeps P (call m)
  pub of_load :
      (services : List Service) (secrets : Dict ExistingSecret)
      → Keeps P (modify (with_swarm services secrets))
  pub of_store : (id : Text) (task : ServiceTask) → Keeps P (modify (store_task id task))
  pub of_advance : Keeps P (modify advance_offset)
  pub of_removal : (is_parent : Bool) → Keeps P (count_removed is_parent)

module _ {W : Type 0} (s : Synchronizer W) {P : SyncState W → Type 0} (frame : IsFrame P) where
  pub load_swarm_state-Keeps : Keeps P (load_swarm_state s)
  unfolding load_swarm_state
  load_swarm_state-Keeps =
      Keeps-bind _ _ (Keeps-context _ _ (frame.of_call _ s.engine.list_services)) λ services.
        Keeps-bind _ _ (Keeps-context _ _ (frame.of_call _ s.engine.map_secrets))
          λ secrets. frame.of_load services secrets

  apply_container-Keeps :
      (id : Text) (task : ServiceTask) (c : Option (List SecretReference))
      → Keeps P (apply_container s id task c)
  apply_container-Keeps id task none = Keeps-crash
  apply_container-Keeps id task (some refs) = Keeps-bind _ _ (frame.of_store id _) λ _.
      Keeps-bind _ _ (Keeps-context _ _ (frame.of_call _ (s.engine.update_service _)))
        λ _. frame.of_advance

  apply_found-Keeps : (id : Text) (o : Option ServiceTask) → Keeps P (apply_found s id o)
  apply_found-Keeps id none = Keeps-crash
  apply_found-Keeps id (some task) = apply_container-Keeps id task task.service.container_spec

  apply_task-Keeps : (id : Text) → Keeps P (apply_task s id)
  unfolding apply_task
  apply_task-Keeps id = record { at = λ st h. (apply_found-Keeps id _).at st h }

  apply_tasks-Keeps : (ids : List Text) → Keeps P (apply_tasks s ids)
  unfolding apply_tasks
  apply_tasks-Keeps [] = Keeps-pure tt
  apply_tasks-Keeps (id ∷ rest) = Keeps-bind _ _ (apply_task-Keeps id) (λ _. apply_tasks-Keeps rest)

  apply_from-Keeps : (p : SyncPayload) → Keeps P (apply_from s p)
  apply_from-Keeps p = search (keeps_rules, apply_tasks-Keeps)

  pub apply_service_updates-Keeps : Keeps P (apply_service_updates s)
  unfolding apply_service_updates
  apply_service_updates-Keeps = record { at = λ st h. (apply_from-Keeps st.payload).at st h }

  after_remove-Keeps :
      (is_parent : Bool) (r : Result (Unit {0})) → Keeps P (after_remove is_parent r)
  after_remove-Keeps is_parent (ok _) = frame.of_removal is_parent
  after_remove-Keeps is_parent (err e) = Keeps-if _ (Keeps-pure tt) (Keeps-fail _)
  after_remove-Keeps is_parent panic = Keeps-crash

  removal-Keeps :
      (b is_parent : Bool) (m : Exec W (Unit {0})) (st : SyncState W)
      → P st
      → P (if b then (ok tt, st) else after_remove is_parent (call m st).0 (call m st).1).1
  removal-Keeps true is_parent m st h = h
  removal-Keeps false is_parent m st h =
      (after_remove-Keeps is_parent _).at _ ((frame.of_call _ m).at st h)

  remove_version-Keeps :
      (removal : SecretVersionRemoval) (version : ExistingSecretVersion)
      → Keeps P (remove_version s removal version)
  unfolding remove_version
  remove_version-Keeps removal version = record { at = λ st h. removal-Keeps _ _ _ st h }

  remove_versions-Keeps :
      (removal : SecretVersionRemoval) (versions : List ExistingSecretVersion)
      → Keeps P (remove_versions s removal versions)
  unfolding remove_versions
  remove_versions-Keeps removal [] = Keeps-pure tt
  remove_versions-Keeps removal (version ∷ rest) =
      Keeps-bind _ _ (remove_version-Keeps removal version)
        (λ _. remove_versions-Keeps removal rest)

  remove_old_versions-Keeps :
      (removals : List SecretVersionRemoval) → Keeps P (remove_old_versions s removals)
  unfolding remove_old_versions
  remove_old_versions-Keeps [] = Keeps-pure tt
  remove_old_versions-Keeps (removal ∷ rest) =
      Keeps-bind _ _ (remove_versions-Keeps removal removal.secret.versions)
        (λ _. remove_old_versions-Keeps rest)

  pub remove_pending_old_versions-Keeps : Keeps P (remove_pending_old_versions s)
  unfolding remove_pending_old_versions
  remove_pending_old_versions-Keeps = record {
    at = λ st h. (remove_old_versions-Keeps st.payload.pending_version_removals).at st h;
  }

  restore_secrets-Keeps : (secrets : List UpdatedSecret) → Keeps P (restore_secrets s secrets)
  unfolding restore_secrets
  restore_secrets-Keeps [] = Keeps-pure tt
  restore_secrets-Keeps (secret ∷ rest) =
      Keeps-bind _ _
        (Keeps-context _ _ (frame.of_call _ (s.engine.create_secret (restored secret))))
        (λ _. restore_secrets-Keeps rest)

  pub restore_pending_secrets-Keeps : Keeps P (restore_pending_secrets s)
  unfolding restore_pending_secrets
  restore_pending_secrets-Keeps = record {
    at = λ st h. (restore_secrets-Keeps st.payload.pending_secret_restores).at st h;
  }

  clean-Keeps : (removals : List SecretVersionRemoval) → Keeps P (clean s removals)
  clean-Keeps [] = Keeps-pure tt
  clean-Keeps (removal ∷ rest) = Keeps-context _ _ (remove_old_versions-Keeps (removal ∷ rest))

  pub cleanup_orphaned_secrets-Keeps : Keeps P (cleanup_orphaned_secrets s)
  unfolding cleanup_orphaned_secrets
  cleanup_orphaned_secrets-Keeps = record {
    at = λ st h.
        (clean-Keeps (orphaned_managed_secret_removals st.payload s.folder_delimiter)).at st h;
  }
