-- ===== src/Sync/Apply.antt =====
-- step4_apply_service_updates.go: the queued services are updated in order, from the offset on.
-- The log lines are left out.
pub mod Swap
pub mod Rollout
use cloud_secrets.Prelude.{
  ◌+◌, Option, none, some, List, [], ◌∷◌, length, drop, leb, eqb, if◌then◌else◌, Text,
}
use cloud_secrets.Prelude.Dict
use cloud_secrets.Prelude.Dict.{Dict}
use cloud_secrets.Prelude.Exec.{pure, crash, context, ◌>>◌}
use cloud_secrets.Engine.{Service, SecretReference}
use cloud_secrets.Sync.Payload.{
  Synchronizer, SyncPayload, ServiceTask, UpdatingServiceSecret, Step, call, modify,
}

-- The body of the loop over a container's references.
abbrev pub swap_reference : Option UpdatingServiceSecret → SecretReference → SecretReference
swap_reference none ref = ref
swap_reference (some secret) ref = record ref { secret_id = secret.id; secret_name = secret.name }

unfoldable pub swap_references :
    Dict UpdatingServiceSecret → List SecretReference → List SecretReference
unfolding Dict.lookup
swap_references secrets [] = []
swap_references secrets (ref ∷ refs) =
    swap_reference (Dict.lookup ref.secret_id secrets) ref ∷ swap_references secrets refs

abbrev pub with_secrets : Service → List SecretReference → Service
with_secrets service refs = record service { container_spec = some refs }

-- `service.Service.Spec.TaskTemplate.ContainerSpec.Secrets = secrets`, written through the pointer
-- to the task. The container specification is shared with `payload.services`, which no step reads
-- before it is loaded anew.
abbrev pub store_task : Text → ServiceTask → SyncPayload → SyncPayload
store_task id task p = record p {
  pending = record p.pending {
    pending_service_updates = Dict.insert id task p.pending_service_updates;
  };
}

abbrev pub advance_offset : SyncPayload → SyncPayload
advance_offset p = record p { pending_service_offset = p.pending_service_offset + 1 }

module _ {W : Type 0} (s : Synchronizer W) where
  abbrev pub update_task : Text → ServiceTask → List SecretReference → Step W
  update_task id task refs = do
    let service = with_secrets task.service (swap_references task.secrets refs)
    modify (store_task id (record task { service = service }))
    context "update service" (call (s.engine.update_service service))
    modify advance_offset

  -- A nil container specification is a nil pointer.
  abbrev pub apply_container : Text → ServiceTask → Option (List SecretReference) → Step W
  apply_container id task none = crash
  apply_container id task (some refs) = update_task id task refs

  -- A task of the order is always in the map.
  abbrev pub apply_found : Text → Option ServiceTask → Step W
  apply_found id none = crash
  apply_found id (some task) = apply_container id task task.service.container_spec

  unfoldable pub apply_task : Text → Step W
  unfolding swap_references Dict.lookup Dict.insert
  apply_task id st = apply_found id (Dict.lookup id st.payload.pending_service_updates) st

  unfoldable pub apply_tasks : List Text → Step W
  unfolding apply_task
  apply_tasks [] = pure tt
  apply_tasks (id ∷ rest) = apply_task id >> apply_tasks rest

  -- The payload as the step finds it.
  abbrev pub apply_from : SyncPayload → Step W
  apply_from p =
      if eqb (length p.pending_service_update_order) 0
      then pure tt
      else if leb (length p.pending_service_update_order) p.pending_service_offset
      then pure tt
      else apply_tasks (drop p.pending_service_offset p.pending_service_update_order)

  unfoldable pub apply_service_updates : Step W
  unfolding apply_tasks
  apply_service_updates st = apply_from st.payload st
