-- ===== src/Sync/Enqueue.antt =====
-- step3_process_secrets.go: which services must be updated, and with which secrets.
pub mod Order
pub mod Assigned
pub mod Crash
use cloud_secrets.Prelude.{Option, ◌>>=◌, Bool, true, none, some, List, [], ◌∷◌, ◌++◌, ◌||◌, not}
use cloud_secrets.Prelude.{if◌then◌else◌, any, Text, ◌==◌, Result, ok, panic}
use cloud_secrets.Prelude.Dict
use cloud_secrets.Engine.{Service, SecretReference, ExistingSecret, CreatedSecretVersion}
use cloud_secrets.Sync.Payload.{Pending, ServiceTask, UpdatingServiceSecret}

unfoldable pub secret_reference_uses_managed_secret_path : SecretReference → Text → Bool
secret_reference_uses_managed_secret_path ref path = ref.secret_name == path

unfoldable pub secret_reference_uses_managed_secret : SecretReference → ExistingSecret → Bool
unfolding secret_reference_uses_managed_secret_path
secret_reference_uses_managed_secret ref secret =
    if secret_reference_uses_managed_secret_path ref secret.path
    then true
    else any (λ version. ref.secret_id == version.id) secret.versions

-- A new task is put into the map and at the end of the order; a known one is written through its
-- pointer.
abbrev pub assign_found :
    Option ServiceTask → Service → Text → UpdatingServiceSecret → Pending → Pending
assign_found none service ref_id new p = record {
  pending_service_updates =
      Dict.insert service.id (record { service = service; secrets = Dict.insert ref_id new [] })
        p.pending_service_updates;
  pending_service_update_order = p.pending_service_update_order ++ service.id ∷ [];
}
assign_found (some task) service ref_id new p = record p {
  pending_service_updates =
      Dict.insert service.id (record task { secrets = Dict.insert ref_id new task.secrets })
        p.pending_service_updates;
}

-- `task, ok := pending[service.ID]`, the new task if there is none, and
-- `task.Secrets[refID] = new`.
unfoldable pub assign : Service → Text → UpdatingServiceSecret → Pending → Pending
assign service ref_id new p =
    assign_found (Dict.lookup service.id p.pending_service_updates) service ref_id new p

-- The loop over the references of one service: those that `affected` selects are assigned.
unfoldable pub enqueue_references :
    (SecretReference → Bool)
    → UpdatingServiceSecret
    → Service
    → List SecretReference
    → Pending
    → Pending
unfolding assign
enqueue_references affected new service [] p = p
enqueue_references affected new service (ref ∷ refs) p =
    enqueue_references affected new service refs
      (if affected ref then assign service ref.secret_id new p else p)

-- A service without a container specification is read through a nil pointer.
abbrev pub enqueue_container :
    (SecretReference → Bool)
    → UpdatingServiceSecret
    → Service
    → Option (List SecretReference)
    → Pending
    → Result Pending
enqueue_container affected new service none p = panic
enqueue_container affected new service (some refs) p =
    ok (enqueue_references affected new service refs p)

-- The loop over the services.
unfoldable pub enqueue_services :
    (SecretReference → Bool) → UpdatingServiceSecret → List Service → Pending → Result Pending
unfolding enqueue_references
enqueue_services affected new [] p = ok p
enqueue_services affected new (service ∷ services) p = do
  p' ← enqueue_container affected new service service.container_spec p
  enqueue_services affected new services p'

-- A reference to the secret that is not yet to its current parent.
abbrev pub is_stale : ExistingSecret → SecretReference → Bool
is_stale swarm_secret ref = not (
    not (secret_reference_uses_managed_secret ref swarm_secret) || ref.secret_id == swarm_secret.id)

unfoldable pub enqueue_same_version_services :
    List Service → ExistingSecret → Pending → Result Pending
unfolding enqueue_services secret_reference_uses_managed_secret
enqueue_same_version_services services swarm_secret =
    enqueue_services (is_stale swarm_secret)
      (record { name = swarm_secret.path; id = swarm_secret.id }) services

unfoldable pub enqueue_updated_services :
    List Service → ExistingSecret → CreatedSecretVersion → Pending → Result Pending
unfolding enqueue_services secret_reference_uses_managed_secret
enqueue_updated_services services swarm_secret secret =
    enqueue_services (λ ref. secret_reference_uses_managed_secret ref swarm_secret)
      (record { name = secret.name; id = secret.id }) services
