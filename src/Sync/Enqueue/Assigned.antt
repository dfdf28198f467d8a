-- ===== src/Sync/Enqueue/Assigned.antt =====
-- What the queue holds after the services are queued: which secret replaces a reference.
use cloud_secrets.Prelude.{
  >>=-eq-ok, ◌≡◌, ◌∙◌, sym, ap, refl, Bool, Option, none, some, List, [], ◌∷◌, ◌&&◌, any, Text,
  ◌==◌, ok, arith, if◌then◌else◌,
}
use cloud_secrets.Prelude.Dict
use cloud_secrets.Engine.{Service, SecretReference, ExistingSecret, CreatedSecretVersion}
use cloud_secrets.Sync.Payload.{Pending, ServiceTask, UpdatingServiceSecret}
use cloud_secrets.Sync.Enqueue.{
  assign_found, assign, enqueue_references, enqueue_container, enqueue_services, is_stale,
  secret_reference_uses_managed_secret, enqueue_same_version_services, enqueue_updated_services,
}

abbrev task_secret : Text → Option ServiceTask → Option UpdatingServiceSecret
task_secret ref_id none = none
task_secret ref_id (some task) = Dict.lookup ref_id task.secrets

-- The secret that the task of a service has for references to `ref_id`, if any.
abbrev pub assigned : Pending → Text → Text → Option UpdatingServiceSecret
assigned p service_id ref_id = task_secret ref_id (Dict.lookup service_id p.pending_service_updates)

abbrev pub references : Option (List SecretReference) → List SecretReference
references none = []
references (some refs) = refs

-- The service has the ID, and an affected reference to `ref_id`.
abbrev pub selects : (SecretReference → Bool) → Text → Text → Service → Bool
selects affected service_id ref_id service =
    service.id == service_id
    && any (λ ref. affected ref && ref.secret_id == ref_id) (references service.container_spec)

assign_found-assigned :
    (o : Option ServiceTask) (service : Service) (ref_id : Text) (new : UpdatingServiceSecret)
    (p : Pending) (s r : Text)
    → Dict.lookup service.id p.pending_service_updates ≡ o
    → assigned (assign_found o service ref_id new p) s r
      ≡ (if service.id == s && ref_id == r then some new else assigned p s r)
unfolding Dict.lookup Dict.insert
assign_found-assigned none service ref_id new p s r found = rw Dict.lookup-insert (ground arith)
assign_found-assigned (some task) service ref_id new p s r found =
    rw Dict.lookup-insert (ground (arith, Dict.lookup-insert r ref_id new task.secrets))

assign-assigned :
    (service : Service) (ref_id : Text) (new : UpdatingServiceSecret) (p : Pending) (s r : Text)
    → assigned (assign service ref_id new p) s r
      ≡ (if service.id == s && ref_id == r then some new else assigned p s r)
unfolding assign
assign-assigned service ref_id new p s r = assign_found-assigned _ service ref_id new p s r refl

enqueue_references-assigned :
    (affected : SecretReference → Bool) (new : UpdatingServiceSecret) (service : Service)
    (refs : List SecretReference) (p : Pending) (s r : Text)
    → assigned (enqueue_references affected new service refs p) s r ≡ (
        if service.id == s && any (λ ref. affected ref && ref.secret_id == r) refs
        then some new
        else assigned p s r)
unfolding enqueue_references
enqueue_references-assigned affected new service [] p s r = ground arith
enqueue_references-assigned affected new service (ref ∷ refs) p s r = ground (
  arith,
  enqueue_references-assigned affected new service refs p s r,
  enqueue_references-assigned affected new service refs (assign service ref.secret_id new p) s r,
  assign-assigned service ref.secret_id new p s r,
)

enqueue_container-assigned :
    (affected : SecretReference → Bool) (new : UpdatingServiceSecret) (service : Service)
    (c : Option (List SecretReference)) (p p' : Pending) (s r : Text)
    → enqueue_container affected new service c p ≡ ok p'
    → assigned p' s r ≡ (
        if service.id == s && any (λ ref. affected ref && ref.secret_id == r) (references c)
        then some new
        else assigned p s r)
enqueue_container-assigned affected new service none p p' s r e = cc
enqueue_container-assigned affected new service (some refs) p p' s r e =
    let same : enqueue_references affected new service refs p ≡ p' = cc in
    sym (ap (λ q. assigned q s r) same)
    ∙ enqueue_references-assigned affected new service refs p s r

enqueue_services-assigned :
    (affected : SecretReference → Bool) (new : UpdatingServiceSecret) (services : List Service)
    (p p' : Pending) (s r : Text)
    → enqueue_services affected new services p ≡ ok p'
    → assigned p' s r ≡ (if any (selects affected s r) services then some new else assigned p s r)
unfolding enqueue_services
enqueue_services-assigned affected new [] p p' s r e =
    let same : p ≡ p' = cc in sym (ap (λ q. assigned q s r) same)
enqueue_services-assigned affected new (service ∷ services) p p' s r e =
    let (q, first, rest) =
      >>=-eq-ok (enqueue_container affected new service service.container_spec p) _ e in
    ground (
      arith,
      enqueue_container-assigned affected new service service.container_spec p q s r first,
      enqueue_services-assigned affected new services q p' s r rest,
    )

-- After the services of an updated secret are queued, a reference ID of a service is assigned the
-- created version exactly when a listed service of that ID uses the secret by a reference of that
-- ID; every other assignment is what it was.
pub enqueue_updated_services-assigned :
    (services : List Service) (swarm_secret : ExistingSecret) (created : CreatedSecretVersion)
    (p p' : Pending) (s r : Text)
    → enqueue_updated_services services swarm_secret created p ≡ ok p'
    → assigned p' s r ≡ (
        if any (selects (λ ref. secret_reference_uses_managed_secret ref swarm_secret) s r) services
        then some (record { name = created.name; id = created.id })
        else assigned p s r)
unfolding enqueue_updated_services
enqueue_updated_services-assigned services swarm_secret created p p' s r e =
    enqueue_services-assigned _ _ services p p' s r e

-- After the services that lag behind an unchanged secret are queued, a reference ID of a service
-- is assigned the parent exactly when a listed service of that ID uses the secret by a reference
-- of that ID which is not the parent's; every other assignment is what it was.
pub enqueue_same_version_services-assigned :
    (services : List Service) (swarm_secret : ExistingSecret) (p p' : Pending) (s r : Text)
    → enqueue_same_version_services services swarm_secret p ≡ ok p'
    → assigned p' s r ≡ (
        if any (selects (is_stale swarm_secret) s r) services
        then some (record { name = swarm_secret.path; id = swarm_secret.id })
        else assigned p s r)
unfolding enqueue_same_version_services
enqueue_same_version_services-assigned services swarm_secret p p' s r e =
    enqueue_services-assigned _ _ services p p' s r e
