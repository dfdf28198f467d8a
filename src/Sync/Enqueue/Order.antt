-- ===== src/Sync/Enqueue/Order.antt =====
-- The order of the tasks lists the keys of the task map, each once.
use mathlib.Core.Path.{subst}
use cloud_secrets.Prelude.{
  >>=-eq-ok, ◌⊎◌, inl, inr, ◌≡◌, refl, Bool, true, false, Option, none, some, List, [], ◌∷◌, Text,
  ok, arith, if◌then◌else◌,
}
use cloud_secrets.Prelude.Dict
use cloud_secrets.Prelude.Dict.{NodupKeys}
use cloud_secrets.Engine.{Service, SecretReference, ExistingSecret, CreatedSecretVersion}
use cloud_secrets.Sync.Payload.{Pending, ServiceTask, UpdatingServiceSecret}
use cloud_secrets.Sync.Enqueue.{
  assign_found, assign, enqueue_container, enqueue_references, enqueue_services,
  enqueue_same_version_services, enqueue_updated_services,
}

pub record IsOrdered (p : Pending) : Type 0 where
  pub order : p.pending_service_update_order ≡ Dict.keys p.pending_service_updates
  pub nodup : NodupKeys p.pending_service_updates

assign_found-IsOrdered :
    (o : Option ServiceTask) (service : Service) (ref_id : Text) (new : UpdatingServiceSecret)
    (p : Pending)
    → Dict.lookup service.id p.pending_service_updates ≡ o
    → IsOrdered p
    → IsOrdered (assign_found o service ref_id new p)
unfolding Dict.has
assign_found-IsOrdered none service ref_id new p found h = record {
  order = rw (Dict.keys-insert, h.order) (ground arith);
  nodup = Dict.insert-NodupKeys _ _ _ h.nodup;
}
assign_found-IsOrdered (some task) service ref_id new p found h = record {
  order = rw Dict.keys-insert (ground arith);
  nodup = Dict.insert-NodupKeys _ _ _ h.nodup;
}

assign-IsOrdered :
    (service : Service) (ref_id : Text) (new : UpdatingServiceSecret) (p : Pending)
    → IsOrdered p
    → IsOrdered (assign service ref_id new p)
unfolding assign
assign-IsOrdered service ref_id new p h = assign_found-IsOrdered _ service ref_id new p refl h

enqueue_references-IsOrdered :
    (affected : SecretReference → Bool) (new : UpdatingServiceSecret) (service : Service)
    (refs : List SecretReference) (p : Pending)
    → IsOrdered p
    → IsOrdered (enqueue_references affected new service refs p)
unfolding enqueue_references
enqueue_references-IsOrdered affected new service [] p h = h
enqueue_references-IsOrdered affected new service (ref ∷ refs) p h =
    enqueue_references-IsOrdered affected new service refs _ (kept (affected ref))
  where
    kept : (b : Bool) → IsOrdered (if b then assign service ref.secret_id new p else p)
    kept true = assign-IsOrdered service ref.secret_id new p h
    kept false = h

enqueue_container-IsOrdered :
    (affected : SecretReference → Bool) (new : UpdatingServiceSecret) (service : Service)
    (c : Option (List SecretReference)) (p p' : Pending)
    → IsOrdered p
    → enqueue_container affected new service c p ≡ ok p'
    → IsOrdered p'
enqueue_container-IsOrdered affected new service none p p' h e = cc
enqueue_container-IsOrdered affected new service (some refs) p p' h e =
    subst IsOrdered (cc) (enqueue_references-IsOrdered affected new service refs p h)

enqueue_services-IsOrdered :
    (affected : SecretReference → Bool) (new : UpdatingServiceSecret) (services : List Service)
    (p p' : Pending)
    → IsOrdered p
    → enqueue_services affected new services p ≡ ok p'
    → IsOrdered p'
unfolding enqueue_services
enqueue_services-IsOrdered affected new [] p p' h e = subst IsOrdered (cc) h
enqueue_services-IsOrdered affected new (service ∷ services) p p' h e =
    let (q, first, rest) =
      >>=-eq-ok (enqueue_container affected new service service.container_spec p) _ e in
    enqueue_services-IsOrdered affected new services q p'
      (enqueue_container-IsOrdered affected new service service.container_spec p q h first) rest

-- Queueing the services of an updated secret, or those that lag behind an unchanged one, keeps the
-- order of the tasks a list of the keys of the task map, each once.
pub enqueue-IsOrdered :
    (services : List Service) (swarm_secret : ExistingSecret) (created : CreatedSecretVersion)
    (p p' : Pending)
    → IsOrdered p
    → (enqueue_updated_services services swarm_secret created p ≡ ok p')
      ⊎ (enqueue_same_version_services services swarm_secret p ≡ ok p')
    → IsOrdered p'
unfolding enqueue_updated_services enqueue_same_version_services
enqueue-IsOrdered services swarm_secret created p p' h (inl e) =
    enqueue_services-IsOrdered _ _ services p p' h e
enqueue-IsOrdered services swarm_secret created p p' h (inr e) =
    enqueue_services-IsOrdered _ _ services p p' h e
