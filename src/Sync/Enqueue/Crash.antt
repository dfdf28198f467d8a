-- ===== src/Sync/Enqueue/Crash.antt =====
-- A service without a container specification makes the queueing panic; nothing else does.
use cloud_secrets.Prelude.{
  ◌≡◌, refl, Bool, true, false, Option, none, some, List, [], ◌∷◌, any, ok, panic, ◌||◌, ◌>>=◌,
  if◌then◌else◌,
}
use cloud_secrets.Engine.{Service, SecretReference}
use cloud_secrets.Sync.Payload.{Pending, UpdatingServiceSecret}
use cloud_secrets.Sync.Enqueue.{enqueue_references, enqueue_container, enqueue_services}

abbrev pub is_nil : Option (List SecretReference) → Bool
is_nil none = true
is_nil (some refs) = false

abbrev pub has_no_container : Service → Bool
has_no_container service = is_nil service.container_spec

abbrev pub enqueue_present :
    (SecretReference → Bool)
    → UpdatingServiceSecret
    → Service
    → Option (List SecretReference)
    → Pending
    → Pending
enqueue_present affected new service none p = p
enqueue_present affected new service (some refs) p = enqueue_references affected new service refs p

-- The pending updates after all services are queued, where each has a container.
abbrev pub enqueue_all :
    (SecretReference → Bool) → UpdatingServiceSecret → List Service → Pending → Pending
enqueue_all affected new [] p = p
enqueue_all affected new (service ∷ services) p =
    enqueue_all affected new services
      (enqueue_present affected new service service.container_spec p)

module _ (affected : SecretReference → Bool) (new : UpdatingServiceSecret) where
  enqueue_rest :
      (service : Service) (services : List Service) (c : Option (List SecretReference))
      (p : Pending)
      → ((p : Pending)
          → enqueue_services affected new services p ≡ (
              if any has_no_container services
              then panic
              else ok (enqueue_all affected new services p)))
      → (enqueue_container affected new service c p >>= enqueue_services affected new services) ≡ (
          if is_nil c || any has_no_container services
          then panic
          else ok (enqueue_all affected new services (enqueue_present affected new service c p)))
  enqueue_rest service services none p ih = refl
  enqueue_rest service services (some refs) p ih = ih _

  -- Queueing panics exactly when a listed service has no container specification, and succeeds
  -- otherwise.
  pub enqueue_services-panic :
      (services : List Service) (p : Pending)
      → enqueue_services affected new services p ≡ (
          if any has_no_container services then panic else ok (enqueue_all affected new services p))
  unfolding enqueue_services
  enqueue_services-panic [] p = refl
  enqueue_services-panic (service ∷ services) p =
      enqueue_rest service services service.container_spec p (enqueue_services-panic services)
