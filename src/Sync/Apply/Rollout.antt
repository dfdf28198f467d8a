-- ===== src/Sync/Apply/Rollout.antt =====
-- The step implements a plain rollout: the planned services are updated one after the other until
-- one update fails, and the offset counts the updates that succeeded.
use mathlib.Core.Path.{subst, ◌∙◌}
use cloud_secrets.Prelude.{
  Bool-cases, inl, inr, eqb, leb, leb→le, drop-eq-nil, ℕ, suc, ◌+◌, ◌≡◌, refl, false, Option, none,
  some, List, [], ◌∷◌, length, drop, any, Text, ◌==◌, Result, ok, err, panic, wrap, arith,
}
use cloud_secrets.Prelude.Dict
use cloud_secrets.Prelude.Dict.{Dict}
use cloud_secrets.Prelude.Exec.{Exec, pure, ◌>>◌}
use cloud_secrets.Engine.{Service, SecretReference}
use cloud_secrets.Sync.Payload.{Synchronizer, SyncState, ServiceTask, step_actions}
use cloud_secrets.Sync.Apply.{
  swap_references, with_secrets, apply_container, apply_found, apply_task, apply_tasks,
  apply_service_updates, store_task, update_task, advance_offset,
}

-- How a rollout ends: the result, the world and the number of services that were updated.
pub record Outcome (W : Type 0) : Type 0 where
  pub result : Result (Unit {0})
  pub world : W
  pub updated : ℕ

module _ {W : Type 0} (update : Service → Exec W (Unit {0})) where
  abbrev pub one_more : Outcome W → Outcome W
  one_more o = record o { updated = suc o.updated }

  abbrev pub after_update : (W → Outcome W) → Result (Unit {0}) → W → Outcome W
  after_update rest (ok _) w = one_more (rest w)
  after_update rest (err e) w = record {
    result = err (wrap "update service" e);
    world = w;
    updated = 0;
  }
  after_update rest panic w = record { result = panic; world = w; updated = 0 }

  -- The specification.
  pub rollout : List Service → W → Outcome W
  rollout [] w = record { result = ok tt; world = w; updated = 0 }
  rollout (service ∷ services) w =
      after_update (rollout services) (update service w).0 (update service w).1

  -- A rollout that succeeds has updated every service.
  pub rollout-updated :
      (services : List Service) (w : W)
      → (rollout services w).result ≡ ok tt
      → (rollout services w).updated ≡ length services
  unfolding rollout
  rollout-updated [] w h = refl
  rollout-updated (service ∷ services) w h =
      ground (arith, rollout-updated services (update service w).1)

-- The service of a task with its references swapped.
abbrev planned_service : ServiceTask → Option (List SecretReference) → Option Service
planned_service task none = none
planned_service task (some refs) =
    some (with_secrets task.service (swap_references task.secrets refs))

abbrev planned_task : Option ServiceTask → Option Service
planned_task none = none
planned_task (some task) = planned_service task task.service.container_spec

abbrev cons_planned : Option Service → Option (List Service) → Option (List Service)
cons_planned (some service) (some services) = some (service ∷ services)
cons_planned _ _ = none

-- The services that the tasks of the given IDs plan to update, if each has its task and its
-- container.
abbrev pub plan : Dict ServiceTask → List Text → Option (List Service)
plan tasks [] = some []
plan tasks (id ∷ ids) = cons_planned (planned_task (Dict.lookup id tasks)) (plan tasks ids)

-- No ID stands twice.
abbrev pub Distinct : List Text → Type 0
Distinct [] = Unit
Distinct (id ∷ ids) = (any (λ other. id == other) ids ≡ false) × Distinct ids

plan-insert :
    (tasks : Dict ServiceTask) (id : Text) (task : ServiceTask) (ids : List Text)
    → any (λ other. id == other) ids ≡ false
    → plan (Dict.insert id task tasks) ids ≡ plan tasks ids
plan-insert tasks id task [] h = refl
plan-insert tasks id task (other ∷ ids) h =
    rw Dict.lookup-insert (ground (arith, plan-insert tasks id task ids))

-- The end of the step agrees with an outcome of the specification.
pub record Implements {W : Type 0} (st : SyncState W) (r : Result (Unit {0}) × SyncState W)
    (o : Outcome W) : Type 0 where
  pub result : r.0 ≡ o.result
  pub world : r.1.world ≡ o.world
  pub offset : r.1.payload.pending_service_offset ≡ st.payload.pending_service_offset + o.updated

module _ {W : Type 0} (s : Synchronizer W) where
  abbrev update : Service → Exec W (Unit {0})
  update = s.engine.update_service

  -- The state in which the rest of the tasks is applied.
  abbrev next_state : Text → ServiceTask → Service → SyncState W → SyncState W
  next_state id task service st = record st {
    world = (update service st.world).1;
    payload = advance_offset (store_task id (record task { service = service }) st.payload);
  }

  update_task-Implements :
      (id : Text) (task : ServiceTask) (refs : List SecretReference) (ids : List Text)
      (services : List Service) (st : SyncState W)
      → let service = with_secrets task.service (swap_references task.secrets refs) in
        let st' = next_state id task service st in
        Implements st' (apply_tasks s ids st') (rollout update services st'.world)
        → Implements st
            ((update_task s id task refs >> apply_tasks s ids) st)
            (rollout update (service ∷ services) st.world)
  unfolding rollout step_actions
  update_task-Implements id task refs ids services st ih = ground (arith, ih)

  apply_container-Implements :
      (c : Option (List SecretReference)) (task : ServiceTask) (id : Text) (ids : List Text)
      (rest services : List Service) (st : SyncState W)
      → any (λ other. id == other) ids ≡ false
      → plan st.payload.pending_service_updates ids ≡ some rest
      → cons_planned (planned_service task c) (some rest) ≡ some services
      → ((st : SyncState W)
          → plan st.payload.pending_service_updates ids ≡ some rest
          → Implements st (apply_tasks s ids st) (rollout update rest st.world))
      → Implements st
          ((apply_container s id task c >> apply_tasks s ids) st)
          (rollout update services st.world)
  apply_container-Implements none task id ids rest services st fresh h planned ih = cc
  apply_container-Implements (some refs) task id ids rest services st fresh h planned ih =
      let service : Service = with_secrets task.service (swap_references task.secrets refs) in
      let same : service ∷ rest ≡ services = cc in
      subst
        (λ l.
          Implements st ((update_task s id task refs >> apply_tasks s ids) st)
            (rollout update l st.world))
        same
        (update_task-Implements id task refs ids rest st
          (ih (next_state id task service st) (plan-insert _ id _ ids fresh ∙ h)))

  apply_found-Implements :
      (o : Option ServiceTask) (p : Option (List Service)) (id : Text) (ids : List Text)
      (services : List Service) (st : SyncState W)
      → any (λ other. id == other) ids ≡ false
      → plan st.payload.pending_service_updates ids ≡ p
      → cons_planned (planned_task o) p ≡ some services
      → ((st : SyncState W) (rest : List Service)
          → plan st.payload.pending_service_updates ids ≡ some rest
          → Implements st (apply_tasks s ids st) (rollout update rest st.world))
      → Implements st
          ((apply_found s id o >> apply_tasks s ids) st)
          (rollout update services st.world)
  apply_found-Implements none p id ids services st fresh h planned ih = cc
  apply_found-Implements (some task) none id ids services st fresh h planned ih = ground arith
  apply_found-Implements (some task) (some rest) id ids services st fresh h planned ih =
      apply_container-Implements task.service.container_spec task id ids rest services st fresh h
        planned (λ st'. ih st' rest)

  -- Applied from any state, the tasks of distinct IDs do to the world what the rollout of their
  -- planned services does, with the same result, and move the offset by the number of services
  -- that were updated.
  apply_tasks-Implements :
      (ids : List Text) (services : List Service) (st : SyncState W)
      → Distinct ids
      → plan st.payload.pending_service_updates ids ≡ some services
      → Implements st (apply_tasks s ids st) (rollout update services st.world)
  unfolding apply_tasks rollout step_actions
  apply_tasks-Implements [] [] st d h = record { result = refl; world = refl; offset = omega arith }
  apply_tasks-Implements [] (service ∷ services) st d h = cc
  apply_tasks-Implements (id ∷ ids) services st d h =
      unfold apply_task in
      apply_found-Implements _ _ id ids services st d.0 refl h
        (λ st' rest h'. apply_tasks-Implements ids rest st' d.1 h')

  nothing_left :
      (ids : List Text) (services : List Service) (st : SyncState W)
      → ids ≡ []
      → plan st.payload.pending_service_updates ids ≡ some services
      → Implements st (pure tt st) (rollout update services st.world)
  unfolding rollout pure
  nothing_left [] [] st e h = record { result = refl; world = refl; offset = omega arith }
  nothing_left [] (service ∷ services) st e h = cc
  nothing_left (id ∷ ids) services st e h = cc

  -- If the queued IDs from the offset on are distinct, and each has its task and its container,
  -- the step does to the world what the rollout of the planned services does, with the same
  -- result, and moves the offset by the number of services that were updated.
  pub apply_service_updates-Implements :
      (services : List Service) (st : SyncState W)
      → let ids = drop st.payload.pending_service_offset st.payload.pending_service_update_order in
        Distinct ids
        → plan st.payload.pending_service_updates ids ≡ some services
        → Implements st (apply_service_updates s st) (rollout update services st.world)
  unfolding apply_service_updates
  apply_service_updates-Implements services st d h =
      let order : List Text = st.payload.pending_service_update_order in
      let offset : ℕ = st.payload.pending_service_offset in
      elim (Bool-cases (eqb (length order) 0)) [
        | inl nothing ↦
            rw nothing (nothing_left _ services st (drop-eq-nil offset order (ground arith)) h)
        | inr something ↦ rw something (elim (Bool-cases (leb (length order) offset)) [
          | inl done ↦
              rw done (nothing_left _ services st (drop-eq-nil offset order (leb→le _ _ done)) h)
          | inr more ↦ rw more (apply_tasks-Implements (drop offset order) services st d h)
        ])
      ]
