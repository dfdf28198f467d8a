-- ===== src/Sync/Payload.antt =====
-- internal/sync/payload.go and the types of synchronizer.go: what a run carries from step to step.
use cloud_secrets.Prelude.{ℕ, Bool, true, false, List, [], ◌∷◌, not, Text, ok}
use cloud_secrets.Prelude.Dict.{Dict}
use cloud_secrets.Prelude.Exec.{Exec, actions}
use cloud_secrets.Engine.{Service, ExistingSecret, Client}
use cloud_secrets.Providers.Contracts.{Secret, Provider}
use cloud_secrets.Metrics.{Secrets}

-- sync.Result
pub record SyncResult : Type 0 where
  pub created : ℕ
  pub removed_secrets : ℕ
  pub removed_secret_versions : ℕ
  pub updated : ℕ
  pub skipped : ℕ

pub record UpdatingServiceSecret : Type 0 where
  pub name : Text
  pub id : Text

pub record ServiceTask : Type 0 where
  pub service : Service
  pub secrets : Dict UpdatingServiceSecret

pub record UpdatedSecret : Type 0 where
  pub path : Text
  pub value : Text
  pub description : Text
  pub external_path : Text
  pub external_id : Text

-- The pointer `Secret` is kept as the value that it points to: of a queued secret only the fields
-- `ID`, `Path` and `Versions` are read, and none of them is written after it is queued.
pub record SecretVersionRemoval : Type 0 where
  pub secret : ExistingSecret
  pub remove_parent : Bool

-- The tasks by service ID, and their order. The order holds pointers to the tasks of the map; a
-- task is never replaced under its key, so the key stands for the pointer.
pub record Pending : Type 0 where
  pub pending_service_updates : Dict ServiceTask
  pub pending_service_update_order : List Text

pub record SyncPayload : Type 0 where
  pub result : SyncResult
  pub services : List Service
  pub swarm_secrets_map : Dict ExistingSecret
  pub external_secrets : Dict Secret
  pub pending : Pending
  pub open pending use *
  pub pending_version_removals : List SecretVersionRemoval
  pub pending_secret_restores : List UpdatedSecret
  pub pending_service_offset : ℕ

abbrev pub no_result : SyncResult
no_result = record {
  created = 0;
  removed_secrets = 0;
  removed_secret_versions = 0;
  updated = 0;
  skipped = 0;
}

-- The payload that `Sync` starts from.
abbrev pub empty_payload : SyncPayload
empty_payload = record {
  result = no_result;
  services = [];
  swarm_secrets_map = [];
  external_secrets = [];
  pending = record { pending_service_updates = []; pending_service_update_order = [] };
  pending_version_removals = [];
  pending_secret_restores = [];
  pending_service_offset = 0;
}

abbrev is_empty {ℓ} : {A : Type ℓ} → List A → Bool
is_empty [] = true
is_empty (x ∷ xs) = false

unfoldable pub has_pending_service_updates : SyncPayload → Bool
has_pending_service_updates p = not (is_empty p.pending_service_updates)

unfoldable pub has_pending_version_removals : SyncPayload → Bool
has_pending_version_removals p = not (is_empty p.pending_version_removals)

unfoldable pub has_pending_secret_restores : SyncPayload → Bool
has_pending_secret_restores p = not (is_empty p.pending_secret_restores)

-- The synchronizer's fields that do not change. `new_uuid` stands for `uuid.NewString`.
pub record Synchronizer (W : Type 0) : Type 0 where
  pub engine : Client W
  pub secret_provider : Provider W
  pub cleanup_orphaned : Bool
  pub folder_delimiter : Text
  pub new_uuid : Exec W Text

-- What a run changes: the world behind the clients, the metrics and the payload.
pub record SyncState (W : Type 0) : Type 0 where
  pub world : W
  pub metrics : Secrets
  pub payload : SyncPayload

abbrev pub Step : Type 0 → Type 0
Step W = Exec (SyncState W) (Unit {0})

-- A call of a client.
unfoldable pub call : {W A : Type 0} → Exec W A → Exec (SyncState W) A
call m s = ((m s.world).0, record s { world = (m s.world).1 })

-- A change of the payload alone.
unfoldable pub modify : {W : Type 0} → (SyncPayload → SyncPayload) → Step W
modify f s = (ok tt, record s { payload = f s.payload })

-- A read of the payload.
unfoldable pub reads : {W A : Type 0} → (SyncPayload → A) → Exec (SyncState W) A
reads f s = (ok (f s.payload), s)

-- A change of the metrics alone.
unfoldable pub count : {W : Type 0} → (Secrets → Secrets) → Step W
count f s = (ok tt, record s { metrics = f s.metrics })

-- To unfold this is to unfold the ways to build a step.
unfoldable pub step_actions : Unit {0}
unfolding actions call modify reads count
step_actions = tt
