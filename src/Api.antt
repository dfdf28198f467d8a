-- ===== src/Api.antt =====
-- internal/api/api.go: the gRPC service over a provider and the application. The foreign package
-- `status` makes a status of a code and a message; of a formatted message only the constant words
-- are kept.
pub mod Errors
use cloud_secrets.Prelude.{
  ℕ, ◌%◌, ◌^◌, String, Bool, true, false, not, ◌&&◌, ◌||◌, Option, none, some, [], if◌then◌else◌,
  Error, Sentinel, message, Result, ok, err, panic, is_sentinel, invalid_create_request,
  secret_already_exists, create_conflict, sync_in_progress, canceled, deadline_exceeded, Text,
  codes, ◌==◌,
}
use cloud_secrets.Prelude.Exec.{Exec}
use cloud_secrets.Strings.Trim.{trim_space}
use cloud_secrets.Sync.Pipeline.{SyncReturn, returned, panicked}
use cloud_secrets.Providers.Grpc.{
  Code, code_canceled, code_deadline_exceeded, code_invalid_argument, code_already_exists,
  code_aborted, code_failed_precondition, code_internal, is_canceled, is_deadline_exceeded,
  is_not_found_code,
}
use cloud_secrets.Providers.Contracts.{CreateSecretRequest, Secret, Links, Provider}

-- status.Status; a message that is the text of an error is kept as the error.
pub data Message : Type 0 where
  words : String → Message
  of_error : Error → Message

pub record Status : Type 0 where
  pub code : Code
  pub message : Message

abbrev pub is_canceled_error : Sentinel → Bool
is_canceled_error canceled = true
is_canceled_error _ = false

abbrev pub is_deadline_error : Sentinel → Bool
is_deadline_error deadline_exceeded = true
is_deadline_error _ = false

abbrev pub is_invalid_request_error : Sentinel → Bool
is_invalid_request_error invalid_create_request = true
is_invalid_request_error _ = false

abbrev pub is_exists_error : Sentinel → Bool
is_exists_error secret_already_exists = true
is_exists_error _ = false

abbrev pub is_conflict_error : Sentinel → Bool
is_conflict_error create_conflict = true
is_conflict_error _ = false

abbrev pub is_in_progress_error : Sentinel → Bool
is_in_progress_error sync_in_progress = true
is_in_progress_error _ = false

-- `status_code` is `status.Code`.
module _ (status_code : Error → Code) where
  unfoldable pub create_secret_error : Error → Status
  unfolding is_sentinel
  create_secret_error e =
      if is_sentinel is_canceled_error e || is_canceled (status_code e)
      then record { code = code_canceled; message = words "secret creation canceled" }
      else if is_sentinel is_deadline_error e || is_deadline_exceeded (status_code e)
      then record {
        code = code_deadline_exceeded;
        message = words "secret creation deadline exceeded";
      }
      else if is_sentinel is_invalid_request_error e
      then record { code = code_invalid_argument; message = of_error e }
      else if is_sentinel is_exists_error e
      then record { code = code_already_exists; message = of_error e }
      else if is_sentinel is_conflict_error e
      then record { code = code_aborted; message = of_error e }
      else if is_not_found_code (status_code e)
      then record {
        code = code_failed_precondition;
        message = words "required provider folder was not found";
      }
      else record { code = code_internal; message = words "secret creation failed" }

-- status.FromContextError at the two errors of a context
abbrev context_status : Error → Status
context_status e =
    if is_sentinel is_deadline_error e
    then record { code = code_deadline_exceeded; message = of_error e }
    else record { code = code_canceled; message = of_error e }

unfoldable pub sync_error : Error → Status
unfolding is_sentinel
sync_error e =
    if is_sentinel is_in_progress_error e
    then record { code = code_aborted; message = of_error e }
    else if is_sentinel is_canceled_error e || is_sentinel is_deadline_error e
    then context_status e
    else record { code = code_internal; message = words "synchronization failed" }

-- grpcapi.SyncResponse, of 32 bits each
pub record SyncResponse : Type 0 where
  pub created : ℕ
  pub updated : ℕ
  pub removed : ℕ
  pub unchanged : ℕ

abbrev pub uint32 : ℕ → ℕ
uint32 n = n % 2 ^ 32

-- What a handler returns, or that it panics.
pub data Reply (A : Type 0) : Type 0 where
  reply : A → Reply A
  refuse : Status → Reply A
  crashed : Reply A

unfoldable pub sync_reply : SyncReturn → Reply SyncResponse
unfolding sync_error
sync_reply (returned result none) = reply (record {
  created = uint32 result.created;
  updated = uint32 result.updated;
  removed = uint32 result.removed_secrets;
  unchanged = uint32 result.skipped;
})
sync_reply (returned result (some e)) = refuse (sync_error e)
sync_reply panicked = crashed

-- grpcapi.CreateSecretResponse; an absent URL is `none`.
pub record CreateSecretResponse : Type 0 where
  pub path : Text
  pub manager_url : Option Text

-- grpcapi.GetInfoResponse
pub record InfoResponse : Type 0 where
  pub version : Text
  pub provider_name : Text
  pub provider_links : Option Links
  pub last_sync_at : Option ℕ
  pub next_sync_at : Option ℕ

-- The interface `Syncer`
pub record Syncer (W : Type 0) : Type 0 where
  pub sync : Text → W → SyncReturn × W
  pub last_sync_at : W → Option ℕ
  pub next_sync_at : Exec W (Option ℕ)

module _ {W : Type 0} (status_code : Error → Code) (version : Text) (provider : Provider W)
    (syncer : Syncer W) where
  abbrev pub create_reply : Result Secret → Reply CreateSecretResponse
  create_reply (ok secret) = reply (record {
    path = secret.path;
    manager_url = if secret.web_url == [] then none else some secret.web_url;
  })
  create_reply (err e) = refuse (create_secret_error status_code e)
  create_reply panic = crashed

  -- Create; a request may be nil.
  unfoldable pub create : Option CreateSecretRequest → W → Reply CreateSecretResponse × W
  unfolding trim_space create_secret_error
  create none w =
      (refuse (record { code = code_invalid_argument; message = words "path is required" }), w)
  create (some req) w =
      if trim_space req.path == []
      then (refuse (record { code = code_invalid_argument; message = words "path is required" }), w)
      else let (r, w') = provider.create_secret req w in (create_reply r, w')

  unfoldable pub sync_now : W → Reply SyncResponse × W
  unfolding sync_reply
  sync_now w = let (r, w') = syncer.sync (codes "grpc") w in (sync_reply r, w')

  abbrev info_of : Option ℕ → Result (Option ℕ) → Reply InfoResponse
  info_of last (ok next) = reply (record {
    version = version;
    provider_name = provider.definition.name;
    provider_links =
        if provider.definition.links.doc == [] && provider.definition.links.manager == []
        then none
        else some provider.definition.links;
    last_sync_at = last;
    next_sync_at = next;
  })
  info_of last _ = crashed

  unfoldable pub get_info : W → Reply InfoResponse × W
  get_info w = let (r, w') = syncer.next_sync_at w in (info_of (syncer.last_sync_at w) r, w')
