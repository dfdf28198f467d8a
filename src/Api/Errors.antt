-- ===== src/Api/Errors.antt =====
-- How the errors of the providers reach a client of the service.
use cloud_secrets.Api.{create_secret_error, is_canceled_error, is_deadline_error}
use cloud_secrets.Prelude.{◌≡◌, true, false, arith, Error, is_sentinel}
use cloud_secrets.Providers.Grpc.{
  Code, code_already_exists, code_aborted, is_canceled, is_deadline_exceeded,
}
use cloud_secrets.Providers.Vault.{creation_error, is_secret_key_exists, is_cas_conflict_sentinel}

-- The error is none of those that a canceled call makes.
pub record IsUncanceled (status_code : Error → Code) (e : Error) : Type 0 where
  pub canceled_error : is_sentinel is_canceled_error e ≡ false
  pub deadline_error : is_sentinel is_deadline_error e ≡ false
  pub canceled_code : is_canceled (status_code (creation_error e)) ≡ false
  pub deadline_code : is_deadline_exceeded (status_code (creation_error e)) ≡ false

-- A creation that Vault refuses because the document has the key is answered as already existing,
-- if neither the error nor its status is that of a canceled call.
pub creation_error-already_exists :
    (status_code : Error → Code) (e : Error)
    → IsUncanceled status_code e
    → is_sentinel is_secret_key_exists e ≡ true
    → (create_secret_error status_code (creation_error e)).code ≡ code_already_exists
unfolding create_secret_error creation_error is_sentinel
creation_error-already_exists status_code e u exists = ground arith

-- A creation that lost against concurrent writers, and found no key, is answered as aborted, if
-- neither the error nor its status is that of a canceled call.
pub creation_error-aborted :
    (status_code : Error → Code) (e : Error)
    → IsUncanceled status_code e
    → is_sentinel is_secret_key_exists e ≡ false
    → is_sentinel is_cas_conflict_sentinel e ≡ true
    → (create_secret_error status_code (creation_error e)).code ≡ code_aborted
unfolding create_secret_error creation_error is_sentinel
creation_error-aborted status_code e u missing conflict = ground arith
