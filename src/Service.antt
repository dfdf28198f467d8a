-- ===== src/Service.antt =====
-- The parts put together, from the gRPC service to Vault: what a client of the service knows when its
-- request to create a secret succeeds.
use cloud_secrets.Prelude.{
  ℕ, ◌≡◌, refl, Bool, true, false, not, some, [], arith, if◌then◌else◌, Error, Result, ok, err,
  panic, Text, ◌==◌,
}
use cloud_secrets.Prelude.Exec.{Exec, run_through, lift}
use cloud_secrets.Api
use cloud_secrets.Api.{CreateSecretResponse, Reply, reply, refuse, Status, Syncer}
use cloud_secrets.Strings.{contains}
use cloud_secrets.Strings.Utf8.{valid_utf8}
use cloud_secrets.Strings.Trim.{trim_space, trim_slashes}
use cloud_secrets.Providers.Grpc.{Code}
use cloud_secrets.Providers.Contracts.{CreateSecretRequest, Provider, Secret}
use cloud_secrets.Providers.Metered.{Metered, with_metrics}
use cloud_secrets.Providers.Vault
use cloud_secrets.Providers.Vault.{
  VaultClient, create_at, create_key, created_at, normalize_create_path,
}
use cloud_secrets.Providers.Vault.Api.{VaultApi}
use cloud_secrets.Providers.Vault.Api.Write.{Document, IsVersioned, AddsKey, create_secret_key_adds}
use cloud_secrets.Providers.Vault.Connect.{vault_provider, for_provider, http_client}
use cloud_secrets.Providers.Vault.Api.Role.{RoleApi}

-- A creation that the client of the API has made under the path of its result.
record IsMade {W : Type 0} (client : VaultClient W) (req : CreateSecretRequest) (w : W)
    (r : Result Secret × W) (secret : Secret) : Type 0 where
  made : (client.create_secret_key secret.path (trim_space req.key) req.value w).0 ≡ ok tt
  after : r.1 ≡ (client.create_secret_key secret.path (trim_space req.key) req.value w).1

created_ok :
    (path : Text) (r : Result (Unit {0})) (secret : Secret)
    → created_at path r ≡ ok secret
    → (r ≡ ok tt) × (path ≡ secret.path)
created_ok path (ok _) secret h = (refl, ground arith)
created_ok path (err e) secret h = cc
created_ok path panic secret h = cc

module _ {W : Type 0} (client : VaultClient W) (req : CreateSecretRequest) where
  record Makes (m : Exec W Secret) : Type 0 where
    outcome : (w : W) (secret : Secret) → (m w).0 ≡ ok secret → IsMade client req w (m w) secret

  create_key-Makes : (path : Text) → Makes (create_key client path (trim_space req.key) req.value)
  create_key-Makes path = record {
    outcome = λ w secret h.
        let made =
          created_ok path (client.create_secret_key path (trim_space req.key) req.value w).0 secret
            h in
        record { made = rw (← made.1) made.0; after = rw (← made.1) refl };
  }

  refused-Makes :
      (b : Bool) (e : Error) (m : Exec W Secret) → Makes m → Makes (if b then lift (err e) else m)
  unfolding lift
  refused-Makes true e m k = record { outcome = λ w secret h. cc }
  refused-Makes false e m k = k

  create_at-Makes : (path : Text) → Makes (create_at client req path)
  create_at-Makes path = refused-Makes (trim_space req.key == []) _ _ (
      refused-Makes (contains b'/' (trim_space req.key)) _ _ (
        refused-Makes (not (req.description == [])) _ _
          (refused-Makes (not (valid_utf8 req.value)) _ _ (create_key-Makes path))))

  create_secret-Makes : Makes (Vault.create_secret client req)
  unfolding Vault.create_secret lift
  create_secret-Makes = record {
    outcome = λ w secret h.
        let through =
          run_through (lift (normalize_create_path req.path)) (create_at client req) w secret h in
        let at_path = create_at-Makes through.0 in
        rw through.2 (at_path.outcome w secret (rw through.2 at h));
  }

module _ {W : Type 0} (status_code : Error → Code) (version : Text) (vault : VaultApi W)
    (roles : RoleApi W) (mount_path : Text) (fuel : ℕ) (syncer : Syncer (Metered W)) where
  abbrev provider : Provider (Metered W)
  provider = with_metrics (vault_provider fuel (for_provider (http_client vault roles mount_path)))

  abbrev sent : CreateSecretRequest → W → Result Secret × W
  sent req = Vault.create_secret (for_provider (http_client vault roles mount_path)) req

  replied :
      (r : Result Secret) (response : CreateSecretResponse)
      → Api.create_reply status_code version provider syncer r ≡ reply response
      → (secret : Secret) × (r ≡ ok secret) × (secret.path ≡ response.path)
  replied (ok secret) response h = (secret, refl, ground arith)
  replied (err e) response h = cc
  replied panic response h = cc

  -- A reply that is given only where a test fails.
  refused_reply :
      (b : Bool) (status : Status) (w : Metered W) (o : Reply CreateSecretResponse × Metered W)
      (response : CreateSecretResponse) (P : Metered W → Type 0)
      → (o.0 ≡ reply response → P o.1)
      → (if b then (refuse status, w) else o).0 ≡ reply response
      → P (if b then (refuse status, w) else o).1
  refused_reply true status w o response P k h = cc
  refused_reply false status w o response P k h = k h

  abbrev pub answer : CreateSecretRequest → Metered W → Reply CreateSecretResponse × Metered W
  answer req w = Api.create status_code version provider syncer (some req) w

  sent_adds :
      (document : W → Text → Document)
      → IsVersioned vault document
      → (req : CreateSecretRequest) (w : W) (response : CreateSecretResponse)
      → Api.create_reply status_code version provider syncer (sent req w).0 ≡ reply response
      → (before : W) × AddsKey vault document
          (trim_slashes response.path)
          (trim_space req.key)
          req.value
          before
          (sent req w).1
  unfolding http_client
  sent_adds document laws req w response h =
      let got = replied (sent req w).0 response h in
      let makes = create_secret-Makes (for_provider (http_client vault roles mount_path)) req in
      let made = makes.outcome w got.0 got.1 in
      let added =
        create_secret_key_adds vault document laws got.0.path (trim_space req.key) req.value w
          made.made in
      rw (← got.2) (rw made.after added)

  -- If the service, over the provider of Vault with its metrics, answers a request with success, and
  -- the KV engine behaves as documented, then the key of the request, without the spaces around it,
  -- was added with its value to the document at the path of the answer, which did not have it, and
  -- nothing else in the document was changed by that write, whatever other clients wrote meanwhile.
  pub create_adds :
      (document : W → Text → Document)
      → IsVersioned vault document
      → (req : CreateSecretRequest) (w : Metered W) (response : CreateSecretResponse)
      → (answer req w).0 ≡ reply response
      → (before : W) × AddsKey vault document
          (trim_slashes response.path)
          (trim_space req.key)
          req.value
          before
          (answer req w).1.world
  unfolding Api.create with_metrics vault_provider
  create_adds document laws req w response h =
      refused_reply (trim_space req.path == []) _ w _ response
        (λ after.
          (before : W) × AddsKey vault document (trim_slashes response.path) (trim_space req.key)
            req.value before after.world)
        (sent_adds document laws req w.world response) h
