-- ===== src/Providers/Vault/Api/Auth.antt =====
-- authenticator_approle.go, client_auth_decorator.go and interfaces.go of
-- internal/providers/vault/api: the client that logs in before its calls. The foreign login is an
-- argument, and the lock is that a call runs alone.
use cloud_secrets.Prelude.Dict.{Dict}
use cloud_secrets.Prelude.{
  ℕ, ◌<◌, ◌≤◌, ◌≡◌, refl, Bool, not, ◌&&◌, Option, none, some, List, arith, ltb, eqb, if◌then◌else◌,
  message, wrap, Result, ok, err, panic, Text,
}
use cloud_secrets.Prelude.Exec.{Exec, ◌>>◌, context}
use cloud_secrets.Prelude.Time.{add, seconds}
use cloud_secrets.Providers.Vault.Api.{VaultSecret, Value, CreateAclPolicyRequest}
use cloud_secrets.Providers.Vault.Api.Role.{CreateAppRoleRequest}

-- The interface `Client`
pub record Client (W : Type 0) : Type 0 where
  pub list_keys : Text → Exec W (List Text)
  pub get_secret : Text → Text → Exec W VaultSecret
  pub create_secret : Text → Dict Value → Exec W VaultSecret
  pub create_secret_key : Text → Text → Text → Exec W (Unit {0})
  pub delete_secret : Text → Exec W (Unit {0})
  pub create_acl_policy : CreateAclPolicyRequest → Exec W (Unit {0})
  pub create_token : List Text → Exec W Text
  pub app_role_auth_enabled : Exec W Bool
  pub enable_app_role_auth : Exec W (Unit {0})
  pub create_app_role : CreateAppRoleRequest → Exec W (Unit {0})
  pub read_app_role_role_id : Text → Exec W Text
  pub create_app_role_secret_id : Text → Exec W Text

-- vaultapi.SecretAuth, with the lease in seconds, as the residue of a signed integer of 64 bits
pub record SecretAuth : Type 0 where
  pub client_token : Text
  pub lease_duration : ℕ

-- AppRoleAuthenticator: when the token expires, in nanoseconds since the zero time, beside the
-- world behind the client.
pub record Authenticated (W : Type 0) : Type 0 where
  pub token_expires_at : ℕ
  pub world : W

-- `login` is `AppRoleAuth.Login`, whose secret may lack auth data, `set_token` sets the token of
-- the client, and `now` is the clock.
module _ {W : Type 0} (login : Exec W (Option SecretAuth)) (set_token : Text → W → W)
    (now : W → ℕ) where
  abbrev pub logged_in :
      Result (Option SecretAuth) → Authenticated W → Result (Unit {0}) × Authenticated W
  logged_in (ok none) a = (err (message "given secret not contains auth data"), a)
  logged_in (ok (some auth)) a =
      let w = set_token auth.client_token a.world in
      (ok tt, record { token_expires_at = add (now w) (seconds auth.lease_duration); world = w })
  logged_in (err e) a = (err (wrap "login" e), a)
  logged_in panic a = (panic, a)

  unfoldable pub authenticate_locked : Exec (Authenticated W) (Unit {0})
  authenticate_locked a = let (r, w) = login a.world in logged_in r (record a { world = w })

  unfoldable pub authenticate : Exec (Authenticated W) (Unit {0})
  unfolding authenticate_locked
  authenticate a =
      if not (eqb a.token_expires_at 0) && ltb (now a.world) a.token_expires_at
      then (ok tt, a)
      else authenticate_locked a

  -- A call of the client that is decorated.
  abbrev called : {A : Type 0} → Exec W A → Exec (Authenticated W) A
  called m a = let (r, w) = m a.world in (r, record a { world = w })

  abbrev after_login : {A : Type 0} → Exec W A → Exec (Authenticated W) A
  after_login m = context "authenticate" authenticate >> called m

  -- AuthenticatedClient
  unfoldable pub authenticated_client : Client W → Client (Authenticated W)
  unfolding authenticate
  authenticated_client client = record {
    list_keys = λ path. after_login (client.list_keys path);
    get_secret = λ path key. after_login (client.get_secret path key);
    create_secret = λ path fields. after_login (client.create_secret path fields);
    create_secret_key = λ path key value. after_login (client.create_secret_key path key value);
    delete_secret = λ path. after_login (client.delete_secret path);
    create_acl_policy = λ req. after_login (client.create_acl_policy req);
    create_token = λ policies. after_login (client.create_token policies);
    app_role_auth_enabled = after_login client.app_role_auth_enabled;
    enable_app_role_auth = after_login client.enable_app_role_auth;
    create_app_role = λ req. after_login (client.create_app_role req);
    read_app_role_role_id = λ name. after_login (client.read_app_role_role_id name);
    create_app_role_secret_id = λ name. after_login (client.create_app_role_secret_id name);
  }

  -- The time at which a token expires that was granted in a world.
  abbrev pub expiry : SecretAuth → W → ℕ
  expiry auth w = add (now (set_token auth.client_token w)) (seconds auth.lease_duration)

  authenticate_valid :
      (a : Authenticated W) → now a.world < a.token_expires_at → authenticate a ≡ (ok tt, a)
  unfolding authenticate
  authenticate_valid a valid = ground arith

  authenticate_expired :
      (a : Authenticated W)
      → a.token_expires_at ≤ now a.world
      → authenticate a ≡ logged_in (login a.world).0 (record a { world = (login a.world).1 })
  unfolding authenticate authenticate_locked
  authenticate_expired a expired = ground arith

  abbrev leased : SecretAuth → W → Authenticated W
  leased auth w = record { token_expires_at = expiry auth w; world = set_token auth.client_token w }

  authenticate-logged_in :
      (a : Authenticated W) (auth : SecretAuth) (w : W)
      → a.token_expires_at ≤ now a.world
      → login a.world ≡ (ok (some auth), w)
      → authenticate a ≡ (ok tt, leased auth w)
  authenticate-logged_in a auth w expired granted =
      rw (authenticate_expired a expired) (rw granted refl)

  -- A call without a valid token logs in and sets the token. From then on, however the world changes,
  -- calls do not log in again until the lease that the login granted has passed, counted from the
  -- time of the login; a call at that time or later logs in again.
  pub authenticate_leased :
      (a : Authenticated W) (auth : SecretAuth) (w later : W)
      → a.token_expires_at ≤ now a.world
      → login a.world ≡ (ok (some auth), w)
      → ((authenticate a).0 ≡ ok tt)
        × ((authenticate a).1.world ≡ set_token auth.client_token w)
        × (now later < expiry auth w
            → authenticate (record (authenticate a).1 { world = later })
              ≡ (ok tt, record (authenticate a).1 { world = later }))
        × (expiry auth w ≤ now later
            → authenticate (record (authenticate a).1 { world = later })
              ≡ logged_in (login later).0 (record (authenticate a).1 { world = (login later).1 }))
  authenticate_leased a auth w later expired granted =
      let logged = authenticate-logged_in a auth w expired granted in
      rw logged (
        refl,
        refl,
        λ valid. authenticate_valid (record (leased auth w) { world = later }) valid,
        λ over. authenticate_expired (record (leased auth w) { world = later }) over,
      )
