-- ===== src/Providers/Cloudru/Connect.antt =====
-- The constructor of internal/providers/cloudru/provider.go, the request of endpoints.go, and the
-- interceptor of iam.go. HTTP, gRPC and its metadata are foreign.
use cloud_secrets.Prelude.{
  ℕ, not, Option, none, some, List, ◌++◌, eqb, if◌then◌else◌, message, Result, Text, codes,
}
use cloud_secrets.Prelude.Exec.{Exec, pure, fail, lift, ◌>>=◌, ◌>>◌, context}
use cloud_secrets.Providers.Contracts.{Provider}
use cloud_secrets.Providers.Cloudru.{Config, SecretService, validate_config, cloudru_provider}
use cloud_secrets.Providers.Cloudru.Iam.{IamInterceptor, TokenResponse, get_or_create_token}
use cloud_secrets.Providers.Cloudru.Endpoints.{Endpoint, resolve_endpoints}

-- The package `http`, with requests and responses of its own, and `json` for the endpoints.
pub record Http (W Request Response : Type 0) : Type 0 where
  pub new_request : Text → Result Request
  pub do_request : Request → Exec W Response
  pub status_code : Response → ℕ
  pub decode : Response → Exec W (List Endpoint)
  pub close_body : Response → W → W

module _ {W Request Response : Type 0} (http : Http W Request Response) where
  abbrev read_response : Response → Exec W (List Endpoint)
  read_response resp =
      if not (eqb (http.status_code resp) 200)
      then fail (message "get cloud.ru endpoints: unexpected status code")
      else context "decode cloud.ru endpoints" (http.decode resp)

  -- The body is closed however the reading ends.
  abbrev closing : Response → Exec W (List Endpoint) → Exec W (List Endpoint)
  closing resp m w = let (r, w') = m w in (r, http.close_body resp w')

  unfoldable pub get_endpoints : Text → Exec W (List Endpoint)
  get_endpoints url = do
    req ← context "construct HTTP request for cloud.ru endpoints" (lift (http.new_request url))
    resp ← context "get cloud.ru endpoints" (http.do_request req)
    closing resp (read_response resp)

-- `get_token` is the foreign IAM client, `now` the clock; `set_authorization` is `md.Set` at
-- `authorization`, and the outgoing metadata may be absent.
module _ {W Metadata : Type 0} (get_token : Text → Text → Exec W TokenResponse) (now : W → ℕ)
    (no_metadata : Metadata) (set_authorization : Text → Metadata → Metadata) where
  abbrev present : Option Metadata → Metadata
  present none = no_metadata
  present (some md) = md

  unfoldable pub enrich : Option Metadata → Exec (IamInterceptor × W) Metadata
  unfolding get_or_create_token
  enrich md = do
    token ← context "fetch IAM access token" (get_or_create_token get_token now)
    pure (set_authorization (codes "Bearer " ++ token) (present md))

  -- The interceptor: a call is made with the token, or not at all.
  unfoldable pub intercept :
      (Metadata → Exec (IamInterceptor × W) (Unit {0}))
      → Option Metadata
      → Exec (IamInterceptor × W) (Unit {0})
  unfolding enrich
  intercept invoker md = context "failed to enrich iam context" (enrich md) >>= invoker

-- `get_scheme` is `url.Parse` with its scheme, `new_iam_client` and `new_secret_service` are the
-- foreign constructors for the two addresses.
module _ {W Request Response IamClient : Type 0} (http : Http W Request Response)
    (get_scheme : Text → Result Text) (new_iam_client : Text → Exec W IamClient)
    (new_secret_service : Text → IamClient → Exec W (SecretService W)) where
  unfoldable pub init_secret_manager_client : Config → Exec W (SecretService W)
  init_secret_manager_client cfg = do
    iam_client ← context "create iam grpc client" (new_iam_client cfg.iam_address)
    new_secret_service cfg.csm_address iam_client

  -- NewProvider
  unfoldable pub new_provider : Config → Exec W (Provider W)
  unfolding validate_config resolve_endpoints get_endpoints init_secret_manager_client
  new_provider cfg = do
    lift (validate_config cfg)
    resolved ← context "resolve endpoints" (resolve_endpoints (get_endpoints http) get_scheme cfg)
    service ← context "init secret manager client" (init_secret_manager_client resolved)
    pure (cloudru_provider resolved service)
