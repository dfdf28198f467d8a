-- ===== src/Providers/Cloudru/Endpoints.antt =====
-- The endpoints of internal/providers/cloudru: `Get` of endpoints.go and `resolveEndpoints` of
-- provider.go. The request itself is an argument, and so is the scheme of a URL.
use cloud_secrets.Prelude.{
  not, ◌&&◌, Option, none, some, List, [], ◌∷◌, if◌then◌else◌, message, wrap, Result, ok, err,
  panic, Text, codes, ◌==◌,
}
use cloud_secrets.Prelude.Exec.{Exec, pure, lift, ◌>>=◌, context}
use cloud_secrets.Providers.Cloudru.{Config}

pub record Endpoint : Type 0 where
  pub id : Text
  pub address : Text

abbrev pub endpoints_uri : Text
endpoints_uri = codes "https://api.cloud.ru/endpoints"

-- EndpointsResponse.Get
unfoldable pub get_endpoint : Text → List Endpoint → Option Endpoint
get_endpoint id [] = none
get_endpoint id (endpoint ∷ rest) =
    if endpoint.id == id then some endpoint else get_endpoint id rest

abbrev resolved : Config → Option Endpoint → Option Endpoint → Result Config
resolved cfg none iam = err (message "secret-manager API is not available")
resolved cfg (some csm) none = err (message "iam API is not available")
resolved cfg (some csm) (some iam) =
    ok (record cfg { csm_address = csm.address; iam_address = iam.address })

abbrev check_scheme : Result Text → Result (Unit {0})
check_scheme (ok scheme) =
    if not (scheme == codes "https") && not (scheme == codes "http")
    then err (message "invalid scheme in discovery URL, expected http or https")
    else ok tt
check_scheme (err e) = err (wrap "parse discovery URL" e)
check_scheme panic = panic

module _ {W : Type 0} (get_endpoints : Text → Exec W (List Endpoint))
    (scheme : Text → Result Text) where
  abbrev pub discovery_url : Config → Result Text
  discovery_url cfg =
      if cfg.discovery_url == []
      then ok endpoints_uri
      else with_url cfg.discovery_url (check_scheme (scheme cfg.discovery_url))
    where
      with_url : Text → Result (Unit {0}) → Result Text
      with_url url (ok _) = ok url
      with_url url (err e) = err e
      with_url url panic = panic

  unfoldable pub resolve_endpoints : Config → Exec W Config
  unfolding get_endpoint
  resolve_endpoints cfg =
      if not (cfg.iam_address == []) && not (cfg.csm_address == [])
      then pure cfg
      else lift (discovery_url cfg) >>= λ url.
          context "get endpoints" (get_endpoints url) >>= λ endpoints. lift (
            resolved cfg (get_endpoint (codes "secret-manager") endpoints)
              (get_endpoint (codes "iam") endpoints))
