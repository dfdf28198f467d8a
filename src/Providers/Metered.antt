-- ===== src/Providers/Metered.antt =====
-- internal/providers/contracts/metrics_decorator.go and metrics/provider.go: the requests of a
-- provider are counted by operation. The durations are left out.
use cloud_secrets.Prelude.Dict.{Dict}
use cloud_secrets.Prelude.{ℕ, suc, Option, none, some, Text, codes}
use cloud_secrets.Prelude.Exec.{Exec}
use cloud_secrets.Prelude.Dict
use cloud_secrets.Providers.Contracts.{Provider}

abbrev pub operation_create_secret : Text
operation_create_secret = codes "create_secret"

abbrev pub operation_get_secret_payload : Text
operation_get_secret_payload = codes "get_secret_payload"

abbrev pub operation_list_secrets : Text
operation_list_secrets = codes "list_secrets"

-- metrics.Provider
abbrev pub Requests : Type 0
Requests = Dict ℕ

abbrev pub requested : Option ℕ → ℕ
requested none = 1
requested (some n) = suc n

unfoldable pub record_request : Text → Requests → Requests
unfolding Dict.insert Dict.lookup
record_request operation m = Dict.insert operation (requested (Dict.lookup operation m)) m

pub record Metered (W : Type 0) : Type 0 where
  pub requests : Requests
  pub world : W

-- The deferred record is made however the call ends.
abbrev pub metered : {W A : Type 0} → Text → Exec W A → Exec (Metered W) A
metered operation m s =
    let (r, w) = m s.world in
    (r, record { requests = record_request operation s.requests; world = w })

unfoldable pub with_metrics : {W : Type 0} → Provider W → Provider (Metered W)
unfolding record_request
with_metrics provider = record {
  definition = provider.definition;
  create_secret = λ req. metered operation_create_secret (provider.create_secret req);
  get_secret_payload =
      λ key. metered operation_get_secret_payload (provider.get_secret_payload key);
  list_secrets = metered operation_list_secrets provider.list_secrets;
}
