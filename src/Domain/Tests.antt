-- ===== src/Domain/Tests.antt =====
-- The prices and the catalog on concrete values.
use xscope.Domain.Keys.{ApiKeyRequest, with_defaults, require_all, validate_request}
use xscope.Prelude.{
  ℕ, ◌+◌, ◌*◌, ◌≤◌, ◌<◌, ◌≡◌, refl, true, some, [], ◌∷◌, arith, leb, if◌then◌else◌, ok, err,
}
use xscope.Prelude.Int.{pos, negsuc, max_i64, checked_add, checked_mul, ◌+ℤ◌, ◌*ℤ◌}
use xscope.Prelude.Text.{
  codes, text_eq, text_mem, is_blank, rsplit_once, parse_unsigned, parse_digits,
}
use xscope.Domain.Money.{
  default_model, cny, cost_overflow, usage_cost_microunits, ceil_minor_units, micros_per_minor_unit,
  validate_money, negative_amount,
}
use xscope.Domain.Money.Cost.{Priced, usage_cost_exact, ceil_least, usage_cost_within_limits}
use xscope.Domain.Catalog.{
  ServingEndpoint, CatalogSnapshot, identifier, validate_price, validate_model, validate_address,
  validate_endpoint, validate_models, validate_endpoints, validate_snapshot,
}
use xscope.Domain.Catalog.Admission.{validate-usage_cost}
use xscope.Domain.Catalog.Snapshot.{IsSound, validate-IsSound}

default_Priced : Priced default_model 1000 2000
unfolding default_model cny
default_Priced = record { input_price = refl; output_price = refl }

validate_money_test : validate_money (cny (negsuc 0)) ≡ err negative_amount
unfolding validate_money cny text_eq
validate_money_test = refl

usage_cost_exact_example : usage_cost_microunits default_model (pos 7) (pos 13) ≡ (
    if leb (7 * 1000 + 13 * 2000) max_i64
    then ok (pos (7 * 1000 + 13 * 2000))
    else err cost_overflow)
usage_cost_exact_example = usage_cost_exact default_model 1000 2000 7 13 default_Priced

ceil_least_example :
    (n : ℕ) × (ceil_minor_units (pos 1000001) ≡ pos n)
    × (1000001 ≤ n * micros_per_minor_unit)
    × (n * micros_per_minor_unit < 1000001 + micros_per_minor_unit)
ceil_least_example = ceil_least 1000001 (omega arith)

reserved_cost : usage_cost_microunits default_model (pos 10) (pos 20) ≡ ok (pos 50000)
unfolding usage_cost_microunits default_model cny checked_add checked_mul ◌+ℤ◌ ◌*ℤ◌
reserved_cost = refl

usage_cost_within_limits_example :
    (usage_cost_microunits default_model (pos 7) (pos 13) ≡ ok (pos (7 * 1000 + 13 * 2000)))
    × (7 * 1000 + 13 * 2000 ≤ 50000)
usage_cost_within_limits_example =
    usage_cost_within_limits default_model 1000 2000 7 13 10 20 50000 default_Priced (omega arith)
      (omega arith) reserved_cost

default_context : default_model.max_context_tokens ≡ pos 32768
unfolding default_model cny
default_context = refl

default_valid : validate_model default_model ≡ ok tt
unfolding validate_model validate_price identifier default_model cny text_eq is_blank checked_mul
    ◌*ℤ◌
default_valid = refl

validate-usage_cost_example :
    usage_cost_microunits default_model (pos 7) (pos 13) ≡ ok (pos (7 * 1000 + 13 * 2000))
validate-usage_cost_example =
    validate-usage_cost default_model 1000 2000 32768 7 13 default_Priced default_context
      default_valid (omega arith)

abbrev endpoint : ServingEndpoint
endpoint = record {
  id = codes "e-1";
  model = codes "xscope-demo";
  revision = codes "r1";
  address = codes "envoy.svc:8443";
  tls = true;
  server_name = codes "envoy.svc";
}

abbrev snapshot : CatalogSnapshot
snapshot = record {
  models =
      record {
        revision = pos 1;
        enabled = true;
        default_pool = some (codes "main");
        model = default_model;
      }
      ∷ [];
  endpoints = endpoint ∷ [];
}

snapshot_valid : validate_snapshot snapshot ≡ ok tt
unfolding validate_snapshot validate_models validate_endpoints validate_endpoint validate_address
    validate_model validate_price identifier default_model cny text_eq text_mem is_blank rsplit_once
    parse_unsigned parse_digits checked_mul ◌*ℤ◌
snapshot_valid = refl

validate-IsSound_example : IsSound snapshot
validate-IsSound_example = validate-IsSound snapshot snapshot_valid

abbrev key_request : ApiKeyRequest
key_request = record {
  id = codes "key-1";
  tenant_id = codes "t-1";
  project_id = codes "p-1";
  name = codes "main";
  scopes = [];
  allowed_models = [];
  expires_at = some 90;
  rate_limit_rpm = pos 0;
  rate_limit_tpm = pos 0;
  monthly_budget = record { currency = []; amount = pos 0 };
}

-- A request that gives its identity alone is valid with the defaults.
defaults_valid : validate_request 7 (with_defaults key_request) ≡ ok tt
unfolding validate_request with_defaults require_all validate_money text_eq text_mem is_blank
defaults_valid = refl
