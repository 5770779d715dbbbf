-- ===== src/Domain/Routing/Tests.antt =====
-- Policies on concrete pools.
use xscope.Prelude.{◌≡◌, refl, true, none, some, List, [], ◌∷◌, ok, err}
use xscope.Prelude.Text.{Text, codes, text_eq, is_blank, starts_with}
use xscope.Domain.Routing.{
  RoutePool, canary, HeaderRoute, RoutePolicySpec, no_canary, pause, promote, bad_header,
  validate_headers, validate, registered, validate_registered, validate_pools, pool_of, select_from,
  select,
}
use xscope.Domain.Routing.Selection.{
  validate_pools-select, pause-select, canary_rolls, validate-canary_rolls,
}
use xscope.Domain.Routing.Releases.{promote-validate, pause-validate}

abbrev cohort : HeaderRoute
cohort = record { name = codes "x-route-a"; value = codes "b"; target = canary }

abbrev policy : RoutePolicySpec
policy = record {
  stable_pool = codes "main";
  canary_pool = some (codes "next");
  canary_percent = 10;
  headers = cohort ∷ [];
}

abbrev pool : Text → RoutePool
pool id = record { id = id; model = codes "m"; revision = codes "r" }

abbrev pools : List RoutePool
pools = pool (codes "next") ∷ pool (codes "main") ∷ []

policy_valid : validate policy ≡ ok tt
unfolding validate validate_headers bad_header is_blank text_eq starts_with
policy_valid = refl

pools_valid : validate_pools policy (codes "m") pools ≡ ok tt
unfolding validate_pools validate_registered validate validate_headers bad_header is_blank text_eq
    starts_with
pools_valid = refl

select_test : select policy (λ h. text_eq h.value (codes "b")) 99 ≡ (codes "next", codes "header")
unfolding select select_from pool_of text_eq
select_test = refl

abbrev promoted : RoutePolicySpec
promoted = record {
  stable_pool = codes "next";
  canary_pool = none;
  canary_percent = 0;
  headers = [];
}

policy-promoted : promote policy ≡ ok promoted
unfolding promote
policy-promoted = refl

validate_pools-select_example :
    registered (codes "m") pools ((select policy (λ h. true) 99).0) ≡ true
validate_pools-select_example =
    validate_pools-select policy (codes "m") pools (λ h. true) 99 pools_valid

pause-select_example : (select (pause policy) (λ h. true) 3).0 ≡ codes "main"
pause-select_example = pause-select policy (λ h. true) 3

validate-canary_rolls_example : canary_rolls policy 100 ≡ 10
validate-canary_rolls_example = validate-canary_rolls policy (codes "next") refl policy_valid

promote-validate_example :
    (validate promoted ≡ ok tt)
    × (policy.canary_pool ≡ some promoted.stable_pool)
    × (promote promoted ≡ err no_canary)
promote-validate_example = promote-validate policy promoted policy_valid policy-promoted

pause-validate_example : validate (pause policy) ≡ ok tt
pause-validate_example = pause-validate policy policy_valid
