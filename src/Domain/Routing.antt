-- ===== src/Domain/Routing.antt =====
-- rust/crates/domain/src/routing.rs: project-scoped routing of a model between two pools.
pub mod Selection
pub mod Releases
mod Tests
use xscope.Prelude.{
  ℕ, ◌≡◌, refl, Bool, true, false, not, ◌&&◌, ◌||◌, Option, none, some, List, [], ◌∷◌, ltb, leb,
  ◌==◌, if◌then◌else◌, Result, ok, err, ◌>>=◌, ◌>>◌, refuse, ok_or, is_some_and, is_some, length,
  all, any, find, retain, is_empty,
}
use xscope.Prelude.Int.{ℤ}
use xscope.Prelude.Text.{Text, codes, text_eq, starts_with, is_digit, is_lowercase, is_blank}

pub record RoutePool : Type 0 where
  pub id : Text
  pub model : Text
  pub revision : Text

pub data RouteTarget : Type 0 where
  stable canary : RouteTarget

abbrev pub is_canary : RouteTarget → Bool
is_canary canary = true
is_canary stable = false

pub record HeaderRoute : Type 0 where
  pub name : Text
  pub value : Text
  pub target : RouteTarget

pub record RoutePolicySpec : Type 0 where
  pub stable_pool : Text
  pub canary_pool : Option Text
  pub canary_percent : ℕ
  pub headers : List HeaderRoute

-- The messages of the refusals.
pub data RouteError : Type 0 where
  no_canary bad_stable_pool bad_canary_pool bad_bounds canary_required : RouteError
  bad_rule duplicate_match : RouteError
  not_registered : Text → RouteError

pub data ReleaseAction : Type 0 where
  pause_release promote_release : ℤ → ReleaseAction
  rollback_release : ℤ → ℤ → ReleaseAction

unfoldable pub expected_revision : ReleaseAction → ℤ
expected_revision (pause_release revision) = revision
expected_revision (promote_release revision) = revision
expected_revision (rollback_release revision target) = revision

unfoldable pub action_name : ReleaseAction → Text
action_name (pause_release revision) = codes "pause"
action_name (promote_release revision) = codes "promote"
action_name (rollback_release revision target) = codes "rollback"

unfoldable pub pause : RoutePolicySpec → RoutePolicySpec
pause spec = record spec {
  canary_percent = 0;
  headers = retain (λ rule. not (is_canary rule.target)) spec.headers;
}

unfoldable pub promote : RoutePolicySpec → Result RouteError RoutePolicySpec
promote spec = do
  pool ← ok_or spec.canary_pool no_canary
  ok (record spec { stable_pool = pool; canary_pool = none; canary_percent = 0; headers = [] })

-- A rule's name and value are outside the cohort namespace.
unfoldable pub bad_header : HeaderRoute → Bool
bad_header header =
    not (starts_with header.name (codes "x-route-"))
    || leb (length header.name) 8
    || ltb 64 (length header.name)
    || not (all (λ b. is_lowercase b || is_digit b || b == 45) header.name)
    || is_empty header.value
    || ltb 256 (length header.value)
    || not (all (λ b. leb 33 b && leb b 126) header.value)

-- The loop over the rules; `before` are those in front of the one at hand.
unfoldable pub validate_headers : List HeaderRoute → List HeaderRoute → Result RouteError (Unit {0})
validate_headers before [] = ok tt
validate_headers before (header ∷ rest) = do
  refuse (bad_header header) bad_rule
  refuse (any (λ h. text_eq h.name header.name && text_eq h.value header.value) before)
      duplicate_match
  validate_headers (header ∷ before) rest

unfoldable pub validate : RoutePolicySpec → Result RouteError (Unit {0})
validate spec = do
  refuse (is_blank spec.stable_pool || ltb 128 (length spec.stable_pool)) bad_stable_pool
  refuse
      (is_some_and spec.canary_pool
        (λ c. is_blank c || ltb 128 (length c) || text_eq c spec.stable_pool))
      bad_canary_pool
  refuse (ltb 100 spec.canary_percent || ltb 16 (length spec.headers)) bad_bounds
  refuse
      (not (is_some spec.canary_pool)
        && (ltb 0 spec.canary_percent || any (λ h. is_canary h.target) spec.headers))
      canary_required
  validate_headers [] spec.headers

abbrev pub pool_ids : Text → Option Text → List Text
pool_ids stable_pool none = stable_pool ∷ []
pool_ids stable_pool (some canary_pool) = stable_pool ∷ canary_pool ∷ []

abbrev pub registered : Text → List RoutePool → Text → Bool
registered model pools id = any (λ pool. text_eq pool.id id && text_eq pool.model model) pools

unfoldable pub validate_registered :
    Text → List RoutePool → List Text → Result RouteError (Unit {0})
validate_registered model pools [] = ok tt
validate_registered model pools (id ∷ rest) = do
  refuse (not (registered model pools id)) (not_registered id)
  validate_registered model pools rest

unfoldable pub validate_pools :
    RoutePolicySpec → Text → List RoutePool → Result RouteError (Unit {0})
validate_pools spec model pools = do
  validate spec
  validate_registered model pools (pool_ids spec.stable_pool spec.canary_pool)

abbrev or_stable : Text → Option Text → Text
or_stable stable_pool none = stable_pool
or_stable stable_pool (some canary_pool) = canary_pool

unfoldable pub pool_of : RoutePolicySpec → RouteTarget → Text
pool_of spec stable = spec.stable_pool
pool_of spec canary = or_stable spec.stable_pool spec.canary_pool

-- The choice behind the search for a rule that matches.
unfoldable pub select_from : RoutePolicySpec → ℕ → Option HeaderRoute → Text × Text
select_from spec roll (some rule) = (pool_of spec rule.target, codes "header")
select_from spec roll none =
    if ltb roll spec.canary_percent
    then (pool_of spec canary, codes "weight")
    else (spec.stable_pool, codes "weight")

-- `select(matches, roll)`
unfoldable pub select : RoutePolicySpec → (HeaderRoute → Bool) → ℕ → Text × Text
select spec matches roll = select_from spec roll (find matches spec.headers)
