-- ===== src/Domain/Routing/Selection.antt =====
-- The pools that a validated and a paused policy select.
use xscope.Prelude.{
  ℕ, suc, zero, ◌≤◌, ◌≡◌, refl, sym, ap, ◌∙◌, Bool, true, false, not, Option, none, some, List, [],
  ◌∷◌, arith, ltb, if◌then◌else◌, ok, min, all, find, retain, >>=-eq-ok, Bool-cases, inl, inr,
}
use xscope.Prelude.Text.{Text, text_eq, text_eq_iff, text_eq_refl}
use xscope.Domain.Routing.{
  RoutePool, RouteTarget, stable, canary, is_canary, HeaderRoute, RoutePolicySpec, pause, validate,
  pool_ids, registered, validate_registered, validate_pools, pool_of, select_from, select,
}

-- A test on what a search over a list finds.
found {ℓ} :
    {A : Type ℓ} (p q : A → Bool) (xs : List A) (x : A)
    → all q xs ≡ true
    → find p xs ≡ some x
    → q x ≡ true
found p q [] x h e = cc
found p q (y ∷ ys) x h e = elim (Bool-cases (p y)) [
  | inl t ↦ ground arith
  | inr t ↦ found p q ys x (ground arith) (rw t at e)
]

ids_registered :
    (model : Text) (pools : List RoutePool) (s : Text) (c : Option Text)
    → validate_registered model pools (pool_ids s c) ≡ ok tt
    → (registered model pools s ≡ true)
      × ((t : Text) → c ≡ some t → registered model pools t ≡ true)
unfolding validate_registered
ids_registered model pools s none h = (ground arith, λ t e. cc)
ids_registered model pools s (some c) h = (ground arith, λ t e. ground arith)

target_registered :
    (model : Text) (pools : List RoutePool) (spec : RoutePolicySpec) (t : RouteTarget)
    (c : Option Text)
    → spec.canary_pool ≡ c
    → (registered model pools spec.stable_pool ≡ true)
      × ((t : Text) → c ≡ some t → registered model pools t ≡ true)
    → registered model pools (pool_of spec t) ≡ true
unfolding pool_of
target_registered model pools spec stable c e (p, q) = p
target_registered model pools spec canary none e (p, q) = rw e p
target_registered model pools spec canary (some c) e (p, q) = rw e (q c refl)

-- Every pool that a validated policy selects, for any rule matches and any roll, is registered for the
-- policy's model.
pub validate_pools-select :
    (spec : RoutePolicySpec) (model : Text) (pools : List RoutePool) (matches : HeaderRoute → Bool)
    (roll : ℕ)
    → validate_pools spec model pools ≡ ok tt
    → registered model pools ((select spec matches roll).0) ≡ true
unfolding validate_pools select select_from
validate_pools-select spec model pools matches roll h =
    let (_, _, g) = >>=-eq-ok (validate spec) _ h in
    let r = ids_registered model pools spec.stable_pool spec.canary_pool g in
    go (find matches spec.headers) r
  where
    go :
        (o : Option HeaderRoute)
        → (registered model pools spec.stable_pool ≡ true)
          × ((t : Text) → spec.canary_pool ≡ some t → registered model pools t ≡ true)
        → registered model pools ((select_from spec roll o).0) ≡ true
    go (some rule) r = target_registered model pools spec rule.target spec.canary_pool refl r
    go none r = elim (Bool-cases (ltb roll spec.canary_percent)) [
      | inl e ↦ rw e (target_registered model pools spec canary spec.canary_pool refl r)
      | inr e ↦ rw e r.0
    ]

retain-all {ℓ} : {A : Type ℓ} (p : A → Bool) (xs : List A) → all p (retain p xs) ≡ true
retain-all p [] = refl
retain-all p (x ∷ xs) = elim (Bool-cases (p x)) [
  | inl e ↦ rw (e, e) (retain-all p xs)
  | inr e ↦ rw e (retain-all p xs)
]

at_stable :
    (spec : RoutePolicySpec) (t : RouteTarget)
    → not (is_canary t) ≡ true
    → pool_of (pause spec) t ≡ spec.stable_pool
unfolding pool_of pause
at_stable spec stable h = refl
at_stable spec canary h = cc

-- A paused policy sends every request to its stable pool, whatever its rules match and whatever the roll.
pub pause-select :
    (spec : RoutePolicySpec) (matches : HeaderRoute → Bool) (roll : ℕ)
    → (select (pause spec) matches roll).0 ≡ spec.stable_pool
unfolding select pause select_from pool_of
pause-select spec matches roll =
    go (find matches (retain (λ rule. not (is_canary rule.target)) spec.headers)) refl
  where
    go :
        (o : Option HeaderRoute)
        → find matches (retain (λ rule. not (is_canary rule.target)) spec.headers) ≡ o
        → (select_from (pause spec) roll o).0 ≡ spec.stable_pool
    go none e = ground arith
    go (some rule) e =
        at_stable spec rule.target
          (found matches (λ rule. not (is_canary rule.target)) _ rule (retain-all _ spec.headers) e)

clash : false ≡ true → ⊥
clash h = cc

text_eq-false : (s t : Text) → text_eq s t ≡ false → text_eq t s ≡ false
text_eq-false s t h = elim (Bool-cases (text_eq t s)) [
  | inl e ↦
      absurd (clash (sym h ∙ ap (λ x. text_eq x t) (sym ((text_eq_iff t s).0 e)) ∙ text_eq_refl t))
  | inr e ↦ e
]

-- How many of the rolls below `n` a policy sends to its canary pool when no rule matches.
unfoldable pub canary_rolls : RoutePolicySpec → ℕ → ℕ
canary_rolls spec zero = 0
canary_rolls spec (suc n) =
    let rest = canary_rolls spec n in
    if text_eq ((select spec (λ h. false) n).0) (pool_of spec canary) then suc rest else rest

none_found {ℓ} : {A : Type ℓ} (xs : List A) → find (λ x. false) xs ≡ none
none_found [] = refl
none_found (x ∷ xs) = none_found xs

select_weight :
    (spec : RoutePolicySpec) (roll : ℕ)
    → text_eq spec.stable_pool (pool_of spec canary) ≡ false
    → text_eq ((select spec (λ h. false) roll).0) (pool_of spec canary)
      ≡ ltb roll spec.canary_percent
unfolding select select_from
select_weight spec roll h = elim (Bool-cases (ltb roll spec.canary_percent)) [
  | inl e ↦ rw (none_found spec.headers, e) (text_eq_refl (pool_of spec canary))
  | inr e ↦ rw (none_found spec.headers, e) h
]

count_rolls :
    (spec : RoutePolicySpec) (n : ℕ)
    → text_eq spec.stable_pool (pool_of spec canary) ≡ false
    → canary_rolls spec n ≡ min n spec.canary_percent
unfolding canary_rolls
count_rolls spec zero h = ground arith
count_rolls spec (suc n) h = rw (select_weight spec n h, count_rolls spec n h) (ground arith)

-- What a policy with a canary pool passed in `validate`.
validated :
    (spec : RoutePolicySpec) (c : Text)
    → spec.canary_pool ≡ some c
    → validate spec ≡ ok tt
    → (spec.canary_percent ≤ 100) × (text_eq c spec.stable_pool ≡ false)
unfolding validate
validated spec c e h = (ground arith, ground arith)

-- A validated policy with a canary pool sends, when no rule matches, exactly `canary_percent` of the hundred
-- rolls from 0 to 99 to that pool.
pub validate-canary_rolls :
    (spec : RoutePolicySpec) (c : Text)
    → spec.canary_pool ≡ some c
    → validate spec ≡ ok tt
    → canary_rolls spec 100 ≡ spec.canary_percent
unfolding pool_of
validate-canary_rolls spec c e h =
    let (bound, apart) = validated spec c e h in
    count_rolls spec 100 (rw e (text_eq-false c spec.stable_pool apart)) ∙ omega (arith, bound)
