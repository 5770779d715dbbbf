-- ===== src/Domain/Routing/Releases.antt =====
-- Pausing and promoting a policy, and its validation.
use xscope.Prelude.{
  ℕ, ◌≤◌, ◌≡◌, refl, subst, Bool, false, not, ◌&&◌, ◌||◌, Option, none, some, List, [], ◌∷◌, arith,
  ltb, Result, ok, err, is_some_and, ok_or, length, any, retain, >>=-eq-ok, Bool-cases, inl, inr,
  length-retain-le,
}
use xscope.Prelude.Text.{Text, text_eq, is_blank}
use xscope.Domain.Routing.{
  is_canary, HeaderRoute, RoutePolicySpec, RouteError, no_canary, pause, promote, bad_header,
  validate_headers, validate,
}

canary_name :
    (spec : RoutePolicySpec) (c : Text)
    → spec.canary_pool ≡ some c
    → validate spec ≡ ok tt
    → (is_blank c ≡ false) × (ltb 128 (length c) ≡ false)
unfolding validate
canary_name spec c e h = (ground arith, ground arith)

canary_given : (o : Option Text) (c : Text) → ok_or {E = RouteError} o no_canary ≡ ok c → o ≡ some c
canary_given none c h = cc
canary_given (some d) c h = cc

abbrev only : Text → RoutePolicySpec
only c = record { stable_pool = c; canary_pool = none; canary_percent = 0; headers = [] }

only_valid :
    (c : Text) → is_blank c ≡ false → ltb 128 (length c) ≡ false → validate (only c) ≡ ok tt
unfolding validate validate_headers
only_valid c p q = rw (p, q) refl

same_policy :
    (a b : RoutePolicySpec) → ◌≡◌ {A = Result RouteError RoutePolicySpec} (ok a) (ok b) → a ≡ b
same_policy a b h = cc

-- The promoted policy of a validated one is valid, has the canary pool as its stable one, and nothing else left
-- to promote.
pub promote-validate :
    (spec next : RoutePolicySpec)
    → validate spec ≡ ok tt
    → promote spec ≡ ok next
    → (validate next ≡ ok tt)
      × (spec.canary_pool ≡ some next.stable_pool)
      × (promote next ≡ err no_canary)
unfolding promote
promote-validate spec next h e =
    let (c, first, last) = >>=-eq-ok (ok_or spec.canary_pool no_canary) _ e in
    let given = canary_given spec.canary_pool c first in
    let (p, q) = canary_name spec c given h in
    subst
      (λ (x : RoutePolicySpec).
        (validate x ≡ ok tt)
        × (spec.canary_pool ≡ some x.stable_pool)
        × (promote x ≡ err no_canary))
      (same_policy (only c) next last) (only_valid c p q, given, refl)

any-retain {ℓ} :
    {A : Type ℓ} (p q : A → Bool) (xs : List A) → any q xs ≡ false → any q (retain p xs) ≡ false
any-retain p q [] h = refl
any-retain p q (x ∷ xs) h = elim (Bool-cases (p x)) [
  | inl e ↦ rw e (ground (arith, any-retain p q xs (ground arith)))
  | inr e ↦ rw e (any-retain p q xs (ground arith))
]

header_step :
    (before rest : List HeaderRoute) (h : HeaderRoute)
    → validate_headers before (h ∷ rest) ≡ ok tt
    → (bad_header h ≡ false)
      × (any (λ x. text_eq x.name h.name && text_eq x.value h.value) before ≡ false)
      × (validate_headers (h ∷ before) rest ≡ ok tt)
unfolding validate_headers
header_step before rest h e = (ground arith, ground arith, ground arith)

-- Rules that are valid stay valid when some are taken away.
validate_headers-retain :
    (p : HeaderRoute → Bool) (before rest : List HeaderRoute)
    → validate_headers before rest ≡ ok tt
    → validate_headers (retain p before) (retain p rest) ≡ ok tt
unfolding validate_headers
validate_headers-retain p before [] e = refl
validate_headers-retain p before (h ∷ rest) e =
    let (good, new, after) = header_step before rest h e in
    elim (Bool-cases (p h)) [
      | inl t ↦
          rw
            (
              t,
              good,
              any-retain p (λ x. text_eq x.name h.name && text_eq x.value h.value) before new,
            )
            (rw t at (validate_headers-retain p (h ∷ before) rest after))
      | inr t ↦ rw t (rw t at (validate_headers-retain p (h ∷ before) rest after))
    ]

validate_parts :
    (spec : RoutePolicySpec)
    → validate spec ≡ ok tt
    → (is_blank spec.stable_pool || ltb 128 (length spec.stable_pool) ≡ false)
      × (is_some_and spec.canary_pool
            (λ c. is_blank c || ltb 128 (length c) || text_eq c spec.stable_pool)
          ≡ false)
      × (length spec.headers ≤ 16)
      × (validate_headers [] spec.headers ≡ ok tt)
unfolding validate
validate_parts spec h = (ground arith, ground arith, ground arith, ground arith)

no_canary_rules :
    (rules : List HeaderRoute)
    → any (λ h. is_canary h.target) (retain (λ rule. not (is_canary rule.target)) rules) ≡ false
no_canary_rules [] = refl
no_canary_rules (r ∷ rs) = elim (Bool-cases (is_canary r.target)) [
  | inl e ↦ rw e (no_canary_rules rs)
  | inr e ↦ rw (e, e) (no_canary_rules rs)
]

le→not_ltb : (a b : ℕ) → a ≤ b → ltb b a ≡ false
le→not_ltb a b h = ground arith

-- Pausing a validated policy gives a validated policy.
pub pause-validate :
    (spec : RoutePolicySpec) → validate spec ≡ ok tt → validate (pause spec) ≡ ok tt
unfolding validate pause
pause-validate spec h =
    let (s, c, n, r) = validate_parts spec h in
    let p = λ (rule : HeaderRoute). not (is_canary rule.target) in
    rw
      (
        s,
        c,
        no_canary_rules spec.headers,
        le→not_ltb (length (retain p spec.headers)) 16
            (omega (arith, n, length-retain-le p spec.headers)),
      )
      (ground (arith, validate_headers-retain p [] spec.headers r))
