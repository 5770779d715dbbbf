-- ===== src/Domain/Keys/Issue.antt =====
-- The defaults of a key request, filled in twice.
use xscope.Prelude.{◌≡◌, refl, List, [], ◌∷◌, Bool-cases, inl, inr}
use xscope.Prelude.Int.{ℤ, pos, eq_ℤ}
use xscope.Prelude.Text.{Text, codes}
use xscope.Domain.Keys.{ApiKeyRequest, filled, nonzero, named_currency, with_defaults}

filled_twice : (e : Text) (l : List Text) → filled e (filled e l) ≡ filled e l
filled_twice e [] = refl
filled_twice e (t ∷ ts) = refl

nonzero_twice : (d v : ℤ) → nonzero d (nonzero d v) ≡ nonzero d v
nonzero_twice d v = elim (Bool-cases (eq_ℤ v (pos 0))) [
  | inl e ↦ elim (Bool-cases (eq_ℤ d (pos 0))) [ inl f ↦ rw (e, f) refl | inr f ↦ rw (e, f) refl ]
  | inr e ↦ rw (e, e) refl
]

currency_twice : (c : Text) → named_currency (named_currency c) ≡ named_currency c
currency_twice [] = refl
currency_twice (b ∷ c) = refl

-- Filling in the defaults twice is filling them in once.
pub with_defaults_idempotent :
    (r : ApiKeyRequest) → with_defaults (with_defaults r) ≡ with_defaults r
unfolding with_defaults
with_defaults_idempotent r =
    rw
      (
        filled_twice (codes "chat.completions") r.scopes,
        filled_twice (codes "xscope-demo") r.allowed_models,
        nonzero_twice (pos 60) r.rate_limit_rpm,
        nonzero_twice (pos 60000) r.rate_limit_tpm,
        currency_twice r.monthly_budget.currency,
      )
      refl
