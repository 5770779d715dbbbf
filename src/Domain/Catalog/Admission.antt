-- ===== src/Domain/Catalog/Admission.antt =====
-- The cost of the requests that a validated model admits.
use xscope.Prelude.{ℕ, ◌+◌, ◌*◌, ◌≤◌, ◌≡◌, true, arith, ok, is_some}
use native.Mathlib.Decide.{dec_le}
use xscope.Prelude.Int.{pos, max_i64, checked_mul, checked_mul-pos}
use xscope.Domain.Money.{Model, usage_cost_microunits}
use xscope.Domain.Money.Cost.{Priced, usage_cost_exact}
use xscope.Domain.Catalog.{validate_price, validate_model}

mul_le : (i p q : ℕ) → p ≤ q → i * p ≤ i * q
mul_le i p q h = grind arith

weighted_le : (i o n p q top : ℕ) → i + o ≤ n → n * p ≤ top → n * q ≤ top → i * p + o * q ≤ top
weighted_le i o n p q top h a b = elim (dec_le p q) [
  | yes e ↦ omega (arith, mul_le i p q e, mul_le q (i + o) n h)
  | no e ↦ omega (arith, mul_le o q p (omega arith), mul_le p (i + o) n h)
]

-- A validated model has prices whose product with the context fits.
validate_model_products :
    (m : Model)
    → validate_model m ≡ ok tt
    → (is_some (checked_mul m.input_per_million_tokens.amount m.max_context_tokens) ≡ true)
      × (is_some (checked_mul m.output_per_million_tokens.amount m.max_context_tokens) ≡ true)
unfolding validate_model validate_price
validate_model_products m v = ground arith

product_fits : (a b : ℕ) → is_some (checked_mul (pos a) (pos b)) ≡ true → b * a ≤ max_i64
product_fits a b h = ground (arith, checked_mul-pos a b)

-- Every request whose two token counts fit the context of a validated model has a cost: it is
-- the exact sum of the products, and neither product nor the sum overflows.
pub validate-usage_cost :
    (m : Model) (p q n i o : ℕ)
    → Priced m p q
    → m.max_context_tokens ≡ pos n
    → validate_model m ≡ ok tt
    → i + o ≤ n
    → usage_cost_microunits m (pos i) (pos o) ≡ ok (pos (i * p + o * q))
validate-usage_cost m p q n i o h c v fits = ground (
  arith,
  usage_cost_exact m p q i o h,
  weighted_le i o n p q max_i64 fits
      (product_fits p n (rw (← h.input_price, ← c) (validate_model_products m v).0))
      (product_fits q n (rw (← h.output_price, ← c) (validate_model_products m v).1)),
)
