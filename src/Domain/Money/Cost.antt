-- ===== src/Domain/Money/Cost.antt =====
-- The cost of usage and its rounding.
use xscope.Prelude.{ℕ, ◌+◌, ◌*◌, ◌-◌, ◌/◌, ◌≤◌, ◌<◌, ◌≡◌, arith, leb, if◌then◌else◌, ok, err}
use xscope.Prelude.Int.{
  pos, max_i64, checked_add-pos, checked_mul-pos, +ℤ-pos, -ℤ-pos, wrap_i64-pos, quot_i64,
}
use xscope.Domain.Money.{
  Model, micros_per_minor_unit, cost_overflow, usage_cost_microunits, ceil_minor_units,
}

-- The price of a model whose two amounts are not negative.
pub record Priced (m : Model) (input output : ℕ) : Type 0 where
  pub input_price : m.input_per_million_tokens.amount ≡ pos input
  pub output_price : m.output_per_million_tokens.amount ≡ pos output

-- For prices and token counts that are not negative, the cost is the exact sum of the two
-- products where that sum is at most `i64::MAX`, and `CostOverflow` exactly where it is not.
pub usage_cost_exact :
    (m : Model) (p q i o : ℕ)
    → Priced m p q
    → usage_cost_microunits m (pos i) (pos o)
      ≡ (if leb (i * p + o * q) max_i64 then ok (pos (i * p + o * q)) else err cost_overflow)
unfolding usage_cost_microunits
usage_cost_exact m p q i o h =
    rw (h.input_price, h.output_price)
      (ground (arith, checked_mul-pos i p, checked_mul-pos o q, checked_add-pos (i * p) (o * q)))

ceil_steps :
    (m : ℕ)
    → m + micros_per_minor_unit ≤ max_i64
    → ceil_minor_units (pos m) ≡ pos ((m + 999999) / 1000000)
unfolding ceil_minor_units quot_i64
ceil_steps m h =
    let shifted : m + 1000000 - 1 ≡ m + 999999 = omega arith in
    rw
      (
        +ℤ-pos,
        wrap_i64-pos (m + 1000000) h,
        -ℤ-pos (m + 1000000) 1 (omega arith),
        shifted,
        wrap_i64-pos (m + 999999) (omega arith),
      )
      (ground arith)

-- For a cost that is not negative and at least one minor unit below the top of `i64`, rounding up gives the least
-- number of minor units that covers the cost.
pub ceil_least :
    (m : ℕ)
    → m + micros_per_minor_unit ≤ max_i64
    → (n : ℕ) × (ceil_minor_units (pos m) ≡ pos n)
      × (m ≤ n * micros_per_minor_unit)
      × (n * micros_per_minor_unit < m + micros_per_minor_unit)
ceil_least m h = ((m + 999999) / 1000000, ceil_steps m h, omega arith, omega arith)

cost_le : (a b c d p q : ℕ) → a ≤ c → b ≤ d → a * p + b * q ≤ c * p + d * q
cost_le a b c d p q h k = grind arith

-- Whenever the token limits of a reservation have a cost, actual usage within the limits has one
-- too, and it is at most the reserved cost.
pub usage_cost_within_limits :
    (m : Model) (p q i o i' o' r : ℕ)
    → Priced m p q
    → i ≤ i'
    → o ≤ o'
    → usage_cost_microunits m (pos i') (pos o') ≡ ok (pos r)
    → (usage_cost_microunits m (pos i) (pos o) ≡ ok (pos (i * p + o * q))) × (i * p + o * q ≤ r)
usage_cost_within_limits m p q i o i' o' r h a b e =
    ground
      (arith, usage_cost_exact m p q i o h, usage_cost_exact m p q i' o' h, cost_le i o i' o' p q)
