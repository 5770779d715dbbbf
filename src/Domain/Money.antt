-- ===== src/Domain/Money.antt =====
-- rust/crates/domain/src/lib.rs: money, models and the exact cost of usage.
pub mod Cost
use xscope.Prelude.{
  ℕ, ◌+◌, ◌*◌, ◌-◌, ◌≤◌, ◌<◌, ◌≡◌, refl, Bool, ◌||◌, Option, none, some, arith, leb, if◌then◌else◌,
  Result, ok, err, ok_or, and_then,
}
use xscope.Prelude.Int.{
  ℤ, pos, negsuc, ltb_ℤ, eq_ℤ, max_i64, checked_add, checked_mul, ◌+ℤ◌, ◌-ℤ◌, wrap_i64, quot_i64,
}
use xscope.Prelude.Text.{Text, codes, text_eq}

abbrev pub micros_per_minor_unit : ℕ
micros_per_minor_unit = 1000000

pub record Money : Type 0 where
  pub currency : Text
  pub amount : ℤ

unfoldable pub cny : ℤ → Money
cny amount = record { currency = codes "CNY"; amount = amount }

pub record Model : Type 0 where
  pub id : Text
  pub display_name : Text
  pub max_context_tokens : ℤ
  pub input_per_million_tokens : Money
  pub output_per_million_tokens : Money
  pub price_version : Text

unfoldable pub default_model : Model
unfolding cny
default_model = record {
  id = codes "xscope-demo";
  display_name = codes "XScope Demo Model";
  max_context_tokens = pos 32768;
  input_per_million_tokens = cny (pos 1000);
  output_per_million_tokens = cny (pos 2000);
  price_version = codes "2026-09-01";
}

pub data DomainError : Type 0 where
  required : Text → DomainError
  unsupported_currency negative_amount negative_tokens cost_overflow : DomainError
  invalid_rpm invalid_tpm invalid_expiry invalid_scope missing_model : DomainError

unfoldable pub validate_money : Money → Result DomainError (Unit {0})
validate_money money =
    if text_eq money.currency (codes "CNY")
    then (if ltb_ℤ money.amount (pos 0) then err negative_amount else ok tt)
    else err unsupported_currency

unfoldable pub usage_cost_microunits : Model → ℤ → ℤ → Result DomainError ℤ
usage_cost_microunits model input_tokens output_tokens =
    if ltb_ℤ input_tokens (pos 0) || ltb_ℤ output_tokens (pos 0)
    then err negative_tokens
    else ok_or
        (and_then (checked_mul input_tokens model.input_per_million_tokens.amount) λ input.
          and_then (checked_mul output_tokens model.output_per_million_tokens.amount)
            λ output. checked_add input output)
        cost_overflow

-- Plain `+` and `-` wrap in a release build; `/` rounds toward 0.
unfoldable pub ceil_minor_units : ℤ → ℤ
ceil_minor_units microunits =
    if eq_ℤ microunits (pos 0)
    then pos 0
    else quot_i64 (wrap_i64 (wrap_i64 (microunits +ℤ pos micros_per_minor_unit) -ℤ pos 1))
        micros_per_minor_unit

cost_test : usage_cost_microunits default_model (pos 7) (pos 13) ≡ ok (pos 33000)
unfolding usage_cost_microunits default_model checked_add checked_mul
cost_test = refl

ceil_test : ceil_minor_units (pos 33000) ≡ pos 1
unfolding ceil_minor_units wrap_i64 quot_i64 ◌+ℤ◌ ◌-ℤ◌
ceil_test = refl
