-- ===== src/Payments/Amount.antt =====
-- rust/crates/payments/src/lib.rs: amounts in yuan as text and in fen as integers.
pub mod RoundTrip
use xscope.Prelude.{
  ℕ, ◌/◌, ◌%◌, Bool, true, false, not, ◌&&◌, ◌||◌, Option, none, some, List, [], ◌∷◌, ◌++◌, ltb,
  leb, ◌==◌, if◌then◌else◌, Result, ok, err, ◌>>=◌, ◌>>◌, refuse, ok_or, length, all, is_empty,
  refl, ◌≡◌,
}
use xscope.Prelude.Int.{ℤ, pos, leb_ℤ, ◌+ℤ◌, ◌*ℤ◌, wrap_i64}
use xscope.Prelude.Text.{
  Text, codes, is_digit, is_alphanumeric, contains_byte, split_once, parse_i64,
}
use xscope.Prelude.Decimal.{decimal}

-- `Error::Invalid` has a constructor for each of its four messages here.
pub data PaymentError : Type 0 where
  invalid_decimal amount_overflow invalid_cents outside_bounds : PaymentError
  unavailable rejected signature : PaymentError

abbrev pub whole_and_fraction : Text → Option (Text × Text) → Text × Text
whole_and_fraction value none = (value, [])
whole_and_fraction value (some parts) = parts

abbrev pub in_provider_bounds : ℤ → Bool
in_provider_bounds amount = leb_ℤ (pos 1) amount && leb_ℤ amount (pos 10000000000)

-- The parse behind the split at the point.
unfoldable pub parse_parts : Text → Text × Text → Result PaymentError ℤ
parse_parts value (whole, fraction) = do
  refuse
      (is_empty whole
        || ltb 9 (length whole)
        || not (all is_digit whole)
        || ltb 2 (length fraction)
        || not (all is_digit fraction)
        || (contains_byte b'.' value && is_empty fraction))
      invalid_decimal
  yuan ← ok_or (parse_i64 whole) amount_overflow
  cents ← if is_empty fraction then ok (pos 0) else ok_or (parse_i64 fraction) invalid_cents
  let minor = if length fraction == 1 then wrap_i64 (cents *ℤ pos 10) else cents
  let amount = wrap_i64 (wrap_i64 (yuan *ℤ pos 100) +ℤ minor)
  refuse (not (in_provider_bounds amount)) outside_bounds
  ok amount

unfoldable pub parse_amount : Text → Result PaymentError ℤ
parse_amount value = parse_parts value (whole_and_fraction value (split_once b'.' value))

-- `{:02}`
abbrev pub pad2 : Text → Text
pad2 t = if ltb (length t) 2 then b'0' ∷ t else t

-- `minor` is in range past the test, so it is not negative.
unfoldable pub format_minor : ℤ → Text
format_minor (pos minor) = decimal (minor / 100) ++ (b'.' ∷ pad2 (decimal (minor % 100)))
format_minor minor = []

unfoldable pub format_amount : ℤ → Result PaymentError Text
format_amount minor = do
  refuse (not (in_provider_bounds minor)) outside_bounds
  ok (format_minor minor)

unfoldable pub identifier : Text → Bool
identifier value =
    not (is_empty value)
    && leb (length value) 64
    && all (λ b. is_alphanumeric b || contains_byte b (codes "_-")) value
