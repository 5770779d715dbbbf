-- ===== src/Payments/Tests.antt =====
-- Amounts on concrete texts.
use xscope.Prelude.{◌≡◌, refl, ok, err}
use xscope.Prelude.Int.{pos, ◌+ℤ◌, ◌*ℤ◌, wrap_i64}
use xscope.Prelude.Text.{Text, codes, split_once, parse_i64, parse_digits}
use xscope.Prelude.Decimal.{decimal, digits}
use xscope.Payments.Amount.{parse_parts, parse_amount, format_minor, format_amount, invalid_decimal}
use xscope.Payments.Amount.RoundTrip.{parse-format, format-parse}

formatted : format_amount (pos 1205) ≡ ok (codes "12.05")
unfolding format_amount format_minor decimal digits
formatted = refl

parsed : parse_amount (codes "12.5") ≡ ok (pos 1250)
unfolding parse_amount parse_parts split_once parse_i64 parse_digits wrap_i64 ◌+ℤ◌ ◌*ℤ◌
parsed = refl

bare_point_test : parse_amount (codes "12.") ≡ err invalid_decimal
unfolding parse_amount parse_parts split_once parse_i64 parse_digits wrap_i64 ◌+ℤ◌ ◌*ℤ◌
bare_point_test = refl

parse-format_example : parse_amount (codes "12.05") ≡ ok (pos 1205)
parse-format_example = parse-format 1205 (codes "12.05") formatted

-- The text read is not the text that is formatted: `12.5` comes back as `12.50`.
format-parse_example :
    (s : Text) × (format_amount (pos 1250) ≡ ok s) × (parse_amount s ≡ ok (pos 1250))
format-parse_example = format-parse (codes "12.5") (pos 1250) parsed
