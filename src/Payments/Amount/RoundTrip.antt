-- ===== src/Payments/Amount/RoundTrip.antt =====
-- Amounts through their texts and back.
use xscope.Prelude.{
  ℕ, suc, ◌+◌, ◌-◌, ◌*◌, ◌/◌, ◌%◌, ◌≤◌, ◌<◌, ◌≡◌, refl, sym, ap, ◌∙◌, true, false, some, [], ◌∷◌,
  ◌++◌, arith, ltb, ok, length, all, is_empty,
}
use native.Mathlib.Decide.{dec_lt}
use native.Mathlib.Numerals.{add-one}
use xscope.Prelude.Int.{ℤ, pos, negsuc, max_i64, ◌*ℤ◌, ◌+ℤ◌, +ℤ-pos, wrap_i64, wrap_i64-pos}
use xscope.Prelude.Text.{Text, is_digit, parse_digits, parse_i64}
use xscope.Prelude.Decimal.{
  digits, decimal, digits-small, digits-large, digits-all, parse-digits, length-digits,
  split_once-digits,
}
use xscope.Payments.Amount.{
  parse_parts, parse_amount, pad2, format_minor, format_amount, in_provider_bounds,
}

*ℤ-pos : (a b : ℕ) → pos a *ℤ pos b ≡ pos (a * b)
unfolding ◌*ℤ◌
*ℤ-pos a b = ground arith

snoc-ne_nil : (s : Text) (b : ℕ) → is_empty (s ++ b ∷ []) ≡ false
snoc-ne_nil [] b = refl
snoc-ne_nil (c ∷ s) b = refl

le→not_ltb : (a b : ℕ) → a ≤ b → ltb b a ≡ false
le→not_ltb a b h = ground arith

-- A text of digits parses as `i64` by its digits.
parse_i64-digits :
    (s : Text) (v : ℕ)
    → all is_digit s ≡ true
    → is_empty s ≡ false
    → parse_digits max_i64 0 s ≡ some v
    → parse_i64 s ≡ some (pos v)
unfolding parse_i64
parse_i64-digits [] v d e p = cc
parse_i64-digits (b ∷ []) v d e p = ground arith
parse_i64-digits (b ∷ c ∷ s) v d e p = ground arith

cents_text : (c : ℕ) → c < 100 → pad2 (decimal c) ≡ (b'0' + c / 10) ∷ (b'0' + c % 10) ∷ []
unfolding decimal
cents_text c h = elim (dec_lt c 10) [
  | yes small ↦
      let fuel : c + 1 ≡ suc c = omega arith in rw (fuel, digits-small c c small) (ground arith)
  | no large ↦
      let fuel : c + 1 ≡ suc (suc (c - 1)) = omega arith in
      rw
        (
          fuel,
          digits-large (suc (c - 1)) c (omega arith),
          digits-small (c - 1) (c / 10) (omega arith),
        )
        (ground arith)
]

decimal-ne_nil : (n : ℕ) → is_empty (decimal n) ≡ false
unfolding decimal
decimal-ne_nil n = elim (dec_lt n 10) [
  | yes small ↦ rw (add-one, digits-small n n small)
  | no large ↦ rw (add-one, digits-large n n (omega arith)) (snoc-ne_nil (digits n (n / 10)) _)
]

decimal-all : (n : ℕ) → all is_digit (decimal n) ≡ true
unfolding decimal
decimal-all n = digits-all (n + 1) n

length-decimal : (n : ℕ) → n ≤ 100000000 → length (decimal n) ≤ 9
unfolding decimal
length-decimal n h = length-digits (n + 1) n 8 (omega arith)

parse_i64-decimal : (n : ℕ) → n ≤ max_i64 → parse_i64 (decimal n) ≡ some (pos n)
parse_i64-decimal n h =
    parse_i64-digits (decimal n) n (decimal-all n) (decimal-ne_nil n)
      (unfold decimal in parse-digits max_i64 (n + 1) n (omega arith) h)

parse_i64-cents :
    (c : ℕ) → c < 100 → parse_i64 ((b'0' + c / 10) ∷ (b'0' + c % 10) ∷ []) ≡ some (pos c)
parse_i64-cents c h = parse_i64-digits _ c (ground arith) refl (unfold parse_digits in ground arith)

amount_sum :
    (y c : ℕ)
    → y ≤ 100000000
    → c < 100
    → wrap_i64 (wrap_i64 (pos y *ℤ pos 100) +ℤ pos c) ≡ pos (y * 100 + c)
amount_sum y c h k =
    rw (
      *ℤ-pos,
      wrap_i64-pos (y * 100) (omega arith),
      +ℤ-pos,
      wrap_i64-pos (y * 100 + c) (omega arith),
    )

parts-format :
    (value : Text) (y c : ℕ)
    → y ≤ 100000000
    → c < 100
    → 1 ≤ y * 100 + c
    → y * 100 + c ≤ 10000000000
    → parse_parts value (decimal y, (b'0' + c / 10) ∷ (b'0' + c % 10) ∷ []) ≡ ok (pos (y * 100 + c))
unfolding parse_parts
parts-format value y c hy hc lo hi =
    rw
      (
        decimal-ne_nil y,
        decimal-all y,
        le→not_ltb (length (decimal y)) 9 (length-decimal y hy),
        parse_i64-decimal y (omega arith),
        parse_i64-cents c hc,
      )
      (ground (arith, amount_sum y c hy hc))

format_bounds :
    (m : ℕ) (t : Text)
    → format_amount (pos m) ≡ ok t
    → (1 ≤ m) × (m ≤ 10000000000) × (format_minor (pos m) ≡ t)
unfolding format_amount
format_bounds m t h = (ground arith, ground arith, ground arith)

parse-format_minor :
    (m : ℕ) → 1 ≤ m → m ≤ 10000000000 → parse_amount (format_minor (pos m)) ≡ ok (pos m)
unfolding format_minor parse_amount
parse-format_minor m lo hi =
    let whole : m / 100 * 100 + m % 100 ≡ m = omega arith in
    let parts =
      parts-format (decimal (m / 100) ++ (b'.' ∷ pad2 (decimal (m % 100)))) (m / 100) (m % 100)
        (omega arith) (omega arith) (omega arith) (omega arith) in
    rw
      (
        split_once-digits (decimal (m / 100)) (pad2 (decimal (m % 100))) (decimal-all (m / 100)),
        cents_text (m % 100) (omega arith),
      )
      (rw (whole, cents_text (m % 100) (omega arith)) at parts)

-- Every amount that formats parses back to itself: no rounding in either direction.
pub parse-format : (m : ℕ) (t : Text) → format_amount (pos m) ≡ ok t → parse_amount t ≡ ok (pos m)
parse-format m t h = let (lo, hi, e) = format_bounds m t h in rw (← e) (parse-format_minor m lo hi)

parse_in_bounds :
    (t : Text) (parts : Text × Text) (a : ℤ)
    → parse_parts t parts ≡ ok a
    → in_provider_bounds a ≡ true
unfolding parse_parts
parse_in_bounds t parts a h = ground arith

in_bounds_pos :
    (a : ℤ) → in_provider_bounds a ≡ true → (n : ℕ) × (a ≡ pos n) × (1 ≤ n) × (n ≤ 10000000000)
in_bounds_pos (pos n) h = (n, refl, ground arith, ground arith)
in_bounds_pos (negsuc n) h = absurd (ground arith)

formats : (n : ℕ) → 1 ≤ n → n ≤ 10000000000 → format_amount (pos n) ≡ ok (format_minor (pos n))
unfolding format_amount
formats n lo hi = ground arith

-- Whatever text an amount was read from, the amount formats, and the text that it formats to is read as the same
-- amount.
pub format-parse :
    (t : Text) (a : ℤ)
    → parse_amount t ≡ ok a
    → (s : Text) × (format_amount a ≡ ok s) × (parse_amount s ≡ ok a)
unfolding parse_amount
format-parse t a h =
    let (n, e, lo, hi) = in_bounds_pos a (parse_in_bounds t _ a h) in
    (
      format_minor (pos n),
      ap format_amount e ∙ formats n lo hi,
      unfold parse_amount in (parse-format_minor n lo hi ∙ ap ok (sym e)),
    )
