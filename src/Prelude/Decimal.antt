-- ===== src/Prelude/Decimal.antt =====
-- Decimal printing of numbers, as `format!("{}")` does, and the parsers on it.
use xscope.Prelude.Tests.{ltb, if◌then◌else◌}
use xscope.Prelude.Lists.{length, all, length-append, all-append}
use xscope.Prelude.Text.{Text, is_digit, parse_digits, split_once}
use Prim.Native.Nat.{ℕ, zero, suc, ◌+◌, ◌-◌, ◌*◌, ◌/◌, ◌%◌, ◌^◌, ◌≤◌, ◌<◌}
use mathlib.Core.Path.{◌≡◌, refl}
use mathlib.Core.Bool.{true}
use mathlib.Core.Option.{some}
use mathlib.Core.List.{[], ◌∷◌, ◌++◌}
use native.Mathlib.Omega.{arith}
use native.Mathlib.Decide.{dec_lt}
use native.Mathlib.Nat.{pow-suc}

-- The digits of `n`; the fuel is more than their number where it is more than `n`.
unfoldable pub digits : ℕ → ℕ → Text
digits zero n = []
digits (suc f) n =
    let front = digits f (n / 10) in
    if ltb n 10 then (b'0' + n) ∷ [] else front ++ (b'0' + n % 10) ∷ []

unfoldable pub decimal : ℕ → Text
unfolding digits
decimal n = digits (n + 1) n

pub digits-small : (f n : ℕ) → n < 10 → digits (suc f) n ≡ (b'0' + n) ∷ []
unfolding digits
digits-small f n h = ground arith

pub digits-large : (f n : ℕ) → 10 ≤ n → digits (suc f) n ≡ digits f (n / 10) ++ (b'0' + n % 10) ∷ []
unfolding digits
digits-large f n h = ground arith

digit_lem : (d : ℕ) → d < 10 → is_digit (b'0' + d) ≡ true
digit_lem d h = ground arith

parse_digits-snoc :
    (bound a v d : ℕ) (s : Text)
    → parse_digits bound a s ≡ some v
    → d < 10
    → v * 10 + d ≤ bound
    → parse_digits bound a (s ++ (b'0' + d) ∷ []) ≡ some (v * 10 + d)
unfolding parse_digits
parse_digits-snoc bound a v d [] h lt fits = ground (arith, digit_lem d)
parse_digits-snoc bound a v d (b ∷ s) h lt fits =
    ground (arith, parse_digits-snoc bound (a * 10 + (b - b'0')) v d s)

pub digits-all : (f n : ℕ) → all is_digit (digits f n) ≡ true
digits-all zero n = unfold digits in refl
digits-all (suc f) n = elim (dec_lt n 10) [
  | yes small ↦ rw (digits-small f n small) (ground (arith, digit_lem n))
  | no large ↦
      rw (digits-large f n (omega arith), all-append, digits-all f (n / 10))
        (ground (arith, digit_lem (n % 10)))
]

-- What was printed parses, where the fuel is enough and the bound admits the number.
pub parse-digits : (bound f n : ℕ) → n < f → n ≤ bound → parse_digits bound 0 (digits f n) ≡ some n
parse-digits bound zero n lt fits = absurd (omega arith)
parse-digits bound (suc f) n lt fits = elim (dec_lt n 10) [
  | yes small ↦ rw (digits-small f n small) (unfold parse_digits in ground (arith, digit_lem n))
  | no large ↦
      let whole : n / 10 * 10 + n % 10 ≡ n = omega arith in
      rw (
        digits-large f n (omega arith),
        parse_digits-snoc bound 0 (n / 10) (n % 10) (digits f (n / 10))
            (parse-digits bound f (n / 10) (omega arith) (omega arith)) (omega arith) (omega arith),
        whole,
      )
]

length_front :
    (f n k : ℕ)
    → n < 10 ^ suc k
    → 10 ≤ n
    → ((j : ℕ) → n / 10 < 10 ^ suc j → length (digits f (n / 10)) ≤ suc j)
    → length (digits f (n / 10)) + 1 ≤ suc k
length_front f n zero h large ih = absurd (omega arith)
length_front f n (suc k) h large ih =
    let power : 10 ^ suc (suc k) ≡ 10 ^ suc k * 10 = pow-suc 10 (suc k) in
    omega (arith, ih k (omega arith))

pub length-digits : (f n k : ℕ) → n < 10 ^ suc k → length (digits f n) ≤ suc k
length-digits zero n k h = unfold digits in omega arith
length-digits (suc f) n k h = elim (dec_lt n 10) [
  | yes small ↦ rw (digits-small f n small) (omega arith)
  | no large ↦
      rw (digits-large f n (omega arith), length-append)
        (length_front f n k h (omega arith) (λ j. length-digits f (n / 10) j))
]

pub split_once-digits :
    (s rest : Text) → all is_digit s ≡ true → split_once b'.' (s ++ b'.' ∷ rest) ≡ some (s, rest)
unfolding split_once
split_once-digits [] rest h = refl
split_once-digits (b ∷ s) rest h = ground (arith, split_once-digits s rest)
