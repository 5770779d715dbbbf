-- ===== src/Prelude/Text.antt =====
-- Text is the list of its UTF-8 bytes, as `str::len` and `str::bytes` count and yield them.
use Prim.Native.Nat.{ℕ, ◌+◌, ◌-◌, ◌*◌}
use Prim.Native.Char.{code}
use Prim.Native.String.{String}
use mathlib.Core.Path.{◌≡◌, refl}
use mathlib.Core.Logic.{◌↔◌, ◌≢◌}
use mathlib.Core.Bool.{Bool, true, false, ◌&&◌, ◌||◌}
use mathlib.Core.List.{List, [], ◌∷◌}
use mathlib.Core.Option.{Option, none, some}
use native.Mathlib.Omega.{arith}
use mathlib.Core.Option
use xscope.Prelude.Int.{ℤ, pos, sub_ℕ, max_i64}
use xscope.Prelude.Lists.{All, In}
use xscope.Prelude.Tests.{leb, ◌==◌, if◌then◌else◌}

abbrev pub Text : Type 0
Text = List ℕ

-- The bytes of an ASCII literal.
abbrev pub codes : String → Text
codes String.[] = []
codes (String.◌∷◌ c s) = code c ∷ codes s

unfoldable pub text_eq : Text → Text → Bool
text_eq [] [] = true
text_eq (a ∷ s) (b ∷ t) = a == b && text_eq s t
text_eq _ _ = false

pub text_eq_iff : (s t : Text) → (text_eq s t ≡ true) ↔ (s ≡ t)
unfolding text_eq
text_eq_iff [] [] = (λ _. refl, λ _. refl)
text_eq_iff [] (b ∷ t) = ground arith
text_eq_iff (a ∷ s) [] = ground arith
text_eq_iff (a ∷ s) (b ∷ t) = ground (arith, text_eq_iff s t)

pub text_eq_refl : (s : Text) → text_eq s s ≡ true
text_eq_refl s = (text_eq_iff s s).1 refl

-- `s.starts_with(prefix)`
unfoldable pub starts_with : Text → Text → Bool
starts_with s [] = true
starts_with [] (p ∷ prefix) = false
starts_with (b ∷ s) (p ∷ prefix) = b == p && starts_with s prefix

abbrev pub contains_byte : ℕ → Text → Bool
contains_byte b [] = false
contains_byte b (c ∷ s) = c == b || contains_byte b s

abbrev pub is_digit : ℕ → Bool
is_digit b = leb b'0' b && leb b b'9'

abbrev pub is_lowercase : ℕ → Bool
is_lowercase b = leb b'a' b && leb b b'z'

abbrev pub is_uppercase : ℕ → Bool
is_uppercase b = leb b'A' b && leb b b'Z'

abbrev pub is_alphanumeric : ℕ → Bool
is_alphanumeric b = is_digit b || is_lowercase b || is_uppercase b

abbrev space : ℕ → Bool
space a = (leb 9 a && leb a 13) || a == 32

-- U+0085, U+00A0
abbrev pair_space : ℕ → ℕ → Bool
pair_space a b = a == 0xc2 && (b == 0x85 || b == 0xa0)

-- U+1680, U+2000 to U+200A, U+2028, U+2029, U+202F, U+205F, U+3000
abbrev triple_space : ℕ → ℕ → ℕ → Bool
triple_space a b c =
    (a == 0xe1 && b == 0x9a && c == 0x80)
    || (a == 0xe2
        && b == 0x80
        && ((leb 0x80 c && leb c 0x8a) || c == 0xa8 || c == 0xa9 || c == 0xaf))
    || (a == 0xe2 && b == 0x81 && c == 0x9f)
    || (a == 0xe3 && b == 0x80 && c == 0x80)

-- `s.trim().is_empty()`: every character has Unicode's White_Space property. The clauses read
-- its one-, two- and three-byte encodings.
unfoldable pub is_blank : Text → Bool
is_blank [] = true
is_blank (a ∷ []) = space a
is_blank (a ∷ b ∷ []) = let rest = is_blank (b ∷ []) in if space a then rest else pair_space a b
is_blank (a ∷ b ∷ c ∷ s) =
    let one = is_blank (b ∷ c ∷ s) in
    let two = is_blank (c ∷ s) in
    let three = is_blank s in
    if space a then one else if pair_space a b then two else triple_space a b c && three

-- `s.rsplit_once(sep)` for a one-byte separator: the parts around its last occurrence.
unfoldable pub rsplit_once : ℕ → Text → Option (Text × Text)
rsplit_once sep [] = none
rsplit_once sep (b ∷ s) = elim (rsplit_once sep s) [
  | some (before, after) ↦ some (b ∷ before, after)
  | none ↦ if b == sep then some ([], s) else none
]

-- `s.split_once(sep)`: the parts around its first occurrence.
unfoldable pub split_once : ℕ → Text → Option (Text × Text)
split_once sep [] = none
split_once sep (b ∷ s) =
    let rest = split_once sep s in
    if b == sep
    then some ([], s)
    else elim rest [ some (before, after) ↦ some (b ∷ before, after) | none ↦ none ]

-- The decimal digits of an unsigned number below a bound, read from the left; a digit that passes
-- the bound fails the whole.
unfoldable pub parse_digits : ℕ → ℕ → Text → Option ℕ
parse_digits bound n [] = some n
parse_digits bound n (b ∷ s) =
    let rest = parse_digits bound (n * 10 + (b - b'0')) s in
    if is_digit b && leb (n * 10 + (b - b'0')) bound then rest else none

-- `s.parse::<u16>()` and the like, for an unsigned type: one leading `+` is accepted.
unfoldable pub parse_unsigned : ℕ → Text → Option ℕ
parse_unsigned bound [] = none
parse_unsigned bound (b ∷ []) = if is_digit b then parse_digits bound 0 (b ∷ []) else none
parse_unsigned bound (b ∷ c ∷ s) =
    if b == b'+' then parse_digits bound 0 (c ∷ s) else parse_digits bound 0 (b ∷ c ∷ s)

-- A `HashSet` of texts is the list of what was inserted.
unfoldable pub text_mem : Text → List Text → Bool
text_mem t [] = false
text_mem t (s ∷ rest) = text_eq s t || text_mem t rest

pub text_mem_iff : (t : Text) (l : List Text) → (text_mem t l ≡ true) ↔ In t l
unfolding text_mem
text_mem_iff t [] = ground arith
text_mem_iff t (s ∷ rest) = ground (arith, text_eq_iff s t, text_mem_iff t rest)

pub not_text_mem : (t : Text) (l : List Text) → text_mem t l ≡ false → All (λ s. s ≢ t) l
unfolding text_mem
not_text_mem t [] h = tt
not_text_mem t (s ∷ rest) h =
    (λ e. ground (arith, text_eq_iff s t), not_text_mem t rest (ground arith))

-- `s.parse::<i64>()`: one leading sign is accepted.
unfoldable pub parse_i64 : Text → Option ℤ
unfolding parse_digits
parse_i64 [] = none
parse_i64 (b ∷ []) = if is_digit b then Option.map pos (parse_digits max_i64 0 (b ∷ [])) else none
parse_i64 (b ∷ c ∷ s) =
    if b == b'+'
    then Option.map pos (parse_digits max_i64 0 (c ∷ s))
    else if b == b'-'
    then Option.map (λ n. sub_ℕ 0 n) (parse_digits (max_i64 + 1) 0 (c ∷ s))
    else Option.map pos (parse_digits max_i64 0 (b ∷ c ∷ s))
