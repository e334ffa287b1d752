-- ===== src/Numbers.antt =====
-- Rust's reading and printing of decimal integers: `str::parse` for `i32`, `u16` and `u64`, and the
-- `Display` of a `u64`.
pub mod Decimal
use mathlib.Core.Option
use aprsr.Prelude.{
  ℕ, zero, suc, ◌+◌, ◌-◌, ◌*◌, ◌/◌, ◌%◌, ◌^◌, ◌≤◌, ◌<◌, List, [], ◌∷◌, ◌++◌, Option, none, some,
  Bool, true, false, ◌&&◌, ltb, leb, ◌==◌, if◌then◌else◌, length, All, ◌≡◌, refl, sym, ap, ◌∙◌,
  arith, map,
}
use aprsr.Prelude.Int.{ℤ, pos, negsuc}
use aprsr.Bytes.{Bytes}

-- `u8::is_ascii_digit`, and `char::to_digit(10)` of an ASCII character.
abbrev pub is_digit : ℕ → Bool
is_digit c = leb b'0' c && leb c b'9'

-- The digits of a number read onto `acc`; the sum that is too large is refused at the end, since it
-- only grows from there.
unfoldable pub digits_onto : ℕ → Bytes → Option ℕ
digits_onto acc [] = some acc
digits_onto acc (c ∷ s) =
    let rest = digits_onto (acc * 10 + (c - b'0')) s in if is_digit c then rest else none

abbrev at_most : ℕ → Option ℕ → Option ℕ
at_most high none = none
at_most high (some n) = if leb n high then some n else none

unfoldable pub parse_digits : ℕ → Bytes → Option ℕ
parse_digits high [] = none
parse_digits high (c ∷ s) = at_most high (digits_onto 0 (c ∷ s))

-- An unsigned number up to `high`: a `+` may stand before its digits.
unfoldable pub parse_unsigned : ℕ → Bytes → Option ℕ
parse_unsigned high [] = none
parse_unsigned high (c ∷ s) = if c == b'+' then parse_digits high s else parse_digits high (c ∷ s)

abbrev negative : ℕ → ℤ
negative zero = pos 0
negative (suc n) = negsuc n

unfoldable pub parse_i32 : Bytes → Option ℤ
parse_i32 [] = none
parse_i32 (c ∷ s) =
    if c == b'-'
    then Option.map negative (parse_digits (2 ^ 31) s)
    else Option.map pos (parse_unsigned (2 ^ 31 - 1) (c ∷ s))

unfoldable pub parse_u16 : Bytes → Option ℕ
parse_u16 = parse_unsigned (2 ^ 16 - 1)

unfoldable pub parse_u64 : Bytes → Option ℕ
parse_u64 = parse_unsigned (2 ^ 64 - 1)

-- The decimal digits of a number, on fuel; `n` rounds are enough for any number below 2 ^ n.
unfoldable pub decimal : ℕ → ℕ → Bytes
decimal zero n = []
decimal (suc fuel) n =
    let rest = decimal fuel (n / 10) in
    if ltb n 10 then (b'0' + n) ∷ [] else rest ++ (b'0' + n % 10) ∷ []

-- `Display for u64`
unfoldable pub show_u64 : ℕ → Bytes
show_u64 = decimal 20
