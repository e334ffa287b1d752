-- ===== src/Interval.antt =====
-- Intervals of the configuration (crates/aprsr-config/src/duration.rs), in seconds. The text is
-- ASCII: `trim` takes the ASCII white space away.
pub mod Display
use mathlib.Core.Option
use aprsr.Prelude.{
  ℕ, zero, suc, ◌+◌, ◌-◌, ◌*◌, ◌/◌, ◌^◌, List, [], ◌∷◌, ◌++◌, Option, none, some, Bool, true, false,
  ltb, leb, ◌==◌, if◌then◌else◌, is_empty, Result, ok, err, ◌>>=◌, ok_or, reverse,
}
use aprsr.Bytes.{Bytes, codes, trim_end, to_ascii_lowercase, unwrap_or}
use aprsr.Numbers.{is_digit, parse_u64, show_u64}

abbrev pub seconds_per_minute : ℕ
seconds_per_minute = 60

abbrev pub seconds_per_hour : ℕ
seconds_per_hour = 3600

abbrev pub seconds_per_day : ℕ
seconds_per_day = 86400

pub data IntervalError : Type 0 where
  empty : IntervalError
  invalid_character : Bytes → ℕ → IntervalError
  trailing_number missing_number overflow : Bytes → IntervalError

-- `checked_mul` and `checked_add` on 64 bits.
unfoldable pub checked : ℕ → Option ℕ
checked n = if ltb n (2 ^ 64) then some n else none

-- `str::trim`
unfoldable pub trim : Bytes → Bytes
trim s = trim_end (reverse (trim_end (reverse s)))

unfoldable pub push_digit : Bytes → ℕ → ℕ → Result ℕ IntervalError
push_digit input acc digit = elim (checked (acc * 10)) [
  | none ↦ err (overflow input)
  | some v ↦ ok_or (checked (v + digit)) (overflow input)
]

unfoldable pub multiplier : Bytes → ℕ → Result ℕ IntervalError
multiplier input ch =
    let unit = to_ascii_lowercase ch in
    if unit == b'd'
    then ok seconds_per_day
    else if unit == b'h'
    then ok seconds_per_hour
    else if unit == b'm'
    then ok seconds_per_minute
    else if unit == b's'
    then ok 1
    else err (invalid_character input unit)

unfoldable pub add_units : Bytes → ℕ → ℕ → ℕ → Result ℕ IntervalError
add_units input total value size = elim (checked (value * size)) [
  | none ↦ err (overflow input)
  | some v ↦ ok_or (checked (total + v)) (overflow input)
]

-- A character that is not a digit: the unit of the number before it.
unfoldable pub close_group : Bytes → ℕ → Option ℕ → ℕ → Result ℕ IntervalError
close_group input ch current total = multiplier input ch >>= (λ size.
    ok_or current (missing_number input) >>= (λ value. add_units input total value size))

-- The loop over the characters: the sum so far and the number that waits for its unit.
unfoldable pub scan_units : Bytes → Bytes → ℕ → Option ℕ → Result ℕ IntervalError
scan_units input [] total none = ok total
scan_units input [] total (some value) = err (trailing_number input)
scan_units input (ch ∷ rest) total current =
    if is_digit ch
    then push_digit input (unwrap_or current 0) (ch - b'0')
      >>= (λ v. scan_units input rest total (some v))
    else close_group input ch current total >>= (λ t. scan_units input rest t none)

-- `Interval::parse`
unfoldable pub parse_interval : Bytes → Result ℕ IntervalError
parse_interval input =
    let trimmed = trim input in
    if is_empty trimmed
    then err empty
    else elim (parse_u64 trimmed) [ some secs ↦ ok secs | none ↦ scan_units input trimmed 0 none ]

-- The rounds of the loop over the units: the count of each, when it is not 0.
unfoldable pub show_units : List (ℕ × ℕ) → ℕ → Bytes
show_units [] secs = []
show_units ((unit, size) ∷ smaller) secs =
    let count = secs / size in
    if ltb 0 count
    then show_u64 count ++ unit ∷ show_units smaller (secs - count * size)
    else show_units smaller secs

abbrev pub units : List (ℕ × ℕ)
units =
    (b'd', seconds_per_day) ∷ (b'h', seconds_per_hour) ∷ (b'm', seconds_per_minute) ∷ (b's', 1) ∷ []

-- `Display for Interval`; `wrote` is whether a unit was written.
unfoldable pub show_interval : ℕ → Bytes
show_interval secs =
    if secs == 0
    then codes "0s"
    else let text = show_units units secs in if is_empty text then codes "0s" else text
