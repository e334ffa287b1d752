-- ===== src/Aprs/Encodings.antt =====
-- The three position encodings of APRS (crates/aprsr-core/src/aprs/position.rs). A text is its UTF-8
-- bytes, which is how the parsers read it.
pub mod Written
pub mod Print
pub mod Compressed
use mathlib.Core.Option
use aprsr.Prelude.{
  ℕ, zero, suc, ◌+◌, ◌-◌, ◌*◌, ◌/◌, ◌%◌, ◌^◌, List, [], ◌∷◌, Option, none, some, Bool, true, false,
  not, ◌&&◌, ◌||◌, ltb, leb, ◌==◌, if◌then◌else◌, length, take, drop, get_elem?, get_or,
  is_some_and,
}
use aprsr.Prelude.Int.{ℤ, pos, negsuc, ◌+ℤ◌, ◌-ℤ◌, between}
use aprsr.Prelude.Options.{◌>>=◌, require}
use aprsr.Bytes.{Bytes, codes, split, str_eq}
use aprsr.Numbers.{is_digit}
use aprsr.Geo.{Floats, Position}
use aprsr.Aprs.Symbols.{Symbol, has_valid_table}

-- `get(i..j)` on a slice of bytes.
unfoldable pub slice : ℕ → ℕ → Bytes → Option Bytes
slice i j b = if leb i j && leb j (length b) then some (take (j - i) (drop i b)) else none

-- `u8 as char`: the character of a byte, in UTF-8.
unfoldable pub char_of : ℕ → Bytes
char_of byte = if ltb byte 0x80 then byte ∷ [] else (0xc0 + byte / 64) ∷ (0x80 + byte % 64) ∷ []

unfoldable pub digit : ℕ → Option ℕ
digit byte = if is_digit byte then some (byte - b'0') else none

unfoldable pub digit_or_space : ℕ → Option ℕ
digit_or_space byte =
    if byte == b' ' then some 0 else if is_digit byte then some (byte - b'0') else none

unfoldable pub two_digits : Bytes → Option ℕ
two_digits bytes = do
  a ← get_elem? bytes 0 >>= digit
  b ← get_elem? bytes 1 >>= digit
  some (a * 10 + b)

unfoldable pub three_digits : Bytes → Option ℕ
three_digits bytes = do
  a ← get_elem? bytes 0 >>= digit
  b ← get_elem? bytes 1 >>= digit
  c ← get_elem? bytes 2 >>= digit
  some (a * 100 + b * 10 + c)

unfoldable pub two_digits_ambiguous : Bytes → Option ℕ
two_digits_ambiguous bytes = do
  a ← get_elem? bytes 0 >>= digit_or_space
  b ← get_elem? bytes 1 >>= digit_or_space
  some (a * 10 + b)

-- `checked_mul` and `checked_add` on 32 bits.
abbrev pub checked_u32 : ℕ → Option ℕ
checked_u32 n = if ltb n (2 ^ 32) then some n else none

-- The loop of `base91`.
unfoldable pub base91_onto : ℕ → Bytes → Option ℕ
base91_onto value [] = some value
base91_onto value (byte ∷ rest) = do
  _ ← require (leb 33 byte && leb byte 124)
  scaled ← checked_u32 (value * 91)
  next ← checked_u32 (scaled + (byte - 33))
  base91_onto next rest

unfoldable pub base91 : Bytes → Option ℕ
base91 bytes = base91_onto 0 bytes

-- A byte that chooses between two hemispheres: true for the first of its two letters.
unfoldable pub either_of : ℕ → ℕ → Option ℕ → Option Bool
either_of first second none = none
either_of first second (some byte) =
    if byte == first then some true else if byte == second then some false else none

abbrev pub is_byte : ℕ → Option ℕ → Bool
is_byte expected found = is_some_and found (λ byte. byte == expected)

-- One digit of the latitude in a Mic-E destination.
unfoldable pub mice_digit : ℕ → Option ℕ
mice_digit c =
    if is_digit c
    then some (c - b'0')
    else if leb b'A' c && leb c b'J'
    then some (c - b'A')
    else if leb b'P' c && leb c b'Y'
    then some (c - b'P')
    else if c == b'K' || c == b'L' || c == b'Z'
    then some 0
    else none

-- The loop over the first `n` bytes of the destination.
unfoldable pub mice_digits : ℕ → Bytes → Option Bytes
mice_digits zero dest = some []
mice_digits (suc n) [] = none
mice_digits (suc n) (c ∷ dest) = do d ← mice_digit c; ds ← mice_digits n dest; some (d ∷ ds)

-- `matches!(byte, b'P'..=b'Z')`
abbrev pub is_flag : ℕ → Bool
is_flag byte = leb b'P' byte && leb byte b'Z'

-- The degrees of longitude, and the shifts of the range that is offset by 100.
unfoldable pub mice_degrees : ℕ → Bool → Option ℤ
mice_degrees byte offset =
    let base = pos byte -ℤ 28 in
    let shifted = if offset then base +ℤ 100 else base in
    let degrees =
      if between 180 189 shifted
      then shifted -ℤ 80
      else if between 190 199 shifted
      then shifted -ℤ 190
      else shifted in
    if between 0 179 degrees then some degrees else none

abbrev pub at_least : ℕ → ℤ → Bool
at_least low (pos n) = leb low n
at_least low (negsuc n) = false

unfoldable pub mice_minutes : ℕ → Option ℤ
mice_minutes byte =
    let base = pos byte -ℤ 28 in
    let minutes = if at_least 60 base then base -ℤ 60 else base in
    if between 0 59 minutes then some minutes else none

unfoldable pub mice_hundredths : ℕ → Option ℤ
mice_hundredths byte =
    let hundredths = pos byte -ℤ 28 in if between 0 99 hundredths then some hundredths else none

module _ (floats : Floats) where
  -- A literal of the source, or `f64::from` of an integer.
  abbrev pub number : ℕ → floats.f64
  number n = floats.of_int (pos n)

  -- `(low..=high).contains(&value)` with `-high` for `low`.
  abbrev pub within : ℕ → floats.f64 → Bool
  within high value = floats.le (floats.neg (number high)) value && floats.le value (number high)

  -- `Position::new`
  unfoldable pub new : floats.f64 → floats.f64 → Option (Position floats.f64)
  new latitude longitude =
      if floats.is_finite latitude
        && floats.is_finite longitude
        && within 90 latitude
        && within 180 longitude
      then some (record { latitude = latitude; longitude = longitude })
      else none

  -- `degrees + (minutes + hundredths / 100.0) / 60.0`
  unfoldable pub decimal_degrees : (degrees minutes hundredths : floats.f64) → floats.f64
  decimal_degrees degrees minutes hundredths =
      floats.add degrees
        (floats.div (floats.add minutes (floats.div hundredths (number 100))) (number 60))

  unfoldable pub signed : Bool → floats.f64 → floats.f64
  signed positive value = if positive then value else floats.neg value

  unfoldable pub with_symbol :
      Symbol → Option (Position floats.f64) → Option (Position floats.f64 × Symbol)
  with_symbol symbol found = Option.map (λ position. (position, symbol)) found

  unfoldable pub parse_uncompressed : Bytes → Option (Position floats.f64 × Symbol)
  parse_uncompressed b = do
    _ ← require (leb 19 (length b))
    lat_deg ← slice 0 2 b >>= two_digits
    lat_min ← slice 2 4 b >>= two_digits_ambiguous
    _ ← require (is_byte b'.' (get_elem? b 4))
    lat_hun ← slice 5 7 b >>= two_digits_ambiguous
    north ← either_of b'N' b'S' (get_elem? b 7)
    table ← get_elem? b 8
    lon_deg ← slice 9 12 b >>= three_digits
    lon_min ← slice 12 14 b >>= two_digits_ambiguous
    _ ← require (is_byte b'.' (get_elem? b 14))
    lon_hun ← slice 15 17 b >>= two_digits_ambiguous
    east ← either_of b'E' b'W' (get_elem? b 17)
    code ← get_elem? b 18
    let symbol : Symbol = record { table = char_of table; code = char_of code }
    _ ← require (has_valid_table symbol)
    let lat = decimal_degrees (number lat_deg) (number lat_min) (number lat_hun)
    let lon = decimal_degrees (number lon_deg) (number lon_min) (number lon_hun)
    with_symbol symbol (new (signed north lat) (signed east lon))

  unfoldable pub parse_compressed : Bytes → Option (Position floats.f64 × Symbol)
  parse_compressed b = do
    _ ← require (leb 13 (length b))
    table ← get_elem? b 0
    code ← get_elem? b 9
    let symbol : Symbol = record { table = char_of table; code = char_of code }
    _ ← require (has_valid_table symbol)
    lat_raw ← slice 1 5 b >>= base91
    lon_raw ← slice 5 9 b >>= base91
    let lat = floats.sub (number 90) (floats.div (number lat_raw) (number 380926))
    let lon = floats.add (floats.neg (number 180)) (floats.div (number lon_raw) (number 190463))
    with_symbol symbol (new lat lon)

  -- Two digits of the destination, as a float.
  unfoldable pub pair_of : ℕ → ℕ → floats.f64
  pair_of tens ones = floats.add (floats.mul (number tens) (number 10)) (number ones)

  -- What `parse_mice` reads from the information field, once the destination is read.
  unfoldable pub mice_rest :
      (north lon_offset west : Bool) → floats.f64 → Bytes → Option (Position floats.f64 × Symbol)
  mice_rest north lon_offset west lat b = do
    _ ← require (leb 8 (length b))
    lon_deg ← get_elem? b 0 >>= λ byte. mice_degrees byte lon_offset
    lon_min ← get_elem? b 1 >>= mice_minutes
    lon_hun ← get_elem? b 2 >>= mice_hundredths
    let lon =
        decimal_degrees (floats.of_int lon_deg) (floats.of_int lon_min) (floats.of_int lon_hun)
    table ← get_elem? b 7
    code ← get_elem? b 6
    let symbol : Symbol = record { table = char_of table; code = char_of code }
    _ ← require (has_valid_table symbol)
    with_symbol symbol (new (signed north lat) (signed (not west) lon))

  unfoldable pub parse_mice : Bytes → Bytes → Option (Position floats.f64 × Symbol)
  parse_mice destination rest = do
    dest ← get_elem? (split b'-' destination) 0
    _ ← require (leb 6 (length dest))
    digits ← mice_digits 6 dest
    north ← get_elem? dest 3
    lon_offset ← get_elem? dest 4
    west ← get_elem? dest 5
    let lat =
        decimal_degrees (pair_of (get_or digits 0 0) (get_or digits 1 0))
          (pair_of (get_or digits 2 0) (get_or digits 3 0))
          (pair_of (get_or digits 4 0) (get_or digits 5 0))
    mice_rest (is_flag north) (is_flag lon_offset) (is_flag west) lat rest
