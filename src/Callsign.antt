-- ===== src/Callsign.antt =====
-- Callsign validation and wildcard patterns (crates/aprsr-core/src/callsign.rs).
pub mod Grammar
pub mod Pattern
pub mod Alphabet
use aprsr.Prelude.{
  ℕ, ◌+◌, ◌-◌, ◌%◌, [], ◌∷◌, Option, none, some, Bool, true, false, ◌&&◌, ◌||◌, ltb, leb, ◌==◌,
  if◌then◌else◌, length, is_empty, is_some, is_some_and, Result, ok, err, ◌>>=◌, is_ok,
}
use aprsr.Bytes.{Bytes, get_to, get_from, unwrap_or, first_char, strip_suffix, eq_ignore_ascii_case}

abbrev pub max_callsign_len : ℕ
max_callsign_len = 9

abbrev pub min_login_len : ℕ
min_login_len = 3

abbrev pub max_ssid_len : ℕ
max_ssid_len = 2

abbrev pub separator_byte : ℕ
separator_byte = b'-'

pub data CallsignError : Type 0 where
  empty : CallsignError
  too_long : ℕ → CallsignError
  too_short_for_login : ℕ → CallsignError
  invalid_character : ℕ → CallsignError
  multiple_separators empty_base empty_ssid ssid_too_long : CallsignError

pub record Callsign : Type 0 where
  pub raw : Bytes
  pub separator : Option ℕ

-- 'A'..='Z' | '0'..='9'
abbrev pub is_callsign_byte : ℕ → Bool
is_callsign_byte c = leb b'A' c && leb c b'Z' || leb b'0' c && leb c b'9'

-- The loop of `validate`: `i` is the byte offset of the text that is left.
unfoldable pub scan : ℕ → Option ℕ → Bytes → Result (Option ℕ) CallsignError
scan i separator [] = ok separator
scan i separator (c ∷ s) =
    let next = scan (i + 1) separator s in
    let found = scan (i + 1) (some (i % 256)) s in
    if is_callsign_byte c
    then next
    else if c == separator_byte
    then if is_some separator
      then err multiple_separators
      else if i == 0
      then err empty_base
      else found
    else err (invalid_character (first_char (c ∷ s)))

-- The checks on the SSID behind the loop.
unfoldable pub check_ssid : Bytes → Option ℕ → Result (Option ℕ) CallsignError
check_ssid s none = ok none
check_ssid s (some i) =
    let ssid_len = length s - i - 1 in
    if ssid_len == 0
    then err empty_ssid
    else if ltb max_ssid_len ssid_len
    then err ssid_too_long
    else ok (some i)

unfoldable pub validate : Bytes → Result (Option ℕ) CallsignError
validate s =
    if is_empty s
    then err empty
    else if ltb max_callsign_len (length s)
    then err (too_long (length s))
    else (do separator ← scan 0 none s; check_ssid s separator)

unfoldable pub parse : Bytes → Result Callsign CallsignError
parse s = do separator ← validate s; ok (record { raw = s; separator = separator })

unfoldable pub parse_login : Bytes → Result Callsign CallsignError
parse_login s =
    if ltb (length s) min_login_len then err (too_short_for_login (length s)) else parse s

unfoldable pub as_str : Callsign → Bytes
as_str call = call.raw

unfoldable pub base : Callsign → Bytes
base call = elim call.separator [
  | none ↦ call.raw
  | some i ↦ unwrap_or (get_to i call.raw) call.raw
]

unfoldable pub ssid : Callsign → Option Bytes
ssid call = elim call.separator [ none ↦ none | some i ↦ get_from (i + 1) call.raw ]

unfoldable pub validate_for_packet : Bytes → Result (Unit {0}) CallsignError
validate_for_packet s = do _ ← validate s; ok tt

unfoldable pub is_valid : Bytes → Bool
is_valid s = is_ok (validate s)

unfoldable pub starts_with_ignore_case : Bytes → Bytes → Bool
unfolding eq_ignore_ascii_case
starts_with_ignore_case haystack prefix =
    is_some_and (get_to (length prefix) haystack) (λ head. eq_ignore_ascii_case head prefix)

unfoldable pub matches_pattern : Bytes → Bytes → Bool
unfolding starts_with_ignore_case strip_suffix eq_ignore_ascii_case
matches_pattern pattern' callsign = elim (strip_suffix b'*' pattern') [
  | some prefix ↦ leb (length prefix) (length callsign) && starts_with_ignore_case callsign prefix
  | none ↦ eq_ignore_ascii_case pattern' callsign
]
