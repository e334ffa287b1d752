-- ===== src/Aprs/Payload.antt =====
-- The parser of the information field (`parse` of crates/aprsr-core/src/aprs/mod.rs).
pub mod Found
pub mod Shaped
pub mod Classified
use mathlib.Core.Option
use aprsr.Prelude.{
  ℕ, suc, ◌+◌, ◌-◌, List, [], ◌∷◌, Option, none, some, Bool, true, false, not, ◌&&◌, ◌||◌, ltb, leb,
  ◌==◌, if◌then◌else◌, length, take, drop, get_elem?, is_some_and,
}
use aprsr.Prelude.Options.{◌>>=◌, require}
use aprsr.Bytes.{Bytes, codes, trim_end, unwrap_or, eq_ignore_ascii_case}
use aprsr.Geo.{Floats, Position}
use aprsr.Packet.{Packet}
use aprsr.Aprs.{PacketType, types_none, position_type, union, ParsedPayload}
use aprsr.Aprs.Symbols.{Symbol, is_weather}
use aprsr.Aprs.Encodings.{is_byte, parse_uncompressed, parse_compressed, parse_mice}

abbrev pub object_type : PacketType
object_type = 2

abbrev pub item_type : PacketType
item_type = 4

abbrev pub message_type : PacketType
message_type = 8

abbrev pub query_type : PacketType
query_type = 16

abbrev pub status_type : PacketType
status_type = 32

abbrev pub telemetry_type : PacketType
telemetry_type = 64

abbrev pub user_defined_type : PacketType
user_defined_type = 128

abbrev pub nws_type : PacketType
nws_type = 256

abbrev pub weather_type : PacketType
weather_type = 512

-- Not the second or a later byte of a character.
abbrev pub starts_char : Option ℕ → Bool
starts_char none = true
starts_char (some byte) = ltb byte 0x80 || leb 0xc0 byte

-- `str::is_char_boundary` within the text.
unfoldable pub is_boundary : ℕ → Bytes → Bool
is_boundary i s = leb i (length s) && starts_char (get_elem? s i)

-- `get(i..)` and `get(i..j)` on a `str`.
unfoldable pub str_from : ℕ → Bytes → Option Bytes
str_from i s = if is_boundary i s then some (drop i s) else none

unfoldable pub str_slice : ℕ → ℕ → Bytes → Option Bytes
str_slice i j s =
    if leb i j && is_boundary i s && is_boundary j s then some (take (j - i) (drop i s)) else none

-- `find(['!', '_'])`
unfoldable pub find_flag : Bytes → Option ℕ
find_flag [] = none
find_flag (c ∷ s) =
    let later = Option.map suc (find_flag s) in if c == b'!' || c == b'_' then some 0 else later

unfoldable pub split_item_name : Bytes → Option (Bytes × Bytes)
split_item_name rest = do
  end ← find_flag rest
  _ ← require (leb 3 end && leb end 9)
  name ← str_slice 0 end rest
  behind ← str_from (end + 1) rest
  some (name, behind)

-- `MICE_DTI.contains(&dti)`
abbrev pub is_mice : ℕ → Bool
is_mice dti = dti == b'`' || dti == b'\'' || dti == 0x1c || dti == 0x1d

-- The callsign begins with one of the three prefixes, ignoring ASCII case.
unfoldable pub has_head : Bytes → Bytes → Bool
has_head call prefix =
    leb (length prefix) (length call)
    && is_some_and (str_slice 0 (length prefix) call) (λ head. eq_ignore_ascii_case head prefix)

unfoldable pub has_prefix : Bytes → Bool
has_prefix call =
    has_head call (codes "NWS") || has_head call (codes "SKY") || has_head call (codes "CWA")

module _ (floats : Floats) where
  abbrev Parsed : Type 0
  Parsed = ParsedPayload floats.f64

  unfoldable pub default : Parsed
  default = record {
    types = types_none;
    position = none;
    symbol = none;
    object_name = none;
    addressee = none;
  }

  -- `out.types |= …`
  abbrev pub add_type : PacketType → Parsed → Parsed
  add_type kind out = record out { types = union out.types kind }

  unfoldable pub set_position : Parsed → Option (Position floats.f64 × Symbol) → Option Parsed
  set_position out none = none
  set_position out (some (position, symbol)) =
      some (record out { position = some position; symbol = some symbol })

  unfoldable pub apply_position : Bytes → Parsed → Parsed
  apply_position text out =
      unwrap_or (set_position out (parse_uncompressed floats text))
        (unwrap_or (set_position out (parse_compressed floats text)) out)

  -- The item's name and position, when the name can be told.
  unfoldable pub apply_item : Option (Bytes × Bytes) → Parsed → Parsed
  apply_item none out = out
  apply_item (some (name, rest)) out = apply_position rest (record out { object_name = some name })

  -- The arms of `match dti`.
  unfoldable pub by_identifier : Packet → ℕ → Parsed → Parsed
  by_identifier packet dti out =
      let payload = packet.payload in
      let from = λ (i : ℕ). unwrap_or (str_from i payload) [] in
      if dti == b'!' || dti == b'='
      then apply_position (from 1) (add_type position_type out)
      else if dti == b'/' || dti == b'@'
      then apply_position (from 8) (add_type position_type out)
      else if dti == b';'
      then apply_position (from 18) (record (add_type object_type out) {
        object_name = Option.map trim_end (str_slice 1 10 payload);
      })
      else if dti == b')'
      then apply_item (split_item_name (from 1)) (add_type item_type out)
      else if dti == b':'
      then record (add_type message_type out) {
        addressee = Option.map trim_end (str_slice 1 10 payload);
      }
      else if dti == b'?'
      then add_type query_type out
      else if dti == b'>'
      then add_type status_type out
      else if dti == b'T'
      then if is_byte b'#' (get_elem? payload 1) then add_type telemetry_type out else out
      else if dti == b'{'
      then add_type user_defined_type out
      else if dti == b'_'
      then add_type weather_type out
      else if is_mice dti
      then unwrap_or
          (set_position (add_type position_type out)
            (parse_mice floats packet.destination (from 1)))
          (add_type position_type out)
      else out

  unfoldable pub is_nws : Packet → Parsed → Bool
  is_nws packet parsed =
      has_prefix packet.source
      || is_some_and parsed.addressee has_prefix
      || is_some_and parsed.object_name has_prefix

  -- A symbol of a weather station makes the packet a weather report.
  unfoldable pub mark_weather : Parsed → Parsed
  mark_weather out = if is_some_and out.symbol is_weather then add_type weather_type out else out

  unfoldable pub mark_nws : Packet → Parsed → Parsed
  mark_nws packet out = if is_nws packet out then add_type nws_type out else out

  -- `parse`
  unfoldable pub parse_payload : Packet → Parsed
  parse_payload packet = elim (get_elem? packet.payload 0) [
    | none ↦ default
    | some dti ↦ mark_nws packet (mark_weather (by_identifier packet dti default))
  ]
