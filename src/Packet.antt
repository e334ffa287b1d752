-- ===== src/Packet.antt =====
-- TNC2 packet framing (crates/aprsr-core/src/packet.rs).
pub mod Render
pub mod Framing
pub mod Accepted
pub mod Reparse
use mathlib.Core.Option
use aprsr.Prelude.{
  ℕ, ◌+◌, List, [], ◌∷◌, ◌++◌, Option, none, some, Bool, true, false, not, ◌&&◌, ltb, ◌==◌,
  if◌then◌else◌, length, is_empty, Result, ok, err, ◌>>=◌, ok_or, map_err,
}
use aprsr.Bytes.{Bytes, find, get_to, get_from, unwrap_or}
use aprsr.Callsign.{CallsignError, validate_for_packet}
use aprsr.Digipath.{Digipath, new, comma}

abbrev pub max_packet_len : ℕ
max_packet_len = 512

abbrev pub max_packet_body_len : ℕ
max_packet_body_len = 510

pub data PacketError : Type 0 where
  empty : PacketError
  too_long : ℕ → PacketError
  control_character : ℕ → PacketError
  missing_destination missing_payload : PacketError
  invalid_source invalid_destination : Bytes → CallsignError → PacketError
  empty_payload : PacketError

-- `Tnc2Packet`
pub record Packet : Type 0 where
  pub raw : Bytes
  pub source : Bytes
  pub destination : Bytes
  pub path : Digipath
  pub payload : Bytes
  pub colon : ℕ

-- Below space and not a tab.
abbrev pub is_control : ℕ → Bool
is_control b = ltb b 0x20 && not (b == 0x09)

-- `iter().find(…)`
unfoldable pub first_control : Bytes → Option ℕ
first_control [] = none
first_control (b ∷ s) = let later = first_control s in if is_control b then some b else later

-- The destination and the path behind the `>`.
unfoldable pub split_destination : Bytes → Bytes × Bytes
split_destination after_source = elim (find comma after_source) [
  | some i ↦ (unwrap_or (get_to i after_source) [], unwrap_or (get_from (i + 1) after_source) [])
  | none ↦ (after_source, [])
]

abbrev pub gt : ℕ
gt = b'>'

abbrev pub colon_byte : ℕ
colon_byte = b':'

-- The header's fields, once the payload is cut off.
unfoldable pub parse_header : Bytes → ℕ → Bytes → Bytes → Result Packet PacketError
parse_header raw colon header payload = do
  i ← ok_or (find gt header) missing_destination
  source ← ok_or (get_to i header) missing_destination
  after_source ← ok_or (get_from (i + 1) header) missing_destination
  let destination = (split_destination after_source).0
  let path = (split_destination after_source).1
  _ ← map_err (invalid_source source) (validate_for_packet source)
  _ ← map_err (invalid_destination destination) (validate_for_packet destination)
  ok (record {
    raw = raw;
    source = source;
    destination = destination;
    path = new path;
    payload = payload;
    colon = colon;
  })

unfoldable pub parse_body : Bytes → Result Packet PacketError
parse_body raw = do
  colon ← ok_or (find colon_byte raw) missing_payload
  header ← ok_or (get_to colon raw) missing_payload
  payload ← ok_or (get_from (colon + 1) raw) missing_payload
  if is_empty payload then err empty_payload else parse_header raw colon header payload

unfoldable pub parse : Bytes → Result Packet PacketError
parse raw =
    if is_empty raw
    then err empty
    else if ltb max_packet_body_len (length raw)
    then err (too_long (length raw))
    else elim (first_control raw) [
      | some byte ↦ err (control_character byte)
      | none ↦ parse_body raw
    ]

unfoldable pub header : Packet → Bytes
header packet = unwrap_or (get_to packet.colon packet.raw) []

unfoldable pub with_path : Packet → Bytes → Bytes
with_path packet new_path =
    packet.source
    ++ gt
      ∷ (packet.destination
          ++ ((if is_empty new_path then [] else comma ∷ new_path) ++ colon_byte ∷ packet.payload))
