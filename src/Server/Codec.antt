-- ===== src/Server/Codec.antt =====
-- The line framing of a connection (crates/aprsr-server/src/codec.rs). The loop of `decode` is on
-- fuel: a round that does not return takes a byte from the buffer, so one more round than the buffer
-- has bytes is enough (Codec/Decode). `drain` is the reader's loop, which calls `decode` until it
-- wants more bytes.
pub mod Framing
pub mod Window
pub mod Expected
pub mod Decode
pub mod Stream
pub mod Close
use mathlib.Core.Option
use aprsr.Prelude.{
  ℕ, zero, suc, ◌+◌, ◌-◌, ◌^◌, min, List, [], ◌∷◌, ◌++◌, Option, none, some, Bool, true, false,
  ◌&&◌, ltb, leb, ◌==◌, if◌then◌else◌, length, take, drop, is_empty,
}
use aprsr.Bytes.{Bytes, find, is_utf8, strip_suffix}
use aprsr.Packet.{max_packet_len}

pub data Line : Type 0 where
  text : Bytes → Line
  oversized not_utf8 : Line

pub record LineCodec : Type 0 where
  pub max_length : ℕ
  pub discarding : Bool
  pub next_index : ℕ

unfoldable pub with_max_length : ℕ → LineCodec
with_max_length n = record { max_length = n; discarding = false; next_index = 0 }

unfoldable pub new : LineCodec
new = with_max_length max_packet_len

unfoldable pub decode_line : Bytes → Line
decode_line bytes = if is_utf8 bytes then text bytes else not_utf8

unfoldable pub strip_carriage_return : Bytes → Bytes
strip_carriage_return bytes = elim (strip_suffix 0x0d bytes) [ some head ↦ head | none ↦ bytes ]

abbrev pub newline : ℕ
newline = 0x0a

-- `cmp::min(self.max_length.saturating_add(1), buf.len())`
unfoldable pub read_to : LineCodec → Bytes → ℕ
read_to codec buf = min (min (codec.max_length + 1) (2 ^ 64 - 1)) (length buf)

-- The place of a newline in the window `next_index..read_to`, which is empty where its ends cross.
unfoldable pub newline_in : LineCodec → Bytes → Option ℕ
newline_in codec buf =
    if leb codec.next_index (read_to codec buf)
    then find newline (drop codec.next_index (take (read_to codec buf) buf))
    else none

-- `decode`, which never fails: the codec and the buffer behind it, and the item that it returns.
unfoldable pub decode : ℕ → LineCodec → Bytes → Option (LineCodec × Bytes × Option Line)
decode zero codec buf = none
decode (suc fuel) codec buf = elim codec.discarding [
  | true ↦ elim (newline_in codec buf) [
    | some offset ↦
        decode fuel (record codec { discarding = false; next_index = 0 })
          (drop (offset + codec.next_index + 1) buf)
    | none ↦ elim (is_empty (drop (read_to codec buf) buf)) [
      | true ↦ some (record codec { next_index = 0 }, drop (read_to codec buf) buf, none)
      | false ↦ decode fuel (record codec { next_index = 0 }) (drop (read_to codec buf) buf)
    ]
  ]
  | false ↦ elim (newline_in codec buf) [
    | some offset ↦ some (
      record codec { next_index = 0 },
      drop (offset + codec.next_index + 1) buf,
      some (decode_line (strip_carriage_return (take (offset + codec.next_index) buf))),
    )
    | none ↦
        if ltb codec.max_length (length buf)
        then some (record codec { discarding = true }, buf, some oversized)
        else some (record codec { next_index = length buf }, buf, none)
  ]
]

-- `decode_eof`, for what `decode` leaves behind.
unfoldable pub flush : LineCodec × Bytes × Option Line → LineCodec × Bytes × Option Line
flush (codec, buf, some line) = (codec, buf, some line)
flush (codec, [], none) = (codec, [], none)
flush (codec, b ∷ buf, none) =
    (record codec { next_index = 0 }, [], some (decode_line (strip_carriage_return (b ∷ buf))))

unfoldable pub decode_eof : ℕ → LineCodec → Bytes → Option (LineCodec × Bytes × Option Line)
decode_eof fuel codec buf = Option.map flush (decode fuel codec buf)

-- The lines that a reader takes from the buffer: `fuel` bounds the number of calls.
unfoldable pub drain : ℕ → LineCodec → Bytes → Option (LineCodec × Bytes × List Line)
drain zero codec buf = none
drain (suc fuel) codec buf = elim (decode (length buf + 1) codec buf) [
  | none ↦ none
  | some (codec', buf', item) ↦ elim item [
    | none ↦ some (codec', buf', [])
    | some line ↦ elim (drain fuel codec' buf') [
      | none ↦ none
      | some (codec'', buf'', lines) ↦ some (codec'', buf'', line ∷ lines)
    ]
  ]
]
