-- ===== src/Aprs.antt =====
-- What the filters know of an information field (the types of crates/aprsr-core/src/aprs/mod.rs).
pub mod Symbols
pub mod Encodings
pub mod Payload
use Prim.Native.Nat.{bit_and, bit_or}
use aprsr.Prelude.{ℕ, Option, none, some, Bool, not, ◌==◌, if◌then◌else◌}
use aprsr.Bytes.{Bytes}
use aprsr.Aprs.Symbols.{Symbol}
use aprsr.Geo.{Position}

-- The 16 bits of a `PacketType`.
abbrev pub PacketType : Type 0
PacketType = ℕ

abbrev pub types_none : PacketType
types_none = 0

abbrev pub position_type : PacketType
position_type = 1

unfoldable pub from_filter_letter : ℕ → Option PacketType
from_filter_letter letter =
    if letter == b'p'
    then some position_type
    else if letter == b'o'
    then some 2
    else if letter == b'i'
    then some 4
    else if letter == b'm'
    then some 8
    else if letter == b'q'
    then some 16
    else if letter == b's'
    then some 32
    else if letter == b't'
    then some 64
    else if letter == b'u'
    then some 128
    else if letter == b'n'
    then some 256
    else if letter == b'w'
    then some 512
    else none

unfoldable pub union : PacketType → PacketType → PacketType
union a b = bit_or a b

unfoldable pub contains : PacketType → PacketType → Bool
contains a b = bit_and a b == b

unfoldable pub intersects : PacketType → PacketType → Bool
intersects a b = not (bit_and a b == 0)

pub record ParsedPayload (f64 : Type 0) : Type 0 where
  pub types : PacketType
  pub position : Option (Position f64)
  pub symbol : Option Symbol
  pub object_name : Option Bytes
  pub addressee : Option Bytes
