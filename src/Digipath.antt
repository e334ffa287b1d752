-- ===== src/Digipath.antt =====
-- The digipeater path: its hops, the `,I` construct and repeated callsigns
-- (crates/aprsr-core/src/path.rs).
pub mod Hops
pub mod Calls
pub mod Cut
pub mod Order
pub mod Duplicates
use Prim.Native.Nat.{min}
use mathlib.Core.Option
use aprsr.Prelude.{
  ℕ, zero, suc, ◌+◌, ◌-◌, List, [], ◌∷◌, ◌++◌, Option, none, some, Bool, true, false, not, ◌&&◌,
  ◌||◌, ltb, leb, if◌then◌else◌, length, is_empty, any, keep, map,
}
use aprsr.Bytes.{
  Bytes, codes, find, get_to, get_from, unwrap_or, strip_suffix, eq_ignore_ascii_case, str_eq,
  to_ascii_uppercase,
}
use aprsr.Passcode.{first_part}

abbrev pub comma : ℕ
comma = b','

pub record Hop : Type 0 where
  pub call : Bytes
  pub used : Bool
  pub offset : ℕ

-- The `Path` of the source.
pub record Digipath : Type 0 where
  pub raw : Bytes

abbrev pub new : Bytes → Digipath
new raw = record { raw = raw }

-- A field between commas as a hop: a trailing star is the used flag.
unfoldable pub hop_of : Bytes → ℕ → Hop
hop_of field start = elim (strip_suffix b'*' field) [
  | some stripped ↦ record { call = stripped; used = true; offset = start }
  | none ↦ record { call = field; used = false; offset = start }
]

-- One call of the iterator's closure: the hop and the offset that it leaves behind.
unfoldable pub next_field : Bytes → Bytes → ℕ → Option (Hop × ℕ)
next_field raw rest offset =
    if is_empty rest && ltb 0 offset then none else elim (find comma rest) [
      | some i ↦ Option.map (λ field. (hop_of field offset, offset + i + 1)) (get_to i rest)
      | none ↦ some (hop_of rest offset, length raw + 1)
    ]

unfoldable pub next_hop : Bytes → ℕ → Option (Hop × ℕ)
next_hop raw offset =
    if ltb (length raw) offset
    then none
    else elim (get_from offset raw) [ some rest ↦ next_field raw rest offset | none ↦ none ]

unfoldable pub iterate : ℕ → Bytes → ℕ → List Hop
iterate zero raw offset = []
iterate (suc fuel) raw offset = elim (next_hop raw offset) [
  | some (hop, next) ↦ hop ∷ iterate fuel raw next
  | none ↦ []
]

abbrev pub is_named : Hop → Bool
is_named hop = not (is_empty hop.call)

-- Each round goes past one byte at least, so the length and two more rounds are enough.
unfoldable pub hops : Digipath → List Hop
hops path = keep is_named (iterate (length path.raw + 2) path.raw 0)

unfoldable pub len : Digipath → ℕ
len path = length (hops path)

unfoldable pub contains : Digipath → Bytes → Bool
contains path call = any (λ hop. eq_ignore_ascii_case hop.call call) (hops path)

unfoldable pub has_tcpip : Digipath → Bool
has_tcpip path =
    any
      (λ hop.
        eq_ignore_ascii_case hop.call (codes "TCPIP")
        || eq_ignore_ascii_case hop.call (codes "TCPXX"))
      (hops path)

-- The loop that keeps the last two hops.
unfoldable pub last_two : Option Hop → Option Hop → List Hop → Option Hop × Option Hop
last_two previous last [] = (previous, last)
last_two previous last (hop ∷ rest) = last_two last (some hop) rest

unfoldable pub named_call : Hop → Option Bytes
named_call igate = if not (is_empty igate.call) then some igate.call else none

unfoldable pub i_construct_of : Option Hop × Option Hop → Option Bytes
i_construct_of (previous, none) = none
i_construct_of (previous, some last) =
    if not (eq_ignore_ascii_case last.call (codes "I"))
    then none
    else Option.bind previous named_call

unfoldable pub i_construct : Digipath → Option Bytes
i_construct path = i_construct_of (last_two none none (hops path))

unfoldable pub truncated_to : Digipath → ℕ → Bytes
truncated_to path byte_offset =
    unwrap_or (get_to (min (byte_offset - 1) (length path.raw)) path.raw) []

abbrev is_ascii_digit : ℕ → Bool
is_ascii_digit c = leb b'0' c && leb c b'9'

-- `trim_end_matches(|c| c.is_ascii_digit())`
unfoldable pub trim_digits : Bytes → Bytes
trim_digits [] = []
trim_digits (c ∷ s) =
    let rest = trim_digits s in if is_empty rest && is_ascii_digit c then [] else c ∷ rest

abbrev pub aliases : List Bytes
aliases = codes "RELAY" ∷ codes "ECHO" ∷ codes "GATE" ∷ codes "TCPIP" ∷ codes "TCPXX" ∷ []

abbrev pub numbered : List Bytes
numbered = codes "WIDE" ∷ codes "TRACE" ∷ codes "SS" ∷ codes "SAR" ∷ []

unfoldable pub is_generic_alias : Bytes → Bool
is_generic_alias call =
    if any (eq_ignore_ascii_case call) aliases
    then true
    else let base = first_part call in
      let stripped = trim_digits base in
      any (str_eq (map to_ascii_uppercase stripped)) numbered && ltb (length stripped) (length base)

-- The loop of `first_duplicate`, with the hops before the current one.
unfoldable pub duplicate_after : List Hop → List Hop → Option Bytes
duplicate_after earlier [] = none
duplicate_after earlier (hop ∷ rest) =
    let later = duplicate_after (earlier ++ hop ∷ []) rest in
    if any (λ prev. eq_ignore_ascii_case prev.call hop.call) earlier then some hop.call else later

unfoldable pub first_duplicate : Digipath → Option Bytes
first_duplicate path =
    duplicate_after [] (keep (λ hop. not (is_generic_alias hop.call)) (hops path))
