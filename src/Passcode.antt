-- ===== src/Passcode.antt =====
-- The passcode hash and its verification (crates/aprsr-core/src/passcode.rs).
pub mod Hash
pub mod Verify
use Prim.Native.Nat.{bit_and, bit_xor}
use aprsr.Prelude.{
  ℕ, ◌*◌, List, ◌%◌, ◌^◌, [], ◌∷◌, Bool, true, false, ◌==◌, if◌then◌else◌, ltb, Option, none, some,
}
use aprsr.Prelude.Int.{ℤ, pos, negsuc}
use aprsr.Bytes.{Bytes, to_ascii_uppercase, split}

-- `RECEIVE_ONLY` is -1.
abbrev pub receive_only : ℤ
receive_only = negsuc 0

abbrev pub seed : ℕ
seed = 0x73e2

abbrev pub mask : ℕ
mask = 0x7fff

pub data Verification : Type 0 where
  verified receive_only_login invalid : Verification

unfoldable pub may_transmit : Verification → Bool
may_transmit verified = true
may_transmit _ = false

abbrev pub first_or : Bytes → List Bytes → Bytes
first_or s [] = s
first_or s (p ∷ _) = p

-- `callsign.split('-').next()`
unfoldable pub first_part : Bytes → Bytes
first_part s = first_or s (split b'-' s)

-- The loop of `generate`, two bytes to a round; `<< 8` keeps the 16 bits of a `u16`.
unfoldable pub hash_loop : ℕ → Bytes → ℕ
hash_loop hash [] = hash
hash_loop hash (high ∷ []) = bit_xor hash (to_ascii_uppercase high * 256 % 2 ^ 16)
hash_loop hash (high ∷ low ∷ rest) =
    hash_loop
      (bit_xor (bit_xor hash (to_ascii_uppercase high * 256 % 2 ^ 16)) (to_ascii_uppercase low))
      rest

unfoldable pub generate : Bytes → ℕ
generate callsign = bit_and (hash_loop seed (first_part callsign)) mask

-- `u16::try_from` of an `i32`.
abbrev pub u16_of : ℤ → Option ℕ
u16_of (pos n) = if ltb n (2 ^ 16) then some n else none
u16_of (negsuc n) = none

abbrev pub is_receive_only : ℤ → Bool
is_receive_only (pos n) = false
is_receive_only (negsuc n) = n == 0

unfoldable pub verify : Bytes → ℤ → Verification
verify callsign presented =
    if is_receive_only presented then receive_only_login else elim (u16_of presented) [
      | some code ↦ if code == generate callsign then verified else invalid
      | none ↦ invalid
    ]
