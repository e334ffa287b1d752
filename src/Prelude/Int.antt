-- ===== src/Prelude/Int.antt =====
-- Signed integers: `negsuc n` is -(n + 1).
use Prim.Native.Nat.{ℕ, suc, ◌+◌, ◌-◌}
use mathlib.Core.Bool.{Bool, true, false, ◌&&◌}
use aprsr.Prelude.Tests.{ltb, leb, if◌then◌else◌}

pub data ℤ : Type 0 where
  pos : ℕ → ℤ
  negsuc : ℕ → ℤ

-- a - b, as an integer.
abbrev pub sub_ℕ : ℕ → ℕ → ℤ
sub_ℕ a b = if leb b a then pos (a - b) else negsuc (b - a - 1)

infixl 65 ◌+ℤ◌ ◌-ℤ◌
-- An integer, and a natural number that is added to it or taken from it.
abbrev pub ◌+ℤ◌ : ℤ → ℕ → ℤ
pos m +ℤ n = pos (m + n)
negsuc m +ℤ n = sub_ℕ n (suc m)

abbrev pub ◌-ℤ◌ : ℤ → ℕ → ℤ
pos m -ℤ n = sub_ℕ m n
negsuc m -ℤ n = negsuc (m + n)

-- `(low..=high).contains(&value)` between bounds that are not negative.
abbrev pub between : ℕ → ℕ → ℤ → Bool
between low high (pos n) = leb low n && leb n high
between low high (negsuc n) = false

-- `<` on integers.
abbrev pub less : ℤ → ℤ → Bool
less (pos m) (pos n) = ltb m n
less (pos m) (negsuc n) = false
less (negsuc m) (pos n) = true
less (negsuc m) (negsuc n) = ltb n m
