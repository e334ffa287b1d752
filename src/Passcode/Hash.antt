-- ===== src/Passcode/Hash.antt =====
-- The passcode is a 15-bit number that depends only on the base callsign, whatever its case.
use Prim.Native.Nat.{zero, suc, min, bit_and, digits, bit_and-bitwise}
use aprsr.Prelude.{
  ℕ, ◌/◌, ◌^◌, ◌≤◌, ◌<◌, [], ◌∷◌, ◌++◌, List, ◌==◌, map, ◌≡◌, ◌∙◌, sym, refl, ap, arith,
}
use aprsr.Bytes.{
  Bytes, to_ascii_uppercase, to_ascii_lowercase, SameIgnoringCase, Lacks, split, split-Lacks,
  split-Lacks_append,
}
use aprsr.Passcode.{generate, hash_loop, first_part, first_or, seed, mask}

and_digits-le : (n a b : ℕ) → digits (λ b. zero) min n a b ≤ b
and_digits-le zero zero b = omega arith
and_digits-le zero (suc a) b = omega arith
and_digits-le (suc n) zero b = omega arith
and_digits-le (suc n) (suc a) b = omega (arith, and_digits-le n (suc a / 2) (b / 2))

bit_and-le : (a b : ℕ) → bit_and a b ≤ b
bit_and-le a b = omega (arith, bit_and-bitwise a b, and_digits-le a a b)

-- A passcode fits in fifteen bits.
pub generate-lt : (callsign : Bytes) → generate callsign < 2 ^ 15
unfolding generate
generate-lt callsign = omega (arith, bit_and-le (hash_loop seed (first_part callsign)) mask)

first_part-append : (b s : Bytes) → Lacks b'-' b → first_part (b ++ b'-' ∷ s) ≡ b
unfolding first_part
first_part-append b s h = rw (split-Lacks_append b'-' b s h)

first_part-Lacks : (b : Bytes) → Lacks b'-' b → first_part b ≡ b
unfolding first_part
first_part-Lacks b h = rw (split-Lacks b'-' b h)

-- The SSID is not part of the hash: a callsign has the passcode of its base.
pub generate-ssid :
    (base ssid : Bytes) → Lacks b'-' base → generate (base ++ b'-' ∷ ssid) ≡ generate base
unfolding generate
generate-ssid base ssid h = rw (first_part-append base ssid h, first_part-Lacks base h)

upper-lower : (c : ℕ) → to_ascii_uppercase (to_ascii_lowercase c) ≡ to_ascii_uppercase c
upper-lower c = ground arith

hash_loop-lower : (s : Bytes) (h : ℕ) → hash_loop h (map to_ascii_lowercase s) ≡ hash_loop h s
unfolding hash_loop
hash_loop-lower [] h = refl
hash_loop-lower (a ∷ []) h = rw upper-lower
hash_loop-lower (a ∷ b ∷ s) h = rw (upper-lower a, upper-lower b) (hash_loop-lower s _)

dash-lower : (c : ℕ) → (to_ascii_lowercase c == b'-') ≡ (c == b'-')
dash-lower c = ground arith

split-lower :
    (s : Bytes)
    → split b'-' (map to_ascii_lowercase s) ≡ map (map to_ascii_lowercase) (split b'-' s)
unfolding split
split-lower [] = refl
split-lower (c ∷ s) = ground (arith, split-lower s)

first_or-map :
    (f : Bytes → Bytes) (s : Bytes) (ps : List Bytes)
    → first_or (f s) (map f ps) ≡ f (first_or s ps)
first_or-map f s [] = refl
first_or-map f s (p ∷ ps) = refl

first_part-lower :
    (s : Bytes) → first_part (map to_ascii_lowercase s) ≡ map to_ascii_lowercase (first_part s)
unfolding first_part
first_part-lower s = rw (split-lower s) (first_or-map (map to_ascii_lowercase) s (split b'-' s))

generate-lower : (s : Bytes) → generate (map to_ascii_lowercase s) ≡ generate s
unfolding generate
generate-lower s = rw (first_part-lower s, hash_loop-lower (first_part s) seed)

-- Case is not part of the hash: callsigns that differ in ASCII case only share a passcode.
pub generate-case : (s t : Bytes) → SameIgnoringCase s t → generate s ≡ generate t
generate-case s t h = sym (generate-lower s) ∙ ap generate h ∙ generate-lower t
