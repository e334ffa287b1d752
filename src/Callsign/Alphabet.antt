-- ===== src/Callsign/Alphabet.antt =====
-- The bytes that occur in a callsign.
use aprsr.Prelude.{
  ℕ, is_empty, refl, [], ◌∷◌, true, false, ◌||◌, ◌==◌, All, All-append, All-imp, ◌≡◌, ◌≢◌, arith,
  subst, sym, ok, >>=-eq-ok,
}
use aprsr.Bytes.{Bytes, Lacks}
use aprsr.Callsign.{is_callsign_byte, separator_byte, validate, validate_for_packet}
use aprsr.Callsign.Grammar.{
  IsCallsign, bare, with_ssid, Plain, IsCallsign-validate, validate-IsCallsign,
}

abbrev pub InAlphabet : ℕ → Type 0
InAlphabet c = (is_callsign_byte c || c == separator_byte) ≡ true

Plain-alphabet : (s : Bytes) → Plain s → All InAlphabet s
Plain-alphabet s h = All-imp (λ c. is_callsign_byte c ≡ true) InAlphabet (λ c e. ground arith) s h

pub IsCallsign-alphabet : (s : Bytes) → IsCallsign s → All InAlphabet s
IsCallsign-alphabet s (bare _ _ h) = Plain-alphabet s h
IsCallsign-alphabet s (with_ssid b x e _ hb _ _ hx _) = subst (All InAlphabet) (sym e) (
    All-append InAlphabet b (separator_byte ∷ x) (Plain-alphabet b hb)
      (ground arith, Plain-alphabet x hx))

-- A callsign has no byte from outside the alphabet.
pub IsCallsign-Lacks :
    (s : Bytes) (b : ℕ)
    → IsCallsign s
    → (is_callsign_byte b || b == separator_byte) ≡ false
    → Lacks b s
IsCallsign-Lacks s b h out =
    All-imp InAlphabet (λ c. c ≢ b)
      (λ c e same. let e' : InAlphabet b = subst InAlphabet same e in cc (e', out)) s
      (IsCallsign-alphabet s h)

pub validate_for_packet-IsCallsign : (s : Bytes) → IsCallsign s → validate_for_packet s ≡ ok tt
unfolding validate_for_packet
validate_for_packet-IsCallsign s h = let (sep, e) = IsCallsign-validate s h in rw e

pub IsCallsign-of_valid : (s : Bytes) → validate_for_packet s ≡ ok tt → IsCallsign s
unfolding validate_for_packet
IsCallsign-of_valid s h =
    let (sep, v, _) = >>=-eq-ok (validate s) (λ _. ok tt) h in validate-IsCallsign s sep v

pub IsCallsign-is_empty : (s : Bytes) → IsCallsign s → is_empty s ≡ false
IsCallsign-is_empty [] (bare pos _ _) = absurd (omega arith)
IsCallsign-is_empty [] (with_ssid [] x e pos _ _ _ _ _) = absurd (omega arith)
IsCallsign-is_empty [] (with_ssid (c ∷ b) x e pos _ _ _ _ _) = cc
IsCallsign-is_empty (c ∷ s) h = refl
