-- ===== src/Passcode/Verify.antt =====
-- Verification answers for exactly one number, and for -1.
use aprsr.Prelude.{◌≡◌, ◌↔◌, arith}
use aprsr.Prelude.Int.{ℤ, pos, negsuc}
use aprsr.Bytes.{Bytes}
use aprsr.Passcode.{verified, receive_only_login, receive_only, generate, verify}
use aprsr.Passcode.Hash.{generate-lt}

verified_iff : (c : Bytes) (p : ℤ) → (verify c p ≡ verified) ↔ (p ≡ pos (generate c))
unfolding verify
verified_iff c (pos n) = (λ h. ground arith, λ h. ground (arith, generate-lt c))
verified_iff c (negsuc n) = (λ h. ground arith, λ h. ground arith)

receive_only_iff : (c : Bytes) (p : ℤ) → (verify c p ≡ receive_only_login) ↔ (p ≡ receive_only)
unfolding verify
receive_only_iff c (pos n) = (λ h. ground arith, λ h. ground arith)
receive_only_iff c (negsuc n) = (λ h. ground arith, λ h. ground arith)

-- `verify` answers `Verified` for the generated passcode of the callsign and for no other number,
-- and `ReceiveOnly` for -1 and no other number.
pub verify_exact :
    (callsign : Bytes) (presented : ℤ)
    → ((verify callsign presented ≡ verified) ↔ (presented ≡ pos (generate callsign)))
      × ((verify callsign presented ≡ receive_only_login) ↔ (presented ≡ receive_only))
verify_exact c p = (verified_iff c p, receive_only_iff c p)
