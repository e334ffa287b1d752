-- ===== src/Server/Dispatch/Repeats.antt =====
-- A packet that was passed on and comes again within the duplicate window.
use aprsr.Prelude.{
  ℕ, ◌+◌, ◌^◌, ◌≤◌, ◌<◌, List, [], ◌∷◌, ◌++◌, true, false, if-elim, if◌then◌else◌, ok, err, Result,
  All, All-append, ◌≡◌, refl, sym, ap, ◌∙◌, subst, arith, Bool-cases, Option-cases, inl, inr,
}
use aprsr.Bytes.{Bytes, trim_end}
use aprsr.Packet.{Packet, PacketError, parse}
use aprsr.Qconstruct.Code.{QCode}
use aprsr.Qconstruct.Apply.{QReject, QOutcome, apply_client}
use aprsr.Dupecheck.{DupeCheck, Hasher, with_window, digest, check, check_digest}
use aprsr.Dupecheck.Suppress
use aprsr.Geo.{Floats}
use aprsr.Aprs.{ParsedPayload}
use aprsr.Server.Registry.{Channel}
use aprsr.Server.Dispatch.{
  Ingest, Disposition, delivered, duplicate, PositionStore, ServerState, received, count_unverified,
  count_invalid, count_duplicate, count_rejected, record_seen, fan_out, finish, pass_on,
  check_duplicate, parsed_line, process, run, context_of,
}

-- What a submission shows to the duplicate detector.
digest_of : Hasher → ℕ → Result Packet PacketError → List (ℕ × ℕ)
digest_of hasher now (ok packet) = (digest hasher packet, now) ∷ []
digest_of hasher now (err e) = []

sighting : Hasher → Ingest → ℕ → List (ℕ × ℕ)
sighting hasher ingest now =
    if ingest.verified then digest_of hasher now (parse ingest.line) else []

sightings : Hasher → List (Ingest × ℕ) → List (ℕ × ℕ)
sightings hasher [] = []
sightings hasher ((ingest, now) ∷ rest) = sighting hasher ingest now ++ sightings hasher rest

detector-append :
    (s : DupeCheck) (a b : List (ℕ × ℕ))
    → Suppress.run s (a ++ b) ≡ Suppress.run (Suppress.run s a) b
unfolding Suppress.run
detector-append s [] b = refl
detector-append s ((d, t) ∷ a) b = detector-append (check_digest s d t).0 a b

digest_of-bound :
    (hasher : Hasher) (n now : ℕ)
    → now ≤ n
    → (r : Result Packet PacketError) → All (λ (e : ℕ × ℕ). e.1 ≤ n) (digest_of hasher now r)
unfolding digest_of
digest_of-bound hasher n now le (ok packet) = (le, tt)
digest_of-bound hasher n now le (err e) = tt

sightings-bound :
    (hasher : Hasher) (n : ℕ) (subs : List (Ingest × ℕ))
    → All (λ (e : Ingest × ℕ). e.1 ≤ n) subs
    → All (λ (e : ℕ × ℕ). e.1 ≤ n) (sightings hasher subs)
unfolding sightings sighting
sightings-bound hasher n [] a = tt
sightings-bound hasher n ((ingest, now) ∷ rest) (le, a) =
    All-append (λ (e : ℕ × ℕ). e.1 ≤ n) (sighting hasher ingest now) (sightings hasher rest)
      (if-elim (All (λ (e : ℕ × ℕ). e.1 ≤ n)) ingest.verified _ _
        (λ _. digest_of-bound hasher n now le (parse ingest.line)) (λ _. tt))
      (sightings-bound hasher n rest a)

module _ (floats : Floats) (channel : Channel) (positions : PositionStore floats.f64)
    (hasher : Hasher) (parse_payload : Packet → ParsedPayload floats.f64) where
  abbrev State : Type 0
  State = ServerState floats channel positions hasher parse_payload

  finish-dupecheck :
      (ingest : Ingest) (outcome : QOutcome) (line : Bytes) (now : ℕ) (s : State)
      (r : Result Packet PacketError)
      → (finish floats channel positions hasher parse_payload ingest outcome line now s
          r).0.dupecheck
        ≡ s.dupecheck
  unfolding finish count_invalid fan_out record_seen
  finish-dupecheck ingest outcome line now s (err e) = refl
  finish-dupecheck ingest outcome line now s (ok final) =
      elim (Option-cases (parse_payload final).position) [
        | inl n ↦ ground (arith, n)
        | inr (q, e) ↦ ground (arith, e)
      ]

  pass_on-dupecheck :
      (ingest : Ingest) (packet : Packet) (now : ℕ) (s : State) (r : Result QOutcome QReject)
      → (pass_on floats channel positions hasher parse_payload ingest packet now s r).0.dupecheck
        ≡ s.dupecheck
  unfolding pass_on count_rejected
  pass_on-dupecheck ingest packet now s (err e) = refl
  pass_on-dupecheck ingest packet now s (ok outcome) = finish-dupecheck ingest outcome _ now s _

  parsed-dupecheck :
      (ingest : Ingest) (now : ℕ) (s : State) (r : Result Packet PacketError)
      → (parsed_line floats channel positions hasher parse_payload ingest now s r).0.dupecheck
        ≡ Suppress.run s.dupecheck (digest_of hasher now r)
  unfolding parsed_line check_duplicate count_duplicate count_invalid digest_of Suppress.run check
  parsed-dupecheck ingest now s (err e) = refl
  parsed-dupecheck ingest now s (ok packet) =
      let checked : State = record s { dupecheck = (check hasher s.dupecheck packet now).0 } in
      if-elim (λ (r : State × Disposition). r.0.dupecheck ≡ checked.dupecheck)
        (check hasher s.dupecheck packet now).1
        (count_duplicate floats channel positions hasher parse_payload checked, duplicate)
        (pass_on floats channel positions hasher parse_payload ingest packet now checked (
          apply_client packet
            (context_of floats channel positions hasher parse_payload ingest checked)))
        (λ _. refl)
        (λ _. pass_on-dupecheck ingest packet now checked (
          apply_client packet
            (context_of floats channel positions hasher parse_payload ingest checked)))

  process-dupecheck :
      (ingest : Ingest) (now : ℕ) (s : State)
      → (process floats channel positions hasher parse_payload ingest now s).0.dupecheck
        ≡ Suppress.run s.dupecheck (sighting hasher ingest now)
  unfolding process received count_unverified sighting Suppress.run
  process-dupecheck ingest now s =
      let p =
        parsed-dupecheck ingest now
          (received floats channel positions hasher parse_payload ingest s) (parse ingest.line) in
      elim (Bool-cases ingest.verified) [ inl v ↦ ground (arith, v, p) | inr v ↦ ground (arith, v) ]

  run-dupecheck :
      (subs : List (Ingest × ℕ)) (s : State)
      → (run floats channel positions hasher parse_payload subs s).0.dupecheck
        ≡ Suppress.run s.dupecheck (sightings hasher subs)
  unfolding run sightings Suppress.run
  run-dupecheck [] s = refl
  run-dupecheck ((ingest, now) ∷ rest) s =
      run-dupecheck rest (process floats channel positions hasher parse_payload ingest now s).0
      ∙ ap (λ d. Suppress.run d (sightings hasher rest)) (process-dupecheck ingest now s)
      ∙ sym (detector-append s.dupecheck (sighting hasher ingest now) (sightings hasher rest))

  -- What a delivered packet has passed.
  delivered-fresh :
      (ingest : Ingest) (now : ℕ) (s : State) (p : Packet) (line : Bytes) (code : QCode)
      → parse ingest.line ≡ ok p
      → (process floats channel positions hasher parse_payload ingest now s).1 ≡ delivered line code
      → (ingest.verified ≡ true) × ((check hasher s.dupecheck p now).1 ≡ false)
  unfolding process parsed_line check_duplicate received
  delivered-fresh ingest now s p line code e d = (ground arith, ground arith)

  repeat-duplicate :
      (ingest : Ingest) (now : ℕ) (s : State) (p : Packet)
      → ingest.verified ≡ true
      → parse ingest.line ≡ ok p
      → (check hasher s.dupecheck p now).1 ≡ true
      → (process floats channel positions hasher parse_payload ingest now s).1 ≡ duplicate
  unfolding process parsed_line check_duplicate received
  repeat-duplicate ingest now s p v e d = ground arith

  -- The detector behind a delivered packet.
  delivered-dupecheck :
      (ingest : Ingest) (now : ℕ) (s : State) (p : Packet)
      → ingest.verified ≡ true
      → parse ingest.line ≡ ok p
      → (process floats channel positions hasher parse_payload ingest now s).0.dupecheck
        ≡ (check hasher s.dupecheck p now).0
  unfolding sighting digest_of Suppress.run check
  delivered-dupecheck ingest now s p v e =
      let h = process-dupecheck ingest now s in ground (arith, h, v, e)

  -- From a fresh detector with a window of `w` seconds: after a packet is delivered, a verified
  -- submission of the same source, destination and payload (up to trailing white space), by any
  -- path, is dropped as a duplicate until the window's end, whatever is submitted before and in
  -- between, in whatever order the clock's readings come.
  pub process-repeat :
      (w t t' : ℕ) (before between : List (Ingest × ℕ)) (first again : Ingest) (p copy : Packet)
      (s : State) (line : Bytes) (code : QCode)
      → s.dupecheck ≡ with_window w
      → 0 < w
      → w + 1 < 2 ^ 64
      → parse first.line ≡ ok p
      → parse again.line ≡ ok copy
      → copy.source ≡ p.source
      → copy.destination ≡ p.destination
      → trim_end copy.payload ≡ trim_end p.payload
      → again.verified ≡ true
      → (process floats channel positions hasher parse_payload first t
          (run floats channel positions hasher parse_payload before s).0).1
        ≡ delivered line code
      → All
          (λ (e : Ingest × ℕ).
            e.1
            ≤ (process floats channel positions hasher parse_payload first t
                (run floats channel positions hasher parse_payload before s).0).0.dupecheck.now
              + w)
          between
      → t'
        ≤ (process floats channel positions hasher parse_payload first t
            (run floats channel positions hasher parse_payload before s).0).0.dupecheck.now
          + w
      → (process floats channel positions hasher parse_payload again t'
          (run floats channel positions hasher parse_payload between
            (process floats channel positions hasher parse_payload first t
              (run floats channel positions hasher parse_payload before s).0).0).0).1
        ≡ duplicate
  process-repeat w t t' before between first again p copy s line code fresh_window pos fits e e' es
        ed ep v d soon within =
      let s1 = (run floats channel positions hasher parse_payload before s).0 in
      let s2 = (process floats channel positions hasher parse_payload first t s1).0 in
      let s3 = (run floats channel positions hasher parse_payload between s2).0 in
      let start : s1.dupecheck ≡ Suppress.run (with_window w) (sightings hasher before) =
        run-dupecheck before s ∙ ap (λ c. Suppress.run c (sightings hasher before)) fresh_window in
      let (sent, passed) = delivered-fresh first t s1 p line code e d in
      let mid : s2.dupecheck
          ≡ (check hasher (Suppress.run (with_window w) (sightings hasher before)) p t).0 =
        delivered-dupecheck first t s1 p sent e ∙ ap (λ c. (check hasher c p t).0) start in
      let last : s3.dupecheck ≡ Suppress.run s2.dupecheck (sightings hasher between) =
        run-dupecheck between s2 in
      let suppressed =
        Suppress.check-suppressed hasher w t t' (sightings hasher before) (sightings hasher between)
          p copy pos fits es ed ep (ap (λ c. (check hasher c p t).1) (sym start) ∙ passed)
          (subst (λ c. All (λ (e : ℕ × ℕ). e.1 ≤ c.now + w) (sightings hasher between)) mid
            (sightings-bound hasher (s2.dupecheck.now + w) between soon))
          (subst (λ c. t' ≤ c.now + w) mid within) in
      repeat-duplicate again t' s3 copy v e' (
        ap (λ c. (check hasher c copy t').1)
          (last ∙ ap (λ c. Suppress.run c (sightings hasher between)) mid)
        ∙ suppressed)
