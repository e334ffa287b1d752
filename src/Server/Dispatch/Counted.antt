-- ===== src/Server/Dispatch/Counted.antt =====
-- The counters that one submission moves (`process` of crates/aprsr-server/src/dispatch.rs).
use aprsr.Prelude.{
  ℕ, ◌+◌, List, [], ◌∷◌, Option, none, some, Bool, true, false, not, length, if-elim, ok, err,
  Result, ◌≡◌, refl, ◌∙◌, subst, arith, Option-cases, inl, inr,
}
use aprsr.Bytes.{Bytes}
use aprsr.Packet.{Packet, PacketError, parse}
use aprsr.Qconstruct.Code.{QCode}
use aprsr.Qconstruct.Apply.{QReject, QOutcome, apply_client}
use aprsr.Dupecheck.{Hasher, check}
use aprsr.Geo.{Floats, Position}
use aprsr.Aprs.{ParsedPayload}
use aprsr.Server.Metrics.{Metrics, incr}
use aprsr.Server.Registry.{
  Channel, Client, queued, deliver, deliver_all, broadcast, is_origin, accepts,
}
use aprsr.Server.Dispatch.{
  Ingest, Disposition, delivered, unverified, invalid, duplicate, rejected, PositionStore,
  ServerState, received, count_unverified, count_invalid, count_duplicate, count_rejected,
  record_seen, fan_out, pass_on, finish, check_duplicate, parsed_line, process, context_of,
}

abbrev pub is_unverified : Disposition → Bool
is_unverified unverified = true
is_unverified _ = false

abbrev pub is_invalid : Disposition → Bool
is_invalid (invalid e) = true
is_invalid _ = false

abbrev pub is_duplicate : Disposition → Bool
is_duplicate duplicate = true
is_duplicate _ = false

abbrev pub is_rejected : Disposition → Bool
is_rejected (rejected r) = true
is_rejected _ = false

abbrev pub is_delivered : Disposition → Bool
is_delivered (delivered line code) = true
is_delivered _ = false

abbrev pub bump : Bool → ℕ → ℕ
bump true n = incr n
bump false n = n

-- The counters that one submission moves from `m` to `n`.
pub record Counted (m n : Metrics) (d : Disposition) : Type 0 where
  pub unverified_counted : n.packets_unverified ≡ bump (is_unverified d) m.packets_unverified
  pub invalid_counted : n.packets_invalid ≡ bump (is_invalid d) m.packets_invalid
  pub duplicate_counted : n.packets_duplicate ≡ bump (is_duplicate d) m.packets_duplicate
  pub rejected_counted : n.packets_rejected ≡ bump (is_rejected d) m.packets_rejected
  pub received_kept : n.packets_received ≡ m.packets_received

-- The counters that a fan-out leaves alone.
record Kept (m n : Metrics) : Type 0 where
  unverified_kept : n.packets_unverified ≡ m.packets_unverified
  invalid_kept : n.packets_invalid ≡ m.packets_invalid
  duplicate_kept : n.packets_duplicate ≡ m.packets_duplicate
  rejected_kept : n.packets_rejected ≡ m.packets_rejected
  received_kept : n.packets_received ≡ m.packets_received

Kept-refl : (m : Metrics) → Kept m m
Kept-refl m = record {
  unverified_kept = refl;
  invalid_kept = refl;
  duplicate_kept = refl;
  rejected_kept = refl;
  received_kept = refl;
}

Kept-trans : (a b c : Metrics) → Kept a b → Kept b c → Kept a c
Kept-trans a b c k l = record {
  unverified_kept = l.unverified_kept ∙ k.unverified_kept;
  invalid_kept = l.invalid_kept ∙ k.invalid_kept;
  duplicate_kept = l.duplicate_kept ∙ k.duplicate_kept;
  rejected_kept = l.rejected_kept ∙ k.rejected_kept;
  received_kept = l.received_kept ∙ k.received_kept;
}

module _ (floats : Floats) (channel : Channel) where
  queued-Kept :
      (bytes : ℕ) (client : Client floats channel) (m : Metrics) (o : Option channel.sender)
      → Kept m (queued floats channel bytes client m o).1
  unfolding queued
  queued-Kept bytes client m (some outbox) = record {
    unverified_kept = refl;
    invalid_kept = refl;
    duplicate_kept = refl;
    rejected_kept = refl;
    received_kept = refl;
  }
  queued-Kept bytes client m none = record {
    unverified_kept = refl;
    invalid_kept = refl;
    duplicate_kept = refl;
    rejected_kept = refl;
    received_kept = refl;
  }

  module _ (packet : Packet) (parsed : ParsedPayload floats.f64)
      (positions : Bytes → Option (Position floats.f64)) where
    deliver-Kept :
        (line : Bytes) (origin : Option ℕ) (client : Client floats channel) (m : Metrics)
        → Kept m (deliver floats channel packet parsed positions line origin client m).1
    unfolding deliver
    deliver-Kept line origin client m =
        if-elim (λ (r : Client floats channel × Metrics). Kept m r.1)
          (is_origin floats channel packet parsed positions origin client) _ _ (λ _. Kept-refl m)
          (λ _.
            if-elim (λ (r : Client floats channel × Metrics). Kept m r.1)
              (not (accepts floats channel packet parsed positions client)) _ _ (λ _. Kept-refl m)
              (λ _. queued-Kept (length line + 2) client m (channel.try_send client.outbox line)))

    deliver_all-Kept :
        (line : Bytes) (origin : Option ℕ) (clients : List (Client floats channel)) (m : Metrics)
        → Kept m (deliver_all floats channel packet parsed positions line origin clients m).1
    unfolding deliver_all
    deliver_all-Kept line origin [] m = Kept-refl m
    deliver_all-Kept line origin (c ∷ cs) m =
        let n = (deliver floats channel packet parsed positions line origin c m).1 in
        Kept-trans m n (deliver_all floats channel packet parsed positions line origin cs n).1
          (deliver-Kept line origin c m) (deliver_all-Kept line origin cs n)

  module _ (positions : PositionStore floats.f64) (hasher : Hasher)
      (parse_payload : Packet → ParsedPayload floats.f64) where
    abbrev State : Type 0
    State = ServerState floats channel positions hasher parse_payload

    abbrev CountedBy : State → State × Disposition → Type 0
    CountedBy s r = Counted s.metrics r.0.metrics r.1

    Kept-delivered :
        (m n : Metrics) (line : Bytes) (code : QCode) → Kept m n → Counted m n (delivered line code)
    Kept-delivered m n line code k = record {
      unverified_counted = k.unverified_kept;
      invalid_counted = k.invalid_kept;
      duplicate_counted = k.duplicate_kept;
      rejected_counted = k.rejected_kept;
      received_kept = k.received_kept;
    }

    record_seen-metrics :
        (packet : Packet) (parsed : ParsedPayload floats.f64) (now : ℕ) (s : State)
        → (record_seen floats channel positions hasher parse_payload packet parsed now s).metrics
          ≡ s.metrics
    unfolding record_seen
    record_seen-metrics packet parsed now s = elim (Option-cases parsed.position) [
      | inl n ↦ ground (arith, n)
      | inr (q, e) ↦ ground (arith, e)
    ]

    finish-Counted :
        (ingest : Ingest) (outcome : QOutcome) (line : Bytes) (now : ℕ) (s : State)
        (r : Result Packet PacketError)
        → CountedBy s
            (finish floats channel positions hasher parse_payload ingest outcome line now s r)
    unfolding finish count_invalid fan_out broadcast
    finish-Counted ingest outcome line now s (err e) = record {
      unverified_counted = refl;
      invalid_counted = refl;
      duplicate_counted = refl;
      rejected_counted = refl;
      received_kept = refl;
    }
    finish-Counted ingest outcome line now s (ok final) =
        let seen =
          record_seen floats channel positions hasher parse_payload final (parse_payload final) now
            s in
        let n =
          (deliver_all floats channel final (parse_payload final) (positions.position_of seen.known)
            line ingest.origin seen.registry.clients seen.metrics).1 in
        Kept-delivered s.metrics n line outcome.code (
          subst (λ m. Kept m n) (record_seen-metrics final (parse_payload final) now s)
            (deliver_all-Kept final (parse_payload final) (positions.position_of seen.known) line
              ingest.origin seen.registry.clients seen.metrics))

    pass_on-Counted :
        (ingest : Ingest) (packet : Packet) (now : ℕ) (s : State) (r : Result QOutcome QReject)
        → CountedBy s (pass_on floats channel positions hasher parse_payload ingest packet now s r)
    unfolding pass_on count_rejected
    pass_on-Counted ingest packet now s (err e) = record {
      unverified_counted = refl;
      invalid_counted = refl;
      duplicate_counted = refl;
      rejected_counted = refl;
      received_kept = refl;
    }
    pass_on-Counted ingest packet now s (ok outcome) = finish-Counted ingest outcome _ now s _

    parsed-Counted :
        (ingest : Ingest) (now : ℕ) (s : State) (r : Result Packet PacketError)
        → CountedBy s (parsed_line floats channel positions hasher parse_payload ingest now s r)
    unfolding parsed_line check_duplicate count_duplicate count_invalid
    parsed-Counted ingest now s (err e) = record {
      unverified_counted = refl;
      invalid_counted = refl;
      duplicate_counted = refl;
      rejected_counted = refl;
      received_kept = refl;
    }
    parsed-Counted ingest now s (ok packet) =
        let checked : State = record s { dupecheck = (check hasher s.dupecheck packet now).0 } in
        if-elim (CountedBy s) (check hasher s.dupecheck packet now).1
          (count_duplicate floats channel positions hasher parse_payload checked, duplicate)
          (pass_on floats channel positions hasher parse_payload ingest packet now checked (
            apply_client packet
              (context_of floats channel positions hasher parse_payload ingest checked)))
          (λ _. record {
            unverified_counted = refl;
            invalid_counted = refl;
            duplicate_counted = refl;
            rejected_counted = refl;
            received_kept = refl;
          })
          (λ _. pass_on-Counted ingest packet now checked (
            apply_client packet
              (context_of floats channel positions hasher parse_payload ingest checked)))

    pub process-Counted :
        (ingest : Ingest) (now : ℕ) (s : State)
        → CountedBy
            (received floats channel positions hasher parse_payload ingest s)
            (process floats channel positions hasher parse_payload ingest now s)
    unfolding process count_unverified
    process-Counted ingest now s =
        let s' = received floats channel positions hasher parse_payload ingest s in
        if-elim (CountedBy s') (not ingest.verified)
          (count_unverified floats channel positions hasher parse_payload s', unverified)
          (parsed_line floats channel positions hasher parse_payload ingest now s'
            (parse ingest.line))
          (λ _. record {
            unverified_counted = refl;
            invalid_counted = refl;
            duplicate_counted = refl;
            rejected_counted = refl;
            received_kept = refl;
          })
          (λ _. parsed-Counted ingest now s' (parse ingest.line))
