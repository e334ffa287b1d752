-- ===== src/Server/Sessions/Dispatched.antt =====
-- What the dispatch of a packet leaves alone (`process` of crates/aprsr-server/src/dispatch.rs): the
-- fan-out only touches the counters and the queues of the clients.
use aprsr.Prelude.{
  ℕ, ◌+◌, List, [], ◌∷◌, Option, none, some, not, length, ◌≡◌, inl, inr, refl, ◌∙◌, if-elim,
  Option-cases, Result, ok, err,
}
use aprsr.Bytes.{Bytes}
use aprsr.Packet.{Packet, PacketError, parse}
use aprsr.Qconstruct.Apply.{QReject, QOutcome}
use aprsr.Dupecheck.{check}
use aprsr.Geo.{Position}
use aprsr.Aprs.{ParsedPayload}
use aprsr.Aprs.Payload.{parse_payload}
use aprsr.Store.{position_cache, position_of}
use aprsr.Server.Metrics.{Metrics}
use aprsr.Server.Registry.{queued, is_origin, accepts, deliver, deliver_all, broadcast}
use aprsr.Server.Dispatch.{
  Ingest, Disposition, received, count_unverified, count_invalid, count_duplicate, count_rejected,
  record_seen, fan_out, finish, pass_on, check_duplicate, parsed_line, process,
}
use aprsr.Server.Client.{Parts, Entry, State, Running}
use aprsr.Server.Sessions.{dispatch_one}
use aprsr.Server.Sessions.Matched.{Like, AllLike, none_like, both_like}
use aprsr.Server.Sessions.Undisturbed.{Still, Still-refl, Still-trans, AllLike-refl, Like-refl}

module _ (parts : Parts) where
  open parts use {floats, channel, hasher}

  abbrev After : State parts → State parts × Disposition → Type 0
  After s r = Still parts s r.0

  -- The counters and the queues of a client.
  queued-Like :
      (bytes : ℕ) (c : Entry parts) (m : Metrics) (o : Option channel.sender)
      → Like parts c (queued floats channel bytes c m o).0
        × ((queued floats channel bytes c m o).1.clients_connected ≡ m.clients_connected)
  unfolding queued
  queued-Like bytes c m (some o) = (
    record {
      same_id = refl;
      same_listener = refl;
      same_kind = refl;
      same_lock = refl;
      same_filter = inl refl;
    },
    refl,
  )
  queued-Like bytes c m none = (
    record {
      same_id = refl;
      same_listener = refl;
      same_kind = refl;
      same_lock = refl;
      same_filter = inl refl;
    },
    refl,
  )

  module _ (packet : Packet) (parsed : ParsedPayload floats.f64)
      (positions : Bytes → Option (Position floats.f64)) (line : Bytes) (origin : Option ℕ) where
    abbrev Kept : Entry parts → Metrics → Entry parts × Metrics → Type 0
    Kept c m r = Like parts c r.0 × (r.1.clients_connected ≡ m.clients_connected)

    deliver-Kept :
        (c : Entry parts) (m : Metrics)
        → Kept c m (deliver floats channel packet parsed positions line origin c m)
    unfolding deliver
    deliver-Kept c m =
        if-elim (Kept c m) (is_origin floats channel packet parsed positions origin c) _ _
          (λ _. (Like-refl parts c, refl))
          (λ _.
            if-elim (Kept c m) (not (accepts floats channel packet parsed positions c)) _ _
              (λ _. (Like-refl parts c, refl))
              (λ _. queued-Like (length line + 2) c m (channel.try_send c.outbox line)))

    deliver_all-Kept :
        (cs : List (Entry parts)) (m : Metrics)
        → let (ds, n) = deliver_all floats channel packet parsed positions line origin cs m in
          AllLike parts cs ds × (n.clients_connected ≡ m.clients_connected)
    unfolding deliver_all
    deliver_all-Kept [] m = (none_like, refl)
    deliver_all-Kept (c ∷ cs) m =
        let (l, e) = deliver-Kept c m in
        let (ls, es) =
          deliver_all-Kept cs (deliver floats channel packet parsed positions line origin c m).1 in
        (both_like l ls, es ∙ e)

  record_seen-Still :
      (packet : Packet) (parsed : ParsedPayload floats.f64) (now : ℕ) (s : State parts)
      → Still parts s (
          record_seen floats channel
            (position_cache floats)
            hasher
            (parse_payload floats)
            packet
            parsed
            now
            s)
  unfolding record_seen
  record_seen-Still packet parsed now s = elim (Option-cases parsed.position) [
    | inl n ↦ rw (n, record_seen) (Still-refl parts s)
    | inr (q, e) ↦
        rw (e, record_seen)
          (record {
            clients_like = AllLike-refl parts s.registry.clients;
            same_next = refl;
            same_gauge = refl;
          })
  ]

  fan_out-Still :
      (packet : Packet) (parsed : ParsedPayload floats.f64) (line : Bytes) (origin : Option ℕ)
      (s : State parts)
      → Still parts s (
          fan_out floats channel
            (position_cache floats)
            hasher
            (parse_payload floats)
            packet
            parsed
            line
            origin
            s)
  unfolding fan_out broadcast
  fan_out-Still packet parsed line origin s =
      let (likes, gauge) =
        deliver_all-Kept packet parsed (position_of s.known) line origin s.registry.clients
          s.metrics in
      record { clients_like = likes; same_next = refl; same_gauge = gauge }

  counts :
      (s : State parts) (m : Metrics)
      → m.clients_connected ≡ s.metrics.clients_connected
      → Still parts s (record s { metrics = m })
  counts s m e = record {
    clients_like = AllLike-refl parts s.registry.clients;
    same_next = refl;
    same_gauge = e;
  }

  finish-After :
      (ingest : Ingest) (outcome : QOutcome) (line : Bytes) (now : ℕ) (s : State parts)
      (r : Result Packet PacketError)
      → After s (
          finish floats channel
            (position_cache floats)
            hasher
            (parse_payload floats)
            ingest
            outcome
            line
            now
            s
            r)
  unfolding finish count_invalid
  finish-After ingest outcome line now s (err e) = counts s _ refl
  finish-After ingest outcome line now s (ok final) =
      Still-trans parts s _ _ (record_seen-Still final (parse_payload floats final) now s)
        (fan_out-Still final (parse_payload floats final) line ingest.origin _)

  pass_on-After :
      (ingest : Ingest) (packet : Packet) (now : ℕ) (s : State parts) (r : Result QOutcome QReject)
      → After s (
          pass_on floats channel
            (position_cache floats)
            hasher
            (parse_payload floats)
            ingest
            packet
            now
            s
            r)
  unfolding pass_on count_rejected
  pass_on-After ingest packet now s (err reject) = counts s _ refl
  pass_on-After ingest packet now s (ok outcome) = finish-After ingest outcome _ now s _

  check_duplicate-After :
      (ingest : Ingest) (packet : Packet) (now : ℕ) (s : State parts)
      → After s (
          check_duplicate floats channel
            (position_cache floats)
            hasher
            (parse_payload floats)
            ingest
            packet
            now
            s)
  unfolding check_duplicate count_duplicate
  check_duplicate-After ingest packet now s =
      let s' = record s { dupecheck = (check hasher s.dupecheck packet now).0 } in
      let same : Still parts s s' = record {
        clients_like = AllLike-refl parts s.registry.clients;
        same_next = refl;
        same_gauge = refl;
      } in
      if-elim (After s) (check hasher s.dupecheck packet now).1 _ _
        (λ _. Still-trans parts s s' _ same (counts s' _ refl))
        (λ _. Still-trans parts s s' _ same (pass_on-After ingest packet now s' _))

  parsed_line-After :
      (ingest : Ingest) (now : ℕ) (s : State parts) (r : Result Packet PacketError)
      → After s (
          parsed_line floats channel
            (position_cache floats)
            hasher
            (parse_payload floats)
            ingest
            now
            s
            r)
  unfolding parsed_line count_invalid
  parsed_line-After ingest now s (err error) = counts s _ refl
  parsed_line-After ingest now s (ok packet) = check_duplicate-After ingest packet now s

  process-After :
      (ingest : Ingest) (now : ℕ) (s : State parts)
      → After s (
          process floats channel (position_cache floats) hasher (parse_payload floats) ingest now s)
  unfolding process received count_unverified
  process-After ingest now s =
      if-elim (After s) (not ingest.verified) _ _ (λ _. counts s _ refl)
        (λ _.
          Still-trans parts s
            (received floats channel (position_cache floats) hasher (parse_payload floats) ingest s)
            _ (counts s _ refl)
            (parsed_line-After ingest now
              (received floats channel (position_cache floats) hasher (parse_payload floats) ingest
                s)
              (parse ingest.line)))

  pub dispatch_one-Still :
      (packet : Ingest) (now : ℕ) (r : Running parts)
      → Still parts r.server (dispatch_one parts packet now r).server
  unfolding dispatch_one
  dispatch_one-Still packet now r = process-After packet now r.server
