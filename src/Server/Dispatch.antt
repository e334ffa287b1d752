-- ===== src/Server/Dispatch.antt =====
-- The ingest path (crates/aprsr-server/src/dispatch.rs): `process`, and the loop of the dispatch task
-- as a fold over the submitted packets.
pub mod Counted
pub mod Accounts
pub mod Repeats
pub mod Reparse
pub mod Content
use mathlib.Core.Option
use aprsr.Prelude.{
  ℕ, ◌+◌, List, [], ◌∷◌, Option, none, some, Bool, true, false, not, if◌then◌else◌, length, Result,
  ok, err,
}
use aprsr.Bytes.{Bytes}
use aprsr.Packet.{Packet, PacketError, empty, parse, with_path}
use aprsr.Qconstruct.Code.{QCode}
use aprsr.Qconstruct.Apply.{QReject, QContext, QOutcome, apply_client}
use aprsr.Dupecheck.{DupeCheck, Hasher, check}
use aprsr.Geo.{Floats, Position}
use aprsr.Aprs.{ParsedPayload}
use aprsr.Aprs.Symbols.{Symbol}
use aprsr.Server.Metrics.{Metrics, incr, add, to_i64}
use aprsr.Server.Registry.{Channel, ClientRegistry, broadcast}

pub record Ingest : Type 0 where
  pub line : Bytes
  pub origin : Option ℕ
  pub login : Bytes
  pub verified : Bool
  pub via_udp : Bool
  pub send_only : Bool

pub data Disposition : Type 0 where
  delivered : Bytes → QCode → Disposition
  unverified : Disposition
  invalid : PacketError → Disposition
  duplicate : Disposition
  rejected : QReject → Disposition

unfoldable pub was_delivered : Disposition → Bool
was_delivered (delivered line code) = true
was_delivered _ = false

-- The position store: it records where a station was seen and knows the last position of one.
pub record PositionStore (f64 : Type 0) : Type 1 where
  pub store : Type 0
  pub record_position : Bytes → Position f64 → Option Symbol → ℕ → store → store
  pub position_of : store → Bytes → Option (Position f64)

module _ (floats : Floats) (channel : Channel) (positions : PositionStore floats.f64)
    (hasher : Hasher) (parse_payload : Packet → ParsedPayload floats.f64) where
  -- What `process` reads and changes.
  pub record ServerState : Type 0 where
    pub server_id : Bytes
    pub metrics : Metrics
    pub registry : ClientRegistry floats channel
    pub known : positions.store
    pub dupecheck : DupeCheck

  abbrev pub context_of : Ingest → ServerState → QContext
  context_of ingest state = record {
    server_id = state.server_id;
    login = ingest.login;
    verified = ingest.verified;
    via_udp = ingest.via_udp;
    send_only = ingest.send_only;
  }

  -- The two counters of a submission.
  unfoldable pub received : Ingest → ServerState → ServerState
  received ingest state = record state {
    metrics = record state.metrics {
      packets_received = incr state.metrics.packets_received;
      bytes_received = add state.metrics.bytes_received (length ingest.line + 2);
    };
  }

  unfoldable pub count_unverified : ServerState → ServerState
  count_unverified state = record state {
    metrics = record state.metrics { packets_unverified = incr state.metrics.packets_unverified };
  }

  unfoldable pub count_invalid : ServerState → ServerState
  count_invalid state = record state {
    metrics = record state.metrics { packets_invalid = incr state.metrics.packets_invalid };
  }

  unfoldable pub count_duplicate : ServerState → ServerState
  count_duplicate state = record state {
    metrics = record state.metrics { packets_duplicate = incr state.metrics.packets_duplicate };
  }

  unfoldable pub count_rejected : ServerState → ServerState
  count_rejected state = record state {
    metrics = record state.metrics { packets_rejected = incr state.metrics.packets_rejected };
  }

  -- `state.positions.record`, when the payload carries a position.
  unfoldable pub record_seen : Packet → ParsedPayload floats.f64 → ℕ → ServerState → ServerState
  record_seen packet parsed now state = elim parsed.position [
    | none ↦ state
    | some position ↦ record state {
      known =
          positions.record_position packet.source position parsed.symbol (to_i64 now) state.known;
    }
  ]

  unfoldable pub fan_out :
      Packet → ParsedPayload floats.f64 → Bytes → Option ℕ → ServerState → ServerState
  fan_out packet parsed line origin state =
      let (registry, metrics) =
        broadcast floats channel packet parsed (positions.position_of state.known) state.registry
          line origin state.metrics in
      record state { registry = registry; metrics = metrics }

  -- The line that is passed on.
  unfoldable pub rendered : Ingest → Packet → QOutcome → Bytes
  rendered ingest packet outcome =
      if outcome.rewritten then with_path packet outcome.path else ingest.line

  -- What follows the re-parse of the line.
  unfoldable pub finish :
      Ingest
      → QOutcome
      → Bytes
      → ℕ
      → ServerState
      → Result Packet PacketError
      → ServerState × Disposition
  finish ingest outcome line now state (err _) = (count_invalid state, invalid empty)
  finish ingest outcome line now state (ok final) =
      let parsed = parse_payload final in
      (
        fan_out final parsed line ingest.origin (record_seen final parsed now state),
        delivered line outcome.code,
      )

  -- What follows the q algorithm.
  unfoldable pub pass_on :
      Ingest → Packet → ℕ → ServerState → Result QOutcome QReject → ServerState × Disposition
  pass_on ingest packet now state (err reject) = (count_rejected state, rejected reject)
  pass_on ingest packet now state (ok outcome) =
      let line = rendered ingest packet outcome in finish ingest outcome line now state (parse line)

  -- What follows the duplicate check.
  unfoldable pub check_duplicate : Ingest → Packet → ℕ → ServerState → ServerState × Disposition
  check_duplicate ingest packet now state =
      let (dupecheck, seen) = check hasher state.dupecheck packet now in
      let state' = record state { dupecheck = dupecheck } in
      if seen
      then (count_duplicate state', duplicate)
      else pass_on ingest packet now state' (apply_client packet (context_of ingest state'))

  -- What follows the parse of the submitted line.
  unfoldable pub parsed_line :
      Ingest → ℕ → ServerState → Result Packet PacketError → ServerState × Disposition
  parsed_line ingest now state (err error) = (count_invalid state, invalid error)
  parsed_line ingest now state (ok packet) = check_duplicate ingest packet now state

  unfoldable pub process : Ingest → ℕ → ServerState → ServerState × Disposition
  process ingest now state =
      if not ingest.verified
      then (count_unverified (received ingest state), unverified)
      else parsed_line ingest now (received ingest state) (parse ingest.line)

  -- The dispatch task: every packet that it receives, with the clock's reading.
  unfoldable pub run : List (Ingest × ℕ) → ServerState → ServerState × List Disposition
  run [] state = (state, [])
  run ((ingest, now) ∷ rest) state =
      let (state', d) = process ingest now state in
      let (state'', ds) = run rest state' in (state'', d ∷ ds)
