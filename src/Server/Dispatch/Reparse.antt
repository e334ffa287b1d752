-- ===== src/Server/Dispatch/Reparse.antt =====
-- A packet that this server's own rewriting makes too long.
use aprsr.Prelude.{ℕ, ◌<◌, true, false, ok, length, ◌≡◌, arith}
use aprsr.Packet.{Packet, empty, parse, with_path}
use aprsr.Packet.Reparse.{parse-with_path_too_long}
use aprsr.Qconstruct.Apply.{QOutcome, apply_client}
use aprsr.Dupecheck.{Hasher, check}
use aprsr.Geo.{Floats}
use aprsr.Aprs.{ParsedPayload}
use aprsr.Server.Registry.{Channel}
use aprsr.Server.Dispatch.{
  Ingest, invalid, PositionStore, ServerState, context_of, received, count_invalid, rendered,
  finish, pass_on, check_duplicate, parsed_line, process,
}

module _ (floats : Floats) (channel : Channel) (positions : PositionStore floats.f64)
    (hasher : Hasher) (parse_payload : Packet → ParsedPayload floats.f64) where
  -- A packet that parses, is no duplicate and is accepted by the q algorithm is still dropped, as
  -- `Invalid(Empty)`, where its line with the new path is longer than 510 bytes; the duplicate
  -- detector has recorded it by then.
  pub process-too_long :
      (ingest : Ingest) (now : ℕ) (s : ServerState floats channel positions hasher parse_payload)
      (p : Packet) (outcome : QOutcome)
      → ingest.verified ≡ true
      → parse ingest.line ≡ ok p
      → (check hasher s.dupecheck p now).1 ≡ false
      → apply_client p (context_of floats channel positions hasher parse_payload ingest s)
        ≡ ok outcome
      → outcome.rewritten ≡ true
      → 510 < length (with_path p outcome.path)
      → ((process floats channel positions hasher parse_payload ingest now s).1 ≡ invalid empty)
        × ((process floats channel positions hasher parse_payload ingest now s).0.dupecheck
            ≡ (check hasher s.dupecheck p now).0)
  unfolding process received parsed_line check_duplicate pass_on rendered finish count_invalid
  process-too_long ingest now s p outcome v e fresh accepted rewritten long =
      let refused = parse-with_path_too_long p outcome.path long in
      (
        ground (arith, v, e, fresh, accepted, rewritten, refused),
        ground (arith, v, e, fresh, accepted, rewritten, refused),
      )
