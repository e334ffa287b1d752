-- ===== src/Tests/Serving.antt =====
-- The codec, the registry and the ingest path at concrete inputs.
use aprsr.Prelude.{
  ℕ, ◌+◌, List, [], ◌∷◌, Option, none, some, true, false, ltb, length, replicate, ◌++◌,
  if◌then◌else◌, ◌≡◌, refl, arith, ok,
}
use aprsr.Bytes
use aprsr.Bytes.{Bytes, codes}
use aprsr.Callsign
use aprsr.Digipath
use aprsr.Packet
use aprsr.Packet.{Packet, empty}
use aprsr.Qconstruct.Code
use aprsr.Qconstruct.Code.{verified_client}
use aprsr.Qconstruct.Apply
use aprsr.Qconstruct.Apply.{QOutcome}
use aprsr.Server.Dispatch.Reparse.{process-too_long}
use aprsr.Dupecheck
use aprsr.Dupecheck.{Hasher, with_window, check}
use aprsr.Geo.{Position}
use aprsr.Aprs.{ParsedPayload}
use aprsr.Tests.Filters.{whole}
use aprsr.Server.Metrics.{Metrics}
use aprsr.Server.Registry
use aprsr.Config.{full_feed}
use aprsr.Server.Registry.{Channel, Client, Registration, ClientRegistry, insert, get, remove, len}
use aprsr.Server.Registry.Clients.{IsRegistry, insert-IsRegistry}
use aprsr.Server.Codec.{LineCodec}
use aprsr.Server.Codec.Window.{Ready}
use aprsr.Server.Codec.Decode.{Returns, decode-Returns}
use aprsr.Server.Codec.Close.{read_all, lines_of, read_all-lines_of}
use aprsr.Server.Codec.Stream.{concat}
use aprsr.Server.Dispatch
use aprsr.Server.Dispatch.{
  Ingest, invalid, delivered, duplicate, PositionStore, ServerState, process, run,
}
use aprsr.Server.Dispatch.Accounts.{Accounts, run-Accounts}
use aprsr.Server.Dispatch.Content.{SameContent, delivered-content}
use aprsr.Server.Dispatch.Repeats.{process-repeat}

-- Two short lines and one that is too long, cut in the middle.
abbrev chunks : List Bytes
chunks = codes "ab\nlong" ∷ codes "er line\ncd\r\n" ∷ codes "e" ∷ []

read_all-lines_of_example : read_all 5 chunks ≡ some (lines_of 5 (concat chunks))
read_all-lines_of_example = read_all-lines_of 5 chunks (omega arith)

-- Behind an over-long line.
abbrev resuming : LineCodec
resuming = record { max_length = 5; next_index = 0; discarding = true }

resuming-Ready : Ready resuming (codes "er line\ncd\r\n")
resuming-Ready = record {
  limit_fits = omega arith;
  scanned_in = omega arith;
  scanned_below = omega arith;
  scanned_lacks = tt;
}

decode-Returns_example :
    Returns resuming (codes "er line\ncd\r\n") resuming-Ready 13 resuming.discarding
decode-Returns_example =
    decode-Returns 13 resuming (codes "er line\ncd\r\n") resuming-Ready (omega arith)

-- A queue of at most two lines.
abbrev pub queue : Channel
queue = record {
  sender = List Bytes;
  try_send = λ held line. if ltb (length held) 2 then some (line ∷ held) else none;
}

abbrev registration : Registration whole queue
registration = record {
  callsign = codes "N0CALL";
  remote = codes "192.0.2.1:5000";
  listener = codes "full";
  port_kind = full_feed;
  software = none;
  verified = true;
  connected_at = 100;
  session_id = none;
  filter = record { entries = [] };
  filter_locked = false;
  outbox = [];
}

abbrev empty_registry : ClientRegistry whole queue
empty_registry = record { clients = []; next_id = 0 }

empty-IsRegistry : IsRegistry whole queue empty_registry
empty-IsRegistry = record { below = tt; distinct = tt }

insert-IsRegistry_example :
    IsRegistry whole queue (insert whole queue empty_registry registration).0
    × (get whole queue empty_registry (insert whole queue empty_registry registration).1.id ≡ none)
    × (len whole queue (insert whole queue empty_registry registration).0
        ≡ len whole queue empty_registry + 1)
insert-IsRegistry_example =
    insert-IsRegistry whole queue empty_registry registration empty-IsRegistry (omega arith)

abbrev registry : ClientRegistry whole queue
registry = record { clients = Registry.client_of whole queue 0 registration ∷ []; next_id = 1 }

abbrev packet : Packet
packet = record {
  raw = [];
  source = codes "K1ABC";
  destination = codes "APRS";
  path = Digipath.new [];
  payload = codes "!";
  colon = 0;
}

abbrev nothing : ParsedPayload ℕ
nothing = record { types = 0; position = none; symbol = none; object_name = none; addressee = none }

abbrev pub zero_metrics : Metrics
zero_metrics = record {
  packets_received = 0;
  packets_sent = 0;
  packets_duplicate = 0;
  packets_invalid = 0;
  packets_rejected = 0;
  packets_unverified = 0;
  packets_dropped_slow = 0;
  bytes_received = 0;
  bytes_sent = 0;
  clients_connected = 0;
  clients_total = 0;
  logins_rejected = 0;
}

abbrev nowhere : Bytes → Option (Position ℕ)
nowhere _ = none

-- A store that remembers nothing, the hash of a packet as its number of bytes, and a payload without a
-- position.
abbrev no_store : PositionStore ℕ
no_store = record { store = Unit {0}; record_position = λ _ _ _ _ s. s; position_of = λ _. nowhere }

abbrev pub sizes : Hasher
sizes = λ source destination payload. length source + length destination + length payload

abbrev unparsed : Packet → ParsedPayload ℕ
unparsed _ = nothing

abbrev state : ServerState whole queue no_store sizes unparsed
state = record {
  server_id = codes "T2X";
  metrics = zero_metrics;
  registry = registry;
  known = tt;
  dupecheck = with_window 30;
}

abbrev first : Ingest
first = record {
  line = codes "N0CALL>APRS:hi";
  origin = some 0;
  login = codes "N0CALL";
  verified = true;
  via_udp = false;
  send_only = false;
}

abbrev unchecked : Ingest
unchecked = record first { verified = false }

run-Accounts_example :
    Accounts zero_metrics
      (run whole queue no_store sizes unparsed
        ((first, 100) ∷ (unchecked, 101) ∷ [])
        state).0.metrics
      (run whole queue no_store sizes unparsed ((first, 100) ∷ (unchecked, 101) ∷ []) state).1
run-Accounts_example =
    run-Accounts whole queue no_store sizes unparsed ((first, 100) ∷ (unchecked, 101) ∷ []) state
      (record {
        received_fits = omega arith;
        unverified_fits = omega arith;
        invalid_fits = omega arith;
        duplicate_fits = omega arith;
        rejected_fits = omega arith;
      })

abbrev again : Ingest
again = record first { line = codes "N0CALL>APRS,T2Y*,qAR,K1ABC:hi "; origin = some 5 }

abbrev parsed_first : Packet
parsed_first = record {
  raw = codes "N0CALL>APRS:hi";
  source = codes "N0CALL";
  destination = codes "APRS";
  path = Digipath.new [];
  payload = codes "hi";
  colon = 11;
}

abbrev parsed_again : Packet
parsed_again = record {
  raw = codes "N0CALL>APRS,T2Y*,qAR,K1ABC:hi ";
  source = codes "N0CALL";
  destination = codes "APRS";
  path = Digipath.new (codes "T2Y*,qAR,K1ABC");
  payload = codes "hi ";
  colon = 26;
}

first-parses : Packet.parse first.line ≡ ok parsed_first
unfolding Packet.first_control Packet.split_destination Packet.parse_header Packet.parse_body
    Packet.parse Callsign.scan Callsign.check_ssid Callsign.validate Callsign.validate_for_packet
    Bytes.find Bytes.get_to Bytes.get_from
first-parses = refl

again-parses : Packet.parse again.line ≡ ok parsed_again
unfolding Packet.first_control Packet.split_destination Packet.parse_header Packet.parse_body
    Packet.parse Callsign.scan Callsign.check_ssid Callsign.validate Callsign.validate_for_packet
    Bytes.find Bytes.get_to Bytes.get_from
again-parses = refl

first-delivered :
    (process whole queue no_store sizes unparsed first 100
      (run whole queue no_store sizes unparsed [] state).0).1
    ≡ delivered (codes "N0CALL>APRS,qAC,T2X:hi") verified_client
unfolding Packet.first_control Packet.split_destination Packet.parse_header Packet.parse_body
    Packet.parse Packet.with_path Callsign.scan Callsign.check_ssid Callsign.validate
    Callsign.validate_for_packet Callsign.matches_pattern Digipath.hop_of Digipath.next_field
    Digipath.next_hop Digipath.iterate Digipath.hops Digipath.last_two Digipath.i_construct_of
    Digipath.i_construct Digipath.duplicate_after Digipath.first_duplicate Dupecheck.lookup
    Dupecheck.with_window Dupecheck.advance_to Dupecheck.sight Dupecheck.check_digest
    Dupecheck.check Apply.tagged Apply.append Apply.reject_existing Apply.own Apply.tag_verified
    Apply.tag Apply.apply_client Code.as_str Code.find_in Code.find Dispatch.received
    Dispatch.rendered Dispatch.finish Dispatch.pass_on Dispatch.check_duplicate Dispatch.parsed_line
    Dispatch.process Dispatch.run Bytes.find Bytes.get_to Bytes.get_from
first-delivered = refl

process-repeat_example :
    (process whole queue no_store sizes unparsed again 125
      (run whole queue no_store sizes unparsed
        ((unchecked, 101) ∷ [])
        (process whole queue no_store sizes unparsed first 100
          (run whole queue no_store sizes unparsed [] state).0).0).0).1
    ≡ duplicate
unfolding Packet.first_control Packet.split_destination Packet.parse_header Packet.parse_body
    Packet.parse Packet.with_path Callsign.scan Callsign.check_ssid Callsign.validate
    Callsign.validate_for_packet Callsign.matches_pattern Digipath.hop_of Digipath.next_field
    Digipath.next_hop Digipath.iterate Digipath.hops Digipath.last_two Digipath.i_construct_of
    Digipath.i_construct Digipath.duplicate_after Digipath.first_duplicate Dupecheck.lookup
    Dupecheck.with_window Dupecheck.advance_to Dupecheck.sight Dupecheck.check_digest
    Dupecheck.check Apply.tagged Apply.append Apply.reject_existing Apply.own Apply.tag_verified
    Apply.tag Apply.apply_client Code.as_str Code.find_in Code.find Dispatch.received
    Dispatch.record_seen Dispatch.fan_out Dispatch.rendered Dispatch.finish Dispatch.pass_on
    Dispatch.check_duplicate Dispatch.parsed_line Dispatch.process Dispatch.run Bytes.find
    Bytes.get_to Bytes.get_from Bytes.trim_end
process-repeat_example =
    process-repeat whole queue no_store sizes unparsed 30 100 125 [] ((unchecked, 101) ∷ []) first
      again parsed_first parsed_again state (codes "N0CALL>APRS,qAC,T2X:hi") verified_client refl
      (omega arith) (omega arith) first-parses again-parses refl refl refl refl first-delivered
      (omega arith, tt) (omega arith)

-- A packet of 507 bytes.
abbrev long_payload : Bytes
long_payload = replicate 495 b'x'

abbrev long : Ingest
long = record first { line = codes "N0CALL>APRS:" ++ long_payload }

abbrev parsed_long : Packet
parsed_long = record {
  raw = codes "N0CALL>APRS:" ++ long_payload;
  source = codes "N0CALL";
  destination = codes "APRS";
  path = Digipath.new [];
  payload = long_payload;
  colon = 11;
}

abbrev tagged_long : QOutcome
tagged_long = record { code = verified_client; path = codes "qAC,T2X"; rewritten = true }

long-parses : Packet.parse long.line ≡ ok parsed_long
unfolding Packet.first_control Packet.split_destination Packet.parse_header Packet.parse_body
    Packet.parse Callsign.scan Callsign.check_ssid Callsign.validate Callsign.validate_for_packet
    Bytes.find Bytes.get_to Bytes.get_from
long-parses = refl

process-too_long_example :
    ((process whole queue no_store sizes unparsed long 100 state).1 ≡ invalid empty)
    × ((process whole queue no_store sizes unparsed long 100 state).0.dupecheck
        ≡ (check sizes (with_window 30) parsed_long 100).0)
unfolding Packet.with_path Digipath.hop_of Digipath.next_field Digipath.next_hop Digipath.iterate
    Digipath.hops Digipath.last_two Digipath.i_construct_of Digipath.i_construct
    Digipath.duplicate_after Digipath.first_duplicate Dupecheck.lookup Dupecheck.with_window
    Dupecheck.advance_to Dupecheck.sight Dupecheck.check_digest Dupecheck.check Apply.tagged
    Apply.append Apply.reject_existing Apply.own Apply.tag_verified Apply.tag Apply.apply_client
    Code.as_str Code.find_in Code.find Bytes.find Bytes.get_from Bytes.strip_suffix
    Bytes.eq_ignore_ascii_case
process-too_long_example =
    process-too_long whole queue no_store sizes unparsed long 100 state parsed_long tagged_long refl
      long-parses refl refl refl (omega arith)

delivered-content_example :
    (first.verified ≡ true)
    × ((p : Packet) × (final : Packet) × (Packet.parse first.line ≡ ok p)
        × (Packet.parse (codes "N0CALL>APRS,qAC,T2X:hi") ≡ ok final)
        × SameContent final p)
unfolding run
delivered-content_example =
    delivered-content whole queue no_store sizes unparsed first 100 state
      (codes "N0CALL>APRS,qAC,T2X:hi") verified_client
      (
        ((λ e. cc), refl),
        (
          ((λ e. cc), refl),
          (((λ e. cc), refl), (((λ e. cc), refl), (((λ e. cc), refl), (((λ e. cc), refl), tt)))),
        ),
      )
      (((λ e. cc), refl), (((λ e. cc), refl), (((λ e. cc), refl), tt))) first-delivered
