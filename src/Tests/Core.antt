-- ===== src/Tests/Core.antt =====
-- Callsigns, passcodes, packets and the duplicate detector at concrete inputs.
use aprsr.Prelude.{
  some, ℕ, ◌+◌, List, [], ◌∷◌, ◌++◌, none, true, length, ◌≡◌, ◌↔◌, ◌⊎◌, refl, arith, ok,
}
use aprsr.Prelude.Int.{pos}
use aprsr.Bytes
use aprsr.Bytes.{Bytes, codes, join_spaces, Lacks, SameIgnoringCase}
use aprsr.Callsign
use aprsr.Callsign.{Callsign}
use aprsr.Callsign.Grammar.{IsCallsign, parse_iff}
use aprsr.Callsign.Pattern.{Covers, matches_pattern_iff}
use aprsr.Passcode.{generate, verify, verified, receive_only_login, receive_only}
use aprsr.Passcode.Hash.{generate-ssid}
use aprsr.Passcode.Verify.{verify_exact}
use aprsr.Digipath
use aprsr.Digipath.{Digipath}
use aprsr.Packet
use aprsr.Packet.{Packet, with_path, gt, colon_byte}
use aprsr.Packet.Accepted.{Accepted, parse-Accepted_iff}
use aprsr.Packet.Render.{addressed}
use aprsr.Packet.Framing.{with_path-parse}
use aprsr.Packet.Reparse.{parse-with_path}
use aprsr.Login
use aprsr.Numbers
use aprsr.Login.{LoginRequest, nonempty}
use aprsr.Login.Groups.{Group, software_group, udp_group, words_of, meaning, groups-meaning}
use aprsr.Dupecheck
use aprsr.Dupecheck.{DupeCheck, with_window, check_digest, check, Hasher}
use aprsr.Dupecheck.Window.{blank}
use aprsr.Dupecheck.Refines.{answers, recalled, answers-with_window}
use aprsr.Dupecheck.Suppress.{run, check-suppressed}

abbrev call : Bytes
call = codes "N0CALL"

parse_iff_example :
    ((c : Callsign) × (Callsign.parse (codes "N0CALL-10") ≡ ok c)) ↔ IsCallsign (codes "N0CALL-10")
parse_iff_example = parse_iff (codes "N0CALL-10")

matches_pattern_iff_example :
    (Callsign.matches_pattern (codes "n0*") call ≡ true) ↔ Covers (codes "n0*") call
matches_pattern_iff_example = matches_pattern_iff (codes "n0*") call

verify_exact_example :
    ((verify call (pos 13023) ≡ verified) ↔ (pos 13023 ≡ pos (generate call)))
    × ((verify call (pos 13023) ≡ receive_only_login) ↔ (pos 13023 ≡ receive_only))
verify_exact_example = verify_exact call (pos 13023)

generate-ssid_example : generate (codes "N0CALL-9") ≡ generate call
unfolding Bytes.find
generate-ssid_example = generate-ssid call (codes "9") (Bytes.find-none b'-' call refl)

abbrev line : Bytes
line = codes "N0CALL>APRS,WIDE1-1:>on air"

abbrev packet : Packet
packet = record {
  raw = line;
  source = call;
  destination = codes "APRS";
  path = Digipath.new (codes "WIDE1-1");
  payload = codes ">on air";
  colon = 19;
}

line-parses : Packet.parse line ≡ ok packet
unfolding Packet.parse Packet.parse_header Packet.parse_body Packet.first_control
    Packet.split_destination Bytes.find Bytes.get_to Bytes.get_from Callsign.validate_for_packet
    Callsign.validate Callsign.scan Callsign.check_ssid
line-parses = refl

with_path-parse_example :
    (with_path packet packet.path.raw ≡ line)
    ⊎ ((packet.path.raw ≡ [])
        × (line
            ≡ (packet.source ++ gt ∷ (packet.destination ++ Digipath.comma ∷ []))
              ++ colon_byte ∷ packet.payload))
with_path-parse_example = with_path-parse line packet line-parses

call-IsCallsign : IsCallsign call
unfolding Callsign.parse Callsign.validate Callsign.scan Callsign.check_ssid
call-IsCallsign = (parse_iff call).0 (record { raw = call; separator = none }, refl)

aprs-IsCallsign : IsCallsign (codes "APRS")
unfolding Callsign.parse Callsign.validate Callsign.scan Callsign.check_ssid
aprs-IsCallsign =
    (parse_iff (codes "APRS")).0 (record { raw = codes "APRS"; separator = none }, refl)

parse-Accepted_iff_example : (Packet.parse line ≡ ok packet) ↔ Accepted line packet
parse-Accepted_iff_example = parse-Accepted_iff line packet

parse-with_path_example :
    Packet.parse (with_path packet (codes "qAC,T2X"))
    ≡ ok (record {
      raw = with_path packet (codes "qAC,T2X");
      source = packet.source;
      destination = packet.destination;
      path = Digipath.new (codes "qAC,T2X");
      payload = packet.payload;
      colon = length (packet.source ++ gt ∷ addressed packet.destination (codes "qAC,T2X"));
    })
unfolding with_path Bytes.find
parse-with_path_example =
    parse-with_path line packet (codes "qAC,T2X") line-parses
      (Bytes.find-none b':' (codes "qAC,T2X") refl)
      (refl, (refl, (refl, (refl, (refl, (refl, (refl, tt))))))) (omega arith)

-- Seven is seen, again within the window of two seconds, and again behind it.
abbrev sightings : List (ℕ × ℕ)
sightings = (7, 10) ∷ (7, 12) ∷ (5, 11) ∷ (7, 13) ∷ []

answers-with_window_example : answers (with_window 2) sightings ≡ recalled 2 blank sightings
answers-with_window_example = answers-with_window 2 sightings (omega arith) (omega arith)

-- The hash of a packet, its number of bytes.
abbrev sizes : Hasher
sizes = λ source destination payload. length source + length destination + length payload

-- The packet again, by another path and with a space behind its payload.
abbrev copied : Packet
copied = record packet { path = Digipath.new (codes "qAO,T2X"); payload = codes ">on air " }

check-suppressed_example :
    (check sizes
      (run (check sizes (run (with_window 30) ((3, 90) ∷ [])) packet 100).0 ((4, 101) ∷ []))
      copied
      120).1
    ≡ true
unfolding run Dupecheck.lookup Dupecheck.remove Dupecheck.insert Dupecheck.with_window
    Dupecheck.slot Dupecheck.forget Dupecheck.evict_second Dupecheck.evict Dupecheck.advance_to
    Dupecheck.push_digest Dupecheck.sight Dupecheck.check_digest Dupecheck.digest Dupecheck.check
    Bytes.trim_end
check-suppressed_example =
    check-suppressed sizes 30 100 120 ((3, 90) ∷ []) ((4, 101) ∷ []) packet copied (omega arith)
      (omega arith) refl refl refl refl (omega arith, tt) (omega arith)

vers-keyword : Login.keyword (codes "vers") ≡ Login.vers
unfolding Login.keyword Bytes.eq_ignore_ascii_case
vers-keyword = refl

udp-keyword : Login.keyword (codes "UDP") ≡ Login.udp
unfolding Login.keyword Bytes.eq_ignore_ascii_case
udp-keyword = refl

port-reads : Numbers.parse_u16 (codes "8080") ≡ some 8080
unfolding Numbers.parse_u16 Numbers.parse_unsigned Numbers.parse_digits Numbers.digits_onto
port-reads = refl

filter-keyword : Login.keyword (codes "filter") ≡ Login.filter_command
unfolding Login.keyword Bytes.eq_ignore_ascii_case
filter-keyword = refl

abbrev written : List Group
written =
    software_group (codes "vers") (codes "xastir") (codes "2.1") vers-keyword
    ∷ udp_group (codes "UDP") (codes "8080") 8080 udp-keyword port-reads
    ∷ []

abbrev request : LoginRequest
request = record {
  callsign = record { raw = call; separator = none };
  passcode = pos 13023;
  software = none;
  software_version = none;
  udp_port = none;
  filter = none;
}

groups-meaning_example :
    (Login.groups 0 (words_of written []) request ≡ ok (meaning written request))
    × (Login.groups 0
          (words_of written (codes "filter" ∷ codes "r/33/96/25" ∷ codes "b/N0*" ∷ []))
          request
        ≡ ok (record (meaning written request) {
          filter = nonempty (join_spaces (codes "r/33/96/25" ∷ codes "b/N0*" ∷ []));
        }))
groups-meaning_example =
    groups-meaning written (codes "filter") (codes "r/33/96/25" ∷ codes "b/N0*" ∷ []) request
      filter-keyword
