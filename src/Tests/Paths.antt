-- ===== src/Tests/Paths.antt =====
-- Paths and the q algorithm at concrete inputs.
use mathlib.Core.Option
use aprsr.Prelude.{ℕ, [], ◌∷◌, none, some, true, false, keep, map, ◌≡◌, ◌↔◌, inl, refl, ok, err}
use aprsr.Bytes
use aprsr.Bytes.{Bytes, codes, split}
use aprsr.Callsign
use aprsr.Callsign.Grammar.{IsCallsign, parse_iff}
use aprsr.Digipath
use aprsr.Digipath.{Hop, Digipath, new, hops, comma, is_named, truncated_to, first_duplicate}
use aprsr.Digipath.Hops.{fields_at, hops-fields}
use aprsr.Packet.{Packet}
use aprsr.Qconstruct.Code.{
  QCode, udp, verified_igate, as_str, FoundQ, find, parse, parse-as_str_iff,
}
use aprsr.Qconstruct.Apply
use aprsr.Qconstruct.Code
use aprsr.Qconstruct.Apply.{QReject, QContext, QOutcome, apply_client}
use aprsr.Qconstruct.Loop.{apply_client-loop, apply_client-reentry}
use aprsr.Qconstruct.Recorded.{apply_client-Carries}

abbrev hop : Bytes → ℕ → Hop
hop call offset = record { call = call; used = false; offset = offset }

abbrev raw : Bytes
raw = codes "qAR,N0CALL,T2X"

raw-hops : hops (new raw) ≡ hop (codes "qAR") 0 ∷ hop (codes "N0CALL") 4 ∷ hop (codes "T2X") 11 ∷ []
unfolding Digipath.hops Digipath.iterate Digipath.next_hop Digipath.next_field Digipath.hop_of
    Bytes.find Bytes.get_to Bytes.get_from Bytes.strip_suffix
raw-hops = refl

hops-fields_example : hops (new raw) ≡ keep is_named (fields_at 0 (split comma raw))
hops-fields_example = hops-fields raw

parse-as_str_iff_example :
    (parse (codes "qAR") ≡ some verified_igate) ↔ (codes "qAR" ≡ as_str verified_igate)
parse-as_str_iff_example = parse-as_str_iff (codes "qAR") verified_igate

abbrev packet : Bytes → Packet
packet path = record {
  raw = [];
  source = codes "N0CALL";
  destination = codes "APRS";
  path = new path;
  payload = codes "hi";
  colon = 0;
}

abbrev ctx : QContext
ctx = record {
  server_id = codes "T2X";
  login = codes "N0CALL";
  verified = true;
  via_udp = true;
  send_only = false;
}

apply_client-loop_example : (r : QReject) × (apply_client (packet raw) ctx ≡ err r)
unfolding parse as_str Bytes.str_eq
apply_client-loop_example =
    apply_client-loop (packet raw) ctx [] (hop (codes "N0CALL") 4 ∷ []) [] (hop (codes "qAR") 0)
      (hop (codes "T2X") 11) verified_igate raw-hops refl refl

server-IsCallsign : IsCallsign (codes "T2X")
unfolding Callsign.parse Callsign.validate Callsign.scan Callsign.check_ssid
server-IsCallsign =
    (parse_iff (codes "T2X")).0 (record { raw = codes "T2X"; separator = none }, refl)

-- A packet that came by UDP, and what becomes of it.
abbrev outcome : QOutcome
outcome = record { code = udp; path = codes "WIDE1-1,qAU,T2X"; rewritten = true }

accepted : apply_client (packet (codes "WIDE1-1")) ctx ≡ ok outcome
unfolding Digipath.hops Digipath.iterate Digipath.next_hop Digipath.next_field Digipath.hop_of
    Bytes.find Bytes.get_to Bytes.get_from Bytes.strip_suffix Digipath.has_tcpip Digipath.last_two
    Digipath.named_call Digipath.i_construct_of Digipath.i_construct Digipath.truncated_to
    Digipath.trim_digits Digipath.is_generic_alias Digipath.duplicate_after Digipath.first_duplicate
    Apply.unchanged Apply.tagged Apply.append Apply.replace_at Apply.replace_or_append
    Apply.igate_offset Apply.rewrite_i_construct Apply.loops_back Apply.reject_existing
    Apply.downgrade Apply.relayed Apply.own Apply.tag_verified Apply.tag Apply.apply_client
    Code.as_str Code.parse Code.next_call Code.find_in Code.find Bytes.str_eq
    Bytes.eq_ignore_ascii_case aprsr.Passcode.first_part split
accepted = refl

apply_client-reentry_example :
    (r : QReject) × (apply_client (packet (codes "WIDE1-1,qAU,T2X")) ctx ≡ err r)
apply_client-reentry_example =
    apply_client-reentry (packet (codes "WIDE1-1")) (packet (codes "WIDE1-1,qAU,T2X")) ctx ctx
      outcome server-IsCallsign (inl refl) accepted refl refl

nothing-found : find (new (codes "WIDE1-1")) ≡ none
unfolding Code.as_str Code.parse Code.next_call Code.find_in Code.find Bytes.str_eq
    Bytes.eq_ignore_ascii_case Digipath.hops Digipath.iterate Digipath.next_hop Digipath.next_field
    Digipath.hop_of Bytes.find Bytes.get_to Bytes.get_from Bytes.strip_suffix
nothing-found = refl

apply_client-Carries_example :
    Option.map (λ (q : FoundQ). q.code) (find (new (codes "WIDE1-1,qAU,T2X"))) ≡ some udp
apply_client-Carries_example =
    apply_client-Carries (packet (codes "WIDE1-1")) ctx outcome accepted (inl nothing-found)
