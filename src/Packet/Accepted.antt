-- ===== src/Packet/Accepted.antt =====
-- Exactly which lines `Tnc2Packet::parse` (crates/aprsr-core/src/packet.rs) accepts, and as what.
use mathlib.Core.Path.{ap₂}
use aprsr.Prelude.{
  ℕ, ◌≤◌, [], ◌∷◌, ◌++◌, some, length, length-append, All-append, ok, ◌≡◌, ◌≢◌, ◌↔◌, refl, sym, ap,
  ◌∙◌, arith, subst, inl, inr,
}
use aprsr.Bytes.{Bytes, Lacks, find, find-Lacks_append, get_to-append, get_from-append}
use aprsr.Callsign.Grammar.{IsCallsign}
use aprsr.Callsign.Alphabet.{IsCallsign-Lacks, validate_for_packet-IsCallsign}
use aprsr.Digipath.{new, comma}
use aprsr.Packet.{Packet, gt, colon_byte, split_destination, parse_header, parse_body, parse}
use aprsr.Packet.Render.{
  Printable, addressed, render, header-Lacks, parse_body-cut, parse-parse_body,
  split_destination-addressed,
}
use aprsr.Packet.Framing.{
  Framed, parse-Framed, parse-body, body-cut, parse_header-HeaderOf, split_destination-comma,
}

-- The fields of a line and the place of its colon.
pub record Accepted (raw : Bytes) (p : Packet) : Type 0 where
  pub framed : Framed raw p
  pub first_colon : find colon_byte raw ≡ some p.colon

parse_header-split :
    (raw s a d path payload : Bytes) (colon : ℕ)
    → split_destination a ≡ (d, path)
    → IsCallsign s
    → IsCallsign d
    → parse_header raw colon (s ++ gt ∷ a) payload
      ≡ ok (record {
        raw = raw;
        source = s;
        destination = d;
        path = new path;
        payload = payload;
        colon = colon;
      })
unfolding parse_header
parse_header-split raw s a d path payload colon e hs hd = ground (
  arith,
  e,
  find-Lacks_append gt s a (IsCallsign-Lacks s gt hs refl),
  get_to-append s (gt ∷ a),
  get_from-append s gt a,
  validate_for_packet-IsCallsign s hs,
  validate_for_packet-IsCallsign d hd,
)

-- A line whose header ends at its first colon.
parse-split :
    (raw s a d path payload : Bytes)
    → raw ≡ (s ++ gt ∷ a) ++ colon_byte ∷ payload
    → split_destination a ≡ (d, path)
    → IsCallsign s
    → IsCallsign d
    → Lacks colon_byte (s ++ gt ∷ a)
    → payload ≢ []
    → length raw ≤ 510
    → Printable raw
    → parse raw
      ≡ ok (record {
        raw = raw;
        source = s;
        destination = d;
        path = new path;
        payload = payload;
        colon = length (s ++ gt ∷ a);
      })
parse-split raw s a d path payload e cut hs hd lacks ne fits printable =
    parse-parse_body raw
      (omega (arith, ap length e, length-append (s ++ gt ∷ a) (colon_byte ∷ payload))) fits
      printable
    ∙ subst
        (λ t.
          parse_body t
          ≡ ok (record {
            raw = t;
            source = s;
            destination = d;
            path = new path;
            payload = payload;
            colon = length (s ++ gt ∷ a);
          }))
        (sym e)
        (parse_body-cut (s ++ gt ∷ a) payload lacks ne
          ∙ parse_header-split _ s a d path payload (length (s ++ gt ∷ a)) cut hs hd)

fields :
    (raw : Bytes) (p : Packet) (a : Bytes)
    → Accepted raw p
    → raw ≡ (p.source ++ gt ∷ a) ++ colon_byte ∷ p.payload
    → split_destination a ≡ (p.destination, p.path.raw)
    → Lacks colon_byte (p.source ++ gt ∷ a)
    → parse raw ≡ ok p
fields raw p a h e cut lacks =
    let f = h.framed in
    let found = find-Lacks_append colon_byte (p.source ++ gt ∷ a) p.payload lacks in
    let place : length (p.source ++ gt ∷ a) ≡ p.colon =
      cc (sym found ∙ ap (find colon_byte) (sym e) ∙ h.first_colon) in
    parse-split raw p.source a p.destination p.path.raw p.payload e cut f.source_valid
      f.destination_valid lacks f.payload_present f.fits f.printable
    ∙ ap ok (ap₂ (λ r (n : ℕ). record p { raw = r; colon = n }) (sym f.kept) place)

parse-first_colon :
    (raw : Bytes) (p : Packet) → parse raw ≡ ok p → find colon_byte raw ≡ some p.colon
parse-first_colon raw p h =
    let (_, _, b) = parse-body raw p h in
    let (header, payload, e, lacks, _, ph) = body-cut raw p b in
    let (_, _, _, _, _, built) = parse_header-HeaderOf raw (length header) header payload p ph in
    ap (find colon_byte) e
    ∙ find-Lacks_append colon_byte header payload lacks
    ∙ sym (ap (λ (q : Packet). some q.colon) built)

Accepted-parse : (raw : Bytes) (p : Packet) → Accepted raw p → parse raw ≡ ok p
unfolding render
Accepted-parse raw p h =
    let f = h.framed in
    elim f.spells [
      | inl e ↦
          fields raw p (addressed p.destination p.path.raw) h e
            (split_destination-addressed p.destination p.path.raw
              (IsCallsign-Lacks p.destination comma f.destination_valid refl))
            (header-Lacks p.source p.destination p.path.raw f.source_valid f.destination_valid
              f.path_framed)
      | inr (n, e) ↦
          fields raw p (p.destination ++ comma ∷ []) h e
            (rw n (
              split_destination-comma p.destination []
                (IsCallsign-Lacks p.destination comma f.destination_valid refl)))
            (All-append (λ c. c ≢ colon_byte) p.source (gt ∷ (p.destination ++ comma ∷ []))
              (IsCallsign-Lacks p.source colon_byte f.source_valid refl)
              (
                ground arith,
                All-append (λ c. c ≢ colon_byte) p.destination (comma ∷ [])
                    (IsCallsign-Lacks p.destination colon_byte f.destination_valid refl)
                    (ground arith, tt),
              ))
    ]

-- `parse` answers the packet `p` exactly if the line has at most 510 bytes and no control character, it
-- is the source, `>`, the destination, a comma and the path, or nothing or a comma alone where the path
-- is empty, a colon and the payload of `p`, the source and the destination are callsigns, the path has
-- no colon, the payload is not empty, and `p` keeps the line and the place of its first colon.
pub parse-Accepted_iff : (raw : Bytes) (p : Packet) → (parse raw ≡ ok p) ↔ Accepted raw p
parse-Accepted_iff raw p = (
  λ h. record { framed = parse-Framed raw p h; first_colon = parse-first_colon raw p h },
  Accepted-parse raw p,
)
