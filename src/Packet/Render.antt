-- ===== src/Packet/Render.antt =====
-- Rendering a packet and parsing it again.
use aprsr.Prelude.{
  ℕ, ◌<◌, ◌≤◌, [], ◌∷◌, ◌++◌, none, false, length, length-append, is_empty, All, All-append,
  All-imp, ok, ◌≡◌, ◌≢◌, refl, ◌∙◌, arith, if◌then◌else◌, append_assoc, append-nil,
}
use aprsr.Bytes.{Bytes, Lacks, find-Lacks, find-Lacks_append, get_to-append, get_from-append}
use aprsr.Callsign.Grammar.{IsCallsign}
use aprsr.Callsign.Alphabet.{
  IsCallsign-Lacks, IsCallsign-alphabet, InAlphabet, validate_for_packet-IsCallsign,
}
use aprsr.Digipath.{new, comma}
use aprsr.Packet.{
  Packet, gt, colon_byte, is_control, first_control, split_destination, parse_header, parse_body,
  parse, with_path, max_packet_body_len,
}

-- No byte that is refused on the wire.
abbrev pub Printable : Bytes → Type 0
Printable = All (λ b. is_control b ≡ false)

pub first_control-Printable : (s : Bytes) → Printable s → first_control s ≡ none
unfolding first_control
first_control-Printable [] h = refl
first_control-Printable (b ∷ s) h = ground (arith, first_control-Printable s h.1)

pub IsCallsign-Printable : (s : Bytes) → IsCallsign s → Printable s
IsCallsign-Printable s h =
    All-imp InAlphabet (λ b. is_control b ≡ false) (λ c e. ground arith) s (IsCallsign-alphabet s h)

-- What stands behind the `>`, up to the colon.
unfoldable pub addressed : Bytes → Bytes → Bytes
addressed destination path = destination ++ (if is_empty path then [] else comma ∷ path)

-- The line with the given fields.
unfoldable pub render : Bytes → Bytes → Bytes → Bytes → Bytes
render source destination path payload =
    (source ++ gt ∷ addressed destination path) ++ colon_byte ∷ payload

pub with_path-render :
    (p : Packet) (path : Bytes) → with_path p path ≡ render p.source p.destination path p.payload
unfolding with_path render addressed
with_path-render p path = simp append_assoc

pub split_destination-addressed :
    (destination path : Bytes)
    → Lacks comma destination
    → split_destination (addressed destination path) ≡ (destination, path)
unfolding split_destination addressed
split_destination-addressed d [] h = ground (arith, append-nil d, find-Lacks comma d h)
split_destination-addressed d (c ∷ path) h = ground (
  arith,
  find-Lacks_append comma d (c ∷ path) h,
  get_to-append d (comma ∷ (c ∷ path)),
  get_from-append d comma (c ∷ path),
)

addressed-Lacks :
    (d path : Bytes)
    → Lacks colon_byte d
    → Lacks colon_byte path
    → Lacks colon_byte (addressed d path)
unfolding addressed
addressed-Lacks d [] hd hp = All-append (λ c. c ≢ colon_byte) d [] hd tt
addressed-Lacks d (c ∷ path) hd hp =
    All-append (λ c. c ≢ colon_byte) d (comma ∷ (c ∷ path)) hd (ground arith, hp)

abbrev header_of : Bytes → Bytes → Bytes → Bytes
header_of source destination path = source ++ gt ∷ addressed destination path

parse_header-render :
    (raw s d path payload : Bytes) (colon : ℕ)
    → IsCallsign s
    → IsCallsign d
    → parse_header raw colon (header_of s d path) payload
      ≡ ok (record {
        raw = raw;
        source = s;
        destination = d;
        path = new path;
        payload = payload;
        colon = colon;
      })
unfolding parse_header
parse_header-render raw s d path payload colon hs hd = ground (
  arith,
  find-Lacks_append gt s (addressed d path) (IsCallsign-Lacks s gt hs refl),
  get_to-append s (gt ∷ addressed d path),
  get_from-append s gt (addressed d path),
  split_destination-addressed d path (IsCallsign-Lacks d comma hd refl),
  validate_for_packet-IsCallsign s hs,
  validate_for_packet-IsCallsign d hd,
)

pub header-Lacks :
    (s d path : Bytes)
    → IsCallsign s
    → IsCallsign d
    → Lacks colon_byte path
    → Lacks colon_byte (header_of s d path)
header-Lacks s d path hs hd hp =
    All-append (λ c. c ≢ colon_byte) s (gt ∷ addressed d path)
      (IsCallsign-Lacks s colon_byte hs refl)
      (ground arith, addressed-Lacks d path (IsCallsign-Lacks d colon_byte hd refl) hp)

pub parse_body-cut :
    (header payload : Bytes)
    → Lacks colon_byte header
    → payload ≢ []
    → parse_body (header ++ colon_byte ∷ payload)
      ≡ parse_header (header ++ colon_byte ∷ payload) (length header) header payload
unfolding parse_body
parse_body-cut header [] lacks ne = absurd (ne refl)
parse_body-cut header (c ∷ payload) lacks ne = ground (
  arith,
  find-Lacks_append colon_byte header (c ∷ payload) lacks,
  get_to-append header (colon_byte ∷ (c ∷ payload)),
  get_from-append header colon_byte (c ∷ payload),
)

pub parse-parse_body :
    (raw : Bytes)
    → 0 < length raw
    → length raw ≤ max_packet_body_len
    → Printable raw
    → parse raw ≡ parse_body raw
unfolding parse
parse-parse_body [] pos le h = absurd (omega arith)
parse-parse_body (c ∷ raw) pos le h = ground (arith, first_control-Printable (c ∷ raw) h)

render-Printable :
    (s d path payload : Bytes)
    → IsCallsign s
    → IsCallsign d
    → Printable path
    → Printable payload
    → Printable (render s d path payload)
unfolding render addressed
render-Printable s d [] payload hs hd hp hl =
    let P = λ (b : ℕ). is_control b ≡ false in
    All-append P (s ++ gt ∷ (d ++ [])) (colon_byte ∷ payload)
      (All-append P s (gt ∷ (d ++ [])) (IsCallsign-Printable s hs)
        (refl, All-append P d [] (IsCallsign-Printable d hd) tt))
      (refl, hl)
render-Printable s d (c ∷ path) payload hs hd hp hl =
    let P = λ (b : ℕ). is_control b ≡ false in
    let rest = comma ∷ (c ∷ path) in
    All-append P (s ++ gt ∷ (d ++ rest)) (colon_byte ∷ payload)
      (All-append P s (gt ∷ (d ++ rest)) (IsCallsign-Printable s hs)
        (refl, All-append P d rest (IsCallsign-Printable d hd) (refl, hp)))
      (refl, hl)

-- What a line must meet to be rendered and parsed again.
pub record Sendable (s d path payload : Bytes) : Type 0 where
  pub source_valid : IsCallsign s
  pub destination_valid : IsCallsign d
  pub path_framed : Lacks colon_byte path
  pub path_printable : Printable path
  pub payload_printable : Printable payload
  pub payload_present : payload ≢ []

-- A sendable line of at most 510 bytes parses to the fields that it was rendered from.
pub parse-render :
    (s d path payload : Bytes)
    → Sendable s d path payload
    → length (render s d path payload) ≤ 510
    → parse (render s d path payload)
      ≡ ok (record {
        raw = render s d path payload;
        source = s;
        destination = d;
        path = new path;
        payload = payload;
        colon = length (s ++ gt ∷ addressed d path);
      })
unfolding render
parse-render s d path payload h le =
    let whole = render s d path payload in
    let n = length-append (header_of s d path) (colon_byte ∷ payload) in
    let printable =
      render-Printable s d path payload h.source_valid h.destination_valid h.path_printable
        h.payload_printable in
    parse-parse_body whole (omega (arith, n)) le printable
    ∙ parse_body-cut (header_of s d path) payload
        (header-Lacks s d path h.source_valid h.destination_valid h.path_framed) h.payload_present
    ∙ parse_header-render whole s d path payload (length (header_of s d path)) h.source_valid
        h.destination_valid
