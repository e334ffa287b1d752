-- ===== src/Packet/Framing.antt =====
-- What `parse` accepts, and that rendering gives the line back.
use mathlib.Core.Path.{ap₂}
use aprsr.Prelude.{
  ℕ, ◌+◌, ◌≤◌, [], ◌∷◌, ◌++◌, none, some, length, All-right, ok, ◌≡◌, ◌≢◌, refl, sym, ap, ◌∙◌,
  arith, append-nil, subst, Option-cases, inl, inr, ◌⊎◌,
}
use aprsr.Bytes.{
  Bytes, Lacks, find, find-some, find-Lacks_append, get_to, get_from, get_to-append,
  get_from-append,
}
use aprsr.Callsign.{validate_for_packet}
use aprsr.Callsign.Grammar.{IsCallsign}
use aprsr.Callsign.Alphabet.{IsCallsign-of_valid}
use aprsr.Digipath.{new, comma}
use aprsr.Packet.{
  Packet, gt, colon_byte, first_control, split_destination, parse_header, parse_body, parse,
  with_path,
}
use aprsr.Packet.Render.{Printable, render, addressed, with_path-render}

first_control-none : (s : Bytes) → first_control s ≡ none → Printable s
unfolding first_control
first_control-none [] h = tt
first_control-none (b ∷ s) h = ground (arith, first_control-none s)

pub parse-body :
    (raw : Bytes) (p : Packet)
    → parse raw ≡ ok p
    → (length raw ≤ 510) × Printable raw × (parse_body raw ≡ ok p)
unfolding parse
parse-body [] p h = ground arith
parse-body (c ∷ raw) p h = ground (arith, first_control-none (c ∷ raw))

abbrev pub HeaderOf : Packet → Bytes → ℕ → Bytes → Bytes → Type 0
HeaderOf p raw colon header payload =
    (s : Bytes) × (a : Bytes) × (header ≡ s ++ gt ∷ a)
    × (validate_for_packet s ≡ ok tt)
    × (validate_for_packet (split_destination a).0 ≡ ok tt)
    × (p ≡ record {
      raw = raw;
      source = s;
      destination = (split_destination a).0;
      path = new (split_destination a).1;
      payload = payload;
      colon = colon;
    })

header_checked :
    (raw : Bytes) (colon : ℕ) (s a payload : Bytes) (p : Packet)
    → Lacks gt s
    → parse_header raw colon (s ++ gt ∷ a) payload ≡ ok p
    → (validate_for_packet s ≡ ok tt)
      × (validate_for_packet (split_destination a).0 ≡ ok tt)
      × (p ≡ record {
        raw = raw;
        source = s;
        destination = (split_destination a).0;
        path = new (split_destination a).1;
        payload = payload;
        colon = colon;
      })
unfolding parse_header
header_checked raw colon s a payload p lacks h =
    let f = find-Lacks_append gt s a lacks in
    let t = get_to-append s (gt ∷ a) in
    let g = get_from-append s gt a in (ground arith, ground arith, ground arith)

pub parse_header-HeaderOf :
    (raw : Bytes) (colon : ℕ) (header payload : Bytes) (p : Packet)
    → parse_header raw colon header payload ≡ ok p
    → HeaderOf p raw colon header payload
parse_header-HeaderOf raw colon header payload p h = elim (Option-cases (find gt header)) [
  | inl n ↦ absurd (unfold parse_header in ground arith)
  | inr (i, f) ↦
      let (s, a, e, lacks, _) = find-some gt header i f in
      let h' = subst (λ t. parse_header raw colon t payload ≡ ok p) e h in
      let (vs, vd, built) = header_checked raw colon s a payload p lacks h' in
      (s, a, e, vs, vd, built)
]

-- What a parsed packet says of its line.
pub record Framed (raw : Bytes) (p : Packet) : Type 0 where
  pub kept : p.raw ≡ raw
  pub fits : length raw ≤ 510
  pub source_valid : IsCallsign p.source
  pub destination_valid : IsCallsign p.destination
  pub payload_present : p.payload ≢ []
  pub printable : Printable raw
  pub path_framed : Lacks colon_byte p.path.raw
  -- the fields spell the line, but for the comma of an empty path
  pub spells :
      (raw ≡ render p.source p.destination p.path.raw p.payload)
      ⊎ ((p.path.raw ≡ [])
          × (raw ≡ (p.source ++ gt ∷ (p.destination ++ comma ∷ [])) ++ colon_byte ∷ p.payload))

-- The destination and the path spell what stands behind the `>`.
abbrev Addresses : Bytes → Type 0
Addresses a =
    (a ≡ addressed (split_destination a).0 (split_destination a).1)
    ⊎ (((split_destination a).1 ≡ []) × (a ≡ (split_destination a).0 ++ comma ∷ []))

pub split_destination-comma :
    (d path : Bytes) → Lacks comma d → split_destination (d ++ comma ∷ path) ≡ (d, path)
unfolding split_destination
split_destination-comma d path h = ground (
  arith,
  find-Lacks_append comma d path h,
  get_to-append d (comma ∷ path),
  get_from-append d comma path,
)

comma-Addresses : (d path : Bytes) → Lacks comma d → Addresses (d ++ comma ∷ path)
unfolding addressed
comma-Addresses d [] h = rw (split_destination-comma d [] h) (inr (refl, refl))
comma-Addresses d (c ∷ path) h = rw (split_destination-comma d (c ∷ path) h) (inl refl)

plain-Addresses : (a : Bytes) → find comma a ≡ none → Addresses a
unfolding split_destination addressed
plain-Addresses a n = rw (n, split_destination) (inl (sym (append-nil a)))

split-Addresses : (a : Bytes) → Addresses a
split-Addresses a = elim (Option-cases (find comma a)) [
  | inl n ↦ plain-Addresses a n
  | inr (i, f) ↦
      let (d, path, e, lacks, _) = find-some comma a i f in
      subst Addresses (sym e) (comma-Addresses d path lacks)
]

pub body-cut :
    (raw : Bytes) (p : Packet)
    → parse_body raw ≡ ok p
    → (header : Bytes) × (payload : Bytes) × (raw ≡ header ++ colon_byte ∷ payload)
      × Lacks colon_byte header
      × (payload ≢ [])
      × (parse_header raw (length header) header payload ≡ ok p)
unfolding parse_body
body-cut raw p h = elim (Option-cases (find colon_byte raw)) [
  | inl n ↦ absurd (ground arith)
  | inr (i, f) ↦
      let (header, payload, e, lacks, ei) = find-some colon_byte raw i f in
      let t : get_to i raw ≡ some header =
        ap₂ get_to ei e ∙ get_to-append header (colon_byte ∷ payload) in
      let g : get_from (i + 1) raw ≡ some payload =
        ap₂ get_from (ap (λ (n : ℕ). n + 1) ei) e ∙ get_from-append header colon_byte payload in
      (header, payload, e, lacks, ground arith, ground arith)
]

path-Lacks : (d path : Bytes) → Lacks colon_byte (addressed d path) → Lacks colon_byte path
unfolding addressed
path-Lacks d [] h = tt
path-Lacks d (c ∷ path) h = (All-right (λ x. x ≢ colon_byte) d (comma ∷ (c ∷ path)) h).1

spells_line :
    (raw header s a payload : Bytes)
    → raw ≡ header ++ colon_byte ∷ payload
    → header ≡ s ++ gt ∷ a
    → Addresses a
    → (raw ≡ render s (split_destination a).0 (split_destination a).1 payload)
      ⊎ (((split_destination a).1 ≡ [])
          × (raw ≡ (s ++ gt ∷ ((split_destination a).0 ++ comma ∷ [])) ++ colon_byte ∷ payload))
unfolding render
spells_line raw header s a payload e eh (inl ea) =
    inl (e ∙ ap (λ t. t ++ colon_byte ∷ payload) (eh ∙ ap (λ t. s ++ gt ∷ t) ea))
spells_line raw header s a payload e eh (inr (n, ea)) =
    inr (n, e ∙ ap (λ t. t ++ colon_byte ∷ payload) (eh ∙ ap (λ t. s ++ gt ∷ t) ea))

path_part-Lacks :
    (a : Bytes) → Lacks colon_byte a → Addresses a → Lacks colon_byte (split_destination a).1
path_part-Lacks a h (inl ea) =
    path-Lacks (split_destination a).0 (split_destination a).1 (subst (Lacks colon_byte) ea h)
path_part-Lacks a h (inr (n, _)) = subst (Lacks colon_byte) (sym n) tt

pub parse-Framed : (raw : Bytes) (p : Packet) → parse raw ≡ ok p → Framed raw p
parse-Framed raw p h =
    let (fits, printable, b) = parse-body raw p h in
    let (header, payload, e, lacks, ne, ph) = body-cut raw p b in
    let (s, a, eh, vs, vd, built) = parse_header-HeaderOf raw (length header) header payload p ph in
    subst (Framed raw) (sym built) (record {
      kept = refl;
      fits = fits;
      source_valid = IsCallsign-of_valid s vs;
      destination_valid = IsCallsign-of_valid (split_destination a).0 vd;
      payload_present = ne;
      printable = printable;
      path_framed =
          path_part-Lacks a
            (All-right (λ x. x ≢ colon_byte) s (gt ∷ a) (subst (Lacks colon_byte) eh lacks)).1
            (split-Addresses a);
      spells = spells_line raw header s a payload e eh (split-Addresses a);
    })

-- Rendering a parsed packet with its own path gives its line back, except where the line has an
-- empty path behind a comma: there the comma is dropped.
pub with_path-parse :
    (raw : Bytes) (p : Packet)
    → parse raw ≡ ok p
    → (with_path p p.path.raw ≡ raw)
      ⊎ ((p.path.raw ≡ [])
          × (raw ≡ (p.source ++ gt ∷ (p.destination ++ comma ∷ [])) ++ colon_byte ∷ p.payload))
with_path-parse raw p h = elim (parse-Framed raw p h).spells [
  | inl e ↦ inl (with_path-render p p.path.raw ∙ sym e)
  | inr e ↦ inr e
]
