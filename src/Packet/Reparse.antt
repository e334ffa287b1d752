-- ===== src/Packet/Reparse.antt =====
-- The rewritten line that dispatch parses again.
use aprsr.Prelude.{
  ◌<◌, ◌≤◌, [], ◌∷◌, ◌++◌, length, All-right, ok, err, ◌≡◌, refl, arith, subst, inl, inr, is_empty,
  false,
}
use aprsr.Bytes.{Bytes, Lacks}
use aprsr.Digipath.{new, comma}
use aprsr.Packet.{Packet, too_long, gt, colon_byte, parse, with_path, is_control}
use aprsr.Packet.Render.{Printable, render, addressed, with_path-render, Sendable, parse-render}
use aprsr.Packet.Framing.{Framed, parse-Framed}

payload-Printable :
    (raw header payload : Bytes)
    → raw ≡ header ++ colon_byte ∷ payload
    → Printable raw
    → Printable payload
payload-Printable raw header payload e h =
    (All-right (λ b. is_control b ≡ false) header (colon_byte ∷ payload) (subst Printable e h)).1

Framed-payload : (raw : Bytes) (p : Packet) → Framed raw p → Printable p.payload
unfolding render
Framed-payload raw p f = elim f.spells [
  | inl e ↦
      payload-Printable raw (p.source ++ gt ∷ addressed p.destination p.path.raw) p.payload e
        f.printable
  | inr (_, e) ↦
      payload-Printable raw (p.source ++ gt ∷ (p.destination ++ comma ∷ [])) p.payload e f.printable
]

-- A parsed packet that is rendered with a new path parses again, to the same packet with that path,
-- if the path has no colon and no control character and the line keeps to 510 bytes.
pub parse-with_path :
    (raw : Bytes) (p : Packet) (path : Bytes)
    → parse raw ≡ ok p
    → Lacks colon_byte path
    → Printable path
    → length (with_path p path) ≤ 510
    → parse (with_path p path)
      ≡ ok (record {
        raw = with_path p path;
        source = p.source;
        destination = p.destination;
        path = new path;
        payload = p.payload;
        colon = length (p.source ++ gt ∷ addressed p.destination path);
      })
parse-with_path raw p path h framed printable fits =
    let f = parse-Framed raw p h in
    let sendable : Sendable p.source p.destination path p.payload = record {
      source_valid = f.source_valid;
      destination_valid = f.destination_valid;
      path_framed = framed;
      path_printable = printable;
      payload_printable = Framed-payload raw p f;
      payload_present = f.payload_present;
    } in
    rw (with_path-render p path) (
      parse-render p.source p.destination path p.payload sendable
        (subst (λ t. length t ≤ 510) (with_path-render p path) fits))

present : (s : Bytes) → 510 < length s → is_empty s ≡ false
present [] h = absurd (omega arith)
present (c ∷ s) h = refl

-- A line that a new path makes longer than 510 bytes is refused, although the packet that it comes
-- from was accepted.
pub parse-with_path_too_long :
    (p : Packet) (path : Bytes)
    → 510 < length (with_path p path)
    → parse (with_path p path) ≡ err (too_long (length (with_path p path)))
unfolding parse
parse-with_path_too_long p path h = ground (arith, present (with_path p path) h)
