-- ===== src/Server/Dispatch/Content.antt =====
-- What a delivered line carries.
use aprsr.Prelude.{
  ℕ, [], ◌∷◌, ◌++◌, Bool, true, false, ltb, ok, err, Result, length, All, All-left, All-right,
  append_assoc, any, ◌||◌, ◌==◌, ◌≡◌, ◌≢◌, refl, sym, ◌∙◌, subst, arith, Bool-cases, inl, inr,
}
use aprsr.Bytes.{Bytes, Lacks}
use aprsr.Digipath.{comma}
use aprsr.Packet.{Packet, PacketError, colon_byte, gt, is_control, parse, with_path}
use aprsr.Packet.Render.{Printable, render, addressed}
use aprsr.Packet.Framing.{Framed, parse-Framed}
use aprsr.Packet.Reparse.{parse-with_path, parse-with_path_too_long}
use aprsr.Qconstruct.Code.{
  QCode, verified_client, unverified, udp, gated_client_only, non_gated, server, remote_igate,
  verified_igate, internal, trace, as_str, find,
}
use aprsr.Qconstruct.Apply.{QReject, QContext, QOutcome, tag, apply_client}
use aprsr.Qconstruct.Letters.{tag-All}
use aprsr.Dupecheck.{Hasher, check}
use aprsr.Geo.{Floats}
use aprsr.Aprs.{ParsedPayload}
use aprsr.Server.Registry.{Channel}
use aprsr.Server.Dispatch.{
  Ingest, delivered, PositionStore, ServerState, context_of, received, rendered, finish, pass_on,
  check_duplicate, parsed_line, process,
}

-- A byte that may stand in a path: no colon and no control character.
abbrev pub InPath : ℕ → Type 0
InPath c = (c ≢ colon_byte) × (is_control c ≡ false)

abbrev not_in_path : ℕ → Bool
not_in_path c = (c == colon_byte) || is_control c

test-InPath : (s : Bytes) → any not_in_path s ≡ false → All InPath s
test-InPath [] h = tt
test-InPath (c ∷ s) h = (((λ e. ground arith), ground arith), test-InPath s (ground arith))

code-test : (c : QCode) → any not_in_path (as_str c) ≡ false
unfolding as_str
code-test verified_client = refl
code-test unverified = refl
code-test udp = refl
code-test gated_client_only = refl
code-test non_gated = refl
code-test server = refl
code-test remote_igate = refl
code-test verified_igate = refl
code-test internal = refl
code-test trace = refl

code-InPath : (c : QCode) → All InPath (as_str c)
code-InPath c = test-InPath (as_str c) (code-test c)

InPath-Lacks : (s : Bytes) → All InPath s → Lacks colon_byte s × Printable s
InPath-Lacks [] a = (tt, tt)
InPath-Lacks (c ∷ s) ((n, p), a) = let (l, q) = InPath-Lacks s a in ((n, l), (p, q))

Lacks-InPath : (s : Bytes) → Lacks colon_byte s → Printable s → All InPath s
Lacks-InPath [] l p = tt
Lacks-InPath (c ∷ s) (n, l) (q, p) = ((n, q), Lacks-InPath s l p)

-- The path of a parsed packet.
path-Printable : (d path rest : Bytes) → Printable (addressed d path ++ rest) → Printable path
unfolding addressed
path-Printable d [] rest p = tt
path-Printable d (c ∷ path) rest p =
    (All-right (λ b. is_control b ≡ false) d (comma ∷ c ∷ path)
      (All-left (λ b. is_control b ≡ false) (d ++ comma ∷ c ∷ path) rest p)).1

Framed-InPath : (raw : Bytes) (p : Packet) → Framed raw p → All InPath p.path.raw
unfolding render
Framed-InPath raw p f = elim f.spells [
  | inl e ↦
      let printable =
        subst Printable
          (e
            ∙ append_assoc p.source (gt ∷ addressed p.destination p.path.raw)
                (colon_byte ∷ p.payload))
          f.printable in
      Lacks-InPath p.path.raw f.path_framed (
        path-Printable p.destination p.path.raw (colon_byte ∷ p.payload)
          (All-right (λ b. is_control b ≡ false) p.source
            (gt ∷ (addressed p.destination p.path.raw ++ colon_byte ∷ p.payload)) printable).1)
  | inr (e, _) ↦ subst (All InPath) (sym e) tt
]

tagged-path :
    (p : Packet) (ctx : QContext) (out : QOutcome)
    → apply_client p ctx ≡ ok out
    → tag p (find p.path) ctx ≡ out
unfolding apply_client
tagged-path p ctx out e = ground arith

-- The fields that a delivered packet keeps.
abbrev pub SameContent : Packet → Packet → Type 0
SameContent a b = (a.source ≡ b.source) × (a.destination ≡ b.destination) × (a.payload ≡ b.payload)

rewritten-content :
    (raw : Bytes) (p final : Packet) (path : Bytes)
    → parse raw ≡ ok p
    → All InPath path
    → parse (with_path p path) ≡ ok final
    → SameContent final p
rewritten-content raw p final path e a f = elim (Bool-cases (ltb 510 (length (with_path p path)))) [
  | inl long ↦
      let refused = parse-with_path_too_long p path (ground (arith, long)) in
      absurd (cc (f, refused))
  | inr short ↦
      let (l, q) = InPath-Lacks path a in
      let read = parse-with_path raw p path e l q (ground (arith, short)) in
      (ground (arith, f, read), ground (arith, f, read), ground (arith, f, read))
]

module _ (floats : Floats) (channel : Channel) (positions : PositionStore floats.f64)
    (hasher : Hasher) (parse_payload : Packet → ParsedPayload floats.f64) where
  abbrev State : Type 0
  State = ServerState floats channel positions hasher parse_payload

  finish-delivered :
      (ingest : Ingest) (outcome : QOutcome) (line : Bytes) (now : ℕ) (s : State)
      (r : Result Packet PacketError) (l : Bytes) (code : QCode)
      → (finish floats channel positions hasher parse_payload ingest outcome line now s r).1
        ≡ delivered l code
      → (final : Packet) × (r ≡ ok final) × (line ≡ l)
  unfolding finish
  finish-delivered ingest outcome line now s (err e) l code h = absurd (ground arith)
  finish-delivered ingest outcome line now s (ok final) l code h = (final, refl, ground arith)

  pass_on-delivered :
      (ingest : Ingest) (p : Packet) (now : ℕ) (s : State) (r : Result QOutcome QReject) (l : Bytes)
      (code : QCode)
      → (pass_on floats channel positions hasher parse_payload ingest p now s r).1
        ≡ delivered l code
      → (outcome : QOutcome) × (final : Packet) × (r ≡ ok outcome)
        × (parse l ≡ ok final)
        × (rendered floats channel positions hasher parse_payload ingest p outcome ≡ l)
  unfolding pass_on
  pass_on-delivered ingest p now s (err e) l code h = absurd (ground arith)
  pass_on-delivered ingest p now s (ok outcome) l code h =
      let line = rendered floats channel positions hasher parse_payload ingest p outcome in
      let (final, e, same) = finish-delivered ingest outcome line now s (parse line) l code h in
      (outcome, final, refl, subst (λ t. parse t ≡ ok final) same e, same)

  parsed-delivered :
      (ingest : Ingest) (now : ℕ) (s : State) (r : Result Packet PacketError) (l : Bytes)
      (code : QCode)
      → (parsed_line floats channel positions hasher parse_payload ingest now s r).1
        ≡ delivered l code
      → (p : Packet) × (outcome : QOutcome) × (final : Packet) × (r ≡ ok p)
        × (apply_client p (context_of floats channel positions hasher parse_payload ingest s)
            ≡ ok outcome)
        × (parse l ≡ ok final)
        × (rendered floats channel positions hasher parse_payload ingest p outcome ≡ l)
  unfolding parsed_line check_duplicate
  parsed-delivered ingest now s (err e) l code h = absurd (ground arith)
  parsed-delivered ingest now s (ok p) l code h =
      let checked : State = record s { dupecheck = (check hasher s.dupecheck p now).0 } in
      let ctx = context_of floats channel positions hasher parse_payload ingest s in
      elim (Bool-cases (check hasher s.dupecheck p now).1) [
        | inl seen ↦ absurd (ground (arith, h, seen))
        | inr fresh ↦
            let (outcome, final, a, b, c) =
              pass_on-delivered ingest p now checked (apply_client p ctx) l code
                (ground (arith, h, fresh)) in
            (p, outcome, final, refl, a, b, c)
      ]

  kept-content :
      (ingest : Ingest) (s : State) (p final : Packet) (outcome : QOutcome) (line : Bytes)
      → All InPath ingest.login
      → All InPath s.server_id
      → parse ingest.line ≡ ok p
      → apply_client p (context_of floats channel positions hasher parse_payload ingest s)
        ≡ ok outcome
      → parse line ≡ ok final
      → rendered floats channel positions hasher parse_payload ingest p outcome ≡ line
      → SameContent final p
  unfolding rendered
  kept-content ingest s p final outcome line login id e accepted f same =
      let ctx = context_of floats channel positions hasher parse_payload ingest s in
      let path : All InPath outcome.path =
        subst (λ (o : QOutcome). All InPath o.path) (tagged-path p ctx outcome accepted)
          (tag-All InPath ((λ e. cc), refl) code-InPath p (find p.path) ctx
            (Framed-InPath ingest.line p (parse-Framed ingest.line p e)) login id) in
      elim (Bool-cases outcome.rewritten) [
        | inl r ↦
            let is_line : with_path p outcome.path ≡ line = ground (arith, r, same) in
            rewritten-content ingest.line p final outcome.path e path
              (subst (λ t. parse t ≡ ok final) (sym is_line) f)
        | inr r ↦
            let is_line : line ≡ ingest.line = ground (arith, r, same) in
            let again = subst (λ t. parse t ≡ ok final) is_line f in
            (ground (arith, again, e), ground (arith, again, e), ground (arith, again, e))
      ]

  -- A delivered line comes from a verified sender and a line that parses, and it parses itself, to a
  -- packet of the same source, destination and payload: the server rewrites the path only. The login
  -- and the server's callsign are taken to have no colon and no control character.
  pub delivered-content :
      (ingest : Ingest) (now : ℕ) (s : State) (line : Bytes) (code : QCode)
      → All InPath ingest.login
      → All InPath s.server_id
      → (process floats channel positions hasher parse_payload ingest now s).1 ≡ delivered line code
      → (ingest.verified ≡ true)
        × ((p : Packet) × (final : Packet) × (parse ingest.line ≡ ok p)
            × (parse line ≡ ok final)
            × SameContent final p)
  unfolding process received
  delivered-content ingest now s line code login id h = elim (Bool-cases ingest.verified) [
    | inr v ↦ absurd (ground (arith, h, v))
    | inl v ↦
        let s' = received floats channel positions hasher parse_payload ingest s in
        let (p, outcome, final, e, accepted, f, same) =
          parsed-delivered ingest now s' (parse ingest.line) line code (ground (arith, h, v)) in
        (
          v,
          (p, final, e, f, kept-content ingest s' p final outcome line login id e accepted f same),
        )
  ]
