-- ===== src/Qconstruct/Loop.antt =====
-- Loop protection: a packet that this server has tagged does not enter again.
use aprsr.Prelude.{
  ◌<◌, List, [], ◌∷◌, ◌++◌, Option, none, some, Bool, true, false, not, ◌&&◌, ltb, any, map, ◌≡◌,
  refl, sym, ap, ◌∙◌, append_assoc, arith, Option-cases, inl, inr, ok, err, ◌⊎◌, if◌then◌else◌,
  if-elim, All,
}
use aprsr.Bytes.{
  Bytes, to_ascii_lowercase, strip_suffix-Lacks, eq_ignore_ascii_case, SameIgnoringCase,
  eq_ignore_ascii_case_complete,
}
use aprsr.Callsign.Grammar.{IsCallsign}
use aprsr.Callsign.Alphabet.{IsCallsign-Lacks, IsCallsign-is_empty}
use aprsr.Digipath.{Hop, Digipath, new, hops, hop_of, comma, i_construct, truncated_to}
use aprsr.Digipath.Calls.{call_of, calls, calls-field, calls-hops}
use aprsr.Digipath.Order.{hops-Below}
use aprsr.Packet.{Packet}
use aprsr.Qconstruct.Code.{
  QCode, udp, unverified, non_gated, verified_client, as_str, parse, FoundQ, find, find_in,
  next_call, parse-as_str,
}
use aprsr.Qconstruct.Apply.{
  QContext, QOutcome, QReject, tagged, append, replace_at, replace_or_append, tag, apply_client,
  reject_existing, loops_back, own, tag_verified,
}
use aprsr.Qconstruct.Recorded.{calls-tagged}

-- With a construct somewhere before `s`, the construct that is found stands before `s`.
find_in-before :
    (xs mid ys : List Hop) (h s : Hop) (code : QCode)
    → All (λ (t : Hop). t.offset < s.offset) (xs ++ h ∷ mid)
    → parse h.call ≡ some code
    → (q : FoundQ) × (find_in (xs ++ h ∷ ys) ≡ some q) × (q.offset < s.offset)
unfolding find_in
find_in-before [] mid ys h s code (lt, _) e =
    (record { code = code; offset = h.offset; call = next_call ys }, rw (e, find_in), lt)
find_in-before (x ∷ xs) mid ys h s code (lt, below) e = elim (Option-cases (parse x.call)) [
  | inl n ↦ let (q, f, o) = find_in-before xs mid ys h s code below e in (q, rw (n, find_in) f, o)
  | inr (c, n) ↦
      (record { code = c; offset = x.offset; call = next_call (xs ++ h ∷ ys) }, rw (n, find_in), lt)
]

any-middle {ℓ} :
    {A : Type ℓ} (p : A → Bool) (xs : List A) (a : A) (ys : List A)
    → p a ≡ true
    → any p (xs ++ a ∷ ys) ≡ true
any-middle p [] a ys h = ground arith
any-middle p (x ∷ xs) a ys h = ground (arith, any-middle p xs a ys h)

loops_back-true :
    (path : Digipath) (q : FoundQ) (sid : Bytes) (xs ys : List Hop) (s : Hop)
    → hops path ≡ xs ++ s ∷ ys
    → q.offset < s.offset
    → SameIgnoringCase s.call sid
    → loops_back path q sid ≡ true
unfolding loops_back
loops_back-true path q sid xs ys s e lt same =
    let test = λ (t : Hop). ltb q.offset t.offset && eq_ignore_ascii_case t.call sid in
    let behind : test s ≡ true = ground (arith, eq_ignore_ascii_case_complete s.call sid same) in
    ap (any test) e ∙ any-middle test xs s ys behind

reject_loop :
    (path : Digipath) (q : FoundQ) (ctx : QContext)
    → loops_back path q ctx.server_id ≡ true
    → (r : QReject) × (reject_existing path (some q) ctx ≡ some r)
unfolding reject_existing
reject_loop path q ctx h = elim (Option-cases (reject_existing path (some q) ctx)) [
  | inl n ↦ absurd (ground arith)
  | inr found ↦ found
]

apply_client-reject :
    (packet : Packet) (ctx : QContext) (q : FoundQ) (r : QReject)
    → find packet.path ≡ some q
    → reject_existing packet.path (some q) ctx ≡ some r
    → apply_client packet ctx ≡ err r
unfolding apply_client
apply_client-reject packet ctx q r f e = ground arith

find-before :
    (path : Digipath) (xs mid ys : List Hop) (h s : Hop) (code : QCode)
    → hops path ≡ (xs ++ h ∷ mid) ++ s ∷ ys
    → parse h.call ≡ some code
    → (q : FoundQ) × (find path ≡ some q) × (q.offset < s.offset)
unfolding find
find-before path xs mid ys h s code e names =
    let below = hops-Below path.raw (xs ++ h ∷ mid) ys s e in
    let (q, f, lt) = find_in-before xs mid (mid ++ s ∷ ys) h s code below names in
    (q, ap find_in (e ∙ append_assoc xs (h ∷ mid) (s ∷ ys)) ∙ f, lt)

-- A packet whose path carries a construct and, anywhere behind it, this server's own callsign is
-- rejected, whatever connection it arrives on.
pub apply_client-loop :
    (packet : Packet) (ctx : QContext) (xs mid ys : List Hop) (h s : Hop) (code : QCode)
    → hops packet.path ≡ (xs ++ h ∷ mid) ++ s ∷ ys
    → parse h.call ≡ some code
    → SameIgnoringCase s.call ctx.server_id
    → (r : QReject) × (apply_client packet ctx ≡ err r)
apply_client-loop packet ctx xs mid ys h s code e names same =
    let (q, f, lt) = find-before packet.path xs mid ys h s code e names in
    let back = loops_back-true packet.path q ctx.server_id (xs ++ h ∷ mid) ys s e lt same in
    let (r, rejected) = reject_loop packet.path q ctx back in
    (r, apply_client-reject packet ctx q r f rejected)

map-cons {ℓ κ} :
    {A : Type ℓ} {B : Type κ} (f : A → B) (hs : List A) (y : B) (ys : List B)
    → map f hs ≡ y ∷ ys
    → (h : A) × (gs : List A) × (hs ≡ h ∷ gs) × (f h ≡ y) × (map f gs ≡ ys)
map-cons f [] y ys e = cc
map-cons f (h ∷ gs) y ys e = (h, gs, refl, cc, cc)

map-middle {ℓ κ} :
    {A : Type ℓ} {B : Type κ} (f : A → B) (xs : List B) (hs : List A) (y : B) (ys : List B)
    → map f hs ≡ xs ++ y ∷ ys
    → (as' : List A) × (b : A) × (bs : List A) × (hs ≡ as' ++ b ∷ bs) × (f b ≡ y) × (map f bs ≡ ys)
map-middle f [] hs y ys e =
    let (h, gs, eh, ef, em) = map-cons f hs y ys e in ([], h, gs, eh, ef, em)
map-middle f (x ∷ xs) hs y ys e =
    let (h, gs, eh, _, em) = map-cons f hs x (xs ++ y ∷ ys) e in
    let (as', b, bs, eb, ef, ey) = map-middle f xs gs y ys em in
    (h ∷ as', b, bs, eh ∙ ap (λ t. h ∷ t) eb, ef, ey)

calls-IsCallsign : (sid : Bytes) → IsCallsign sid → calls sid ≡ sid ∷ []
unfolding hop_of
calls-IsCallsign sid h =
    calls-field sid (IsCallsign-Lacks sid comma h refl)
    ∙ ground (
      arith,
      strip_suffix-Lacks b'*' sid (IsCallsign-Lacks sid b'*' h refl),
      IsCallsign-is_empty sid h,
    )

-- A path that this server tagged with its own callsign is rejected on every later entry.
tagged-rejected :
    (packet : Packet) (ctx : QContext) (head : Bytes) (code : QCode) (sid : Bytes)
    → IsCallsign sid
    → packet.path ≡ new (tagged head code sid)
    → ctx.server_id ≡ sid
    → (r : QReject) × (apply_client packet ctx ≡ err r)
tagged-rejected packet ctx head code sid valid e own_id =
    let all : map call_of (hops packet.path) ≡ calls head ++ as_str code ∷ sid ∷ [] =
      ap (λ p. map call_of (hops p)) e
      ∙ sym (calls-hops (tagged head code sid))
      ∙ calls-tagged head code sid
      ∙ ap (λ t. calls head ++ as_str code ∷ t) (calls-IsCallsign sid valid) in
    let (xs, h, gs, eh, eq, es) =
      map-middle call_of (calls head) (hops packet.path) (as_str code) (sid ∷ []) all in
    let (s, ys, et, ec, _) = map-cons call_of gs sid [] es in
    let placed : hops packet.path ≡ (xs ++ h ∷ []) ++ s ∷ ys =
      eh ∙ ap (λ t. xs ++ h ∷ t) et ∙ sym (append_assoc xs (h ∷ []) (s ∷ ys)) in
    apply_client-loop packet ctx xs [] ys h s code placed (ap parse eq ∙ parse-as_str code)
      (ap (map to_ascii_lowercase) (ec ∙ sym own_id))

-- The connections on which the server tags with its own callsign: UDP, an unverified login, and a
-- verified station's own packet that has neither a construct nor a trailing `,I`.
abbrev TagsItself : Packet → QContext → Type 0
TagsItself packet ctx =
    (ctx.via_udp ≡ true)
    ⊎ (ctx.verified ≡ false)
    ⊎ ((find packet.path ≡ none)
        × (i_construct packet.path ≡ none)
        × (eq_ignore_ascii_case packet.source ctx.login ≡ true))

abbrev TaggedBy : QOutcome → Bytes → Type 0
TaggedBy out sid = (head : Bytes) × (code : QCode) × (out.path ≡ tagged head code sid)

replace_or_append-TaggedBy :
    (path : Digipath) (existing : Option FoundQ) (code : QCode) (call : Bytes)
    → TaggedBy (replace_or_append path existing code call) call
unfolding replace_or_append replace_at append
replace_or_append-TaggedBy path none code call = (path.raw, code, refl)
replace_or_append-TaggedBy path (some q) code call = (truncated_to path q.offset, code, refl)

own-TaggedBy :
    (packet : Packet) (ctx : QContext)
    → find packet.path ≡ none
    → i_construct packet.path ≡ none
    → eq_ignore_ascii_case packet.source ctx.login ≡ true
    → TaggedBy (tag_verified packet (find packet.path) ctx (i_construct packet.path)) ctx.server_id
unfolding tag_verified own append
own-TaggedBy packet ctx f i e =
    (packet.path.raw, if ctx.send_only then non_gated else verified_client, ground arith)

tag-TaggedBy :
    (packet : Packet) (ctx : QContext)
    → TagsItself packet ctx
    → TaggedBy (tag packet (find packet.path) ctx) ctx.server_id
unfolding tag
tag-TaggedBy packet ctx h =
    if-elim (λ out. TaggedBy out ctx.server_id) ctx.via_udp
      (replace_or_append packet.path (find packet.path) udp ctx.server_id)
      (if not ctx.verified
        then replace_or_append packet.path (find packet.path) unverified ctx.server_id
        else tag_verified packet (find packet.path) ctx (i_construct packet.path))
      (λ _. replace_or_append-TaggedBy packet.path (find packet.path) udp ctx.server_id)
      (λ tcp.
        if-elim (λ out. TaggedBy out ctx.server_id) (not ctx.verified)
          (replace_or_append packet.path (find packet.path) unverified ctx.server_id)
          (tag_verified packet (find packet.path) ctx (i_construct packet.path))
          (λ _. replace_or_append-TaggedBy packet.path (find packet.path) unverified ctx.server_id)
          (λ known. elim h [
            | inl u ↦ absurd (cc (u, tcp))
            | inr (inl v) ↦ absurd (cc (ap not v, known))
            | inr (inr (f, i, e)) ↦ own-TaggedBy packet ctx f i e
          ]))

-- What this server tagged with its own callsign it never accepts again: UDP and unverified traffic,
-- and a station's own packets, are rejected on every later entry with the path they were given.
pub apply_client-reentry :
    (packet again : Packet) (ctx later : QContext) (out : QOutcome)
    → IsCallsign ctx.server_id
    → (ctx.via_udp ≡ true)
      ⊎ (ctx.verified ≡ false)
      ⊎ ((find packet.path ≡ none)
          × (i_construct packet.path ≡ none)
          × (eq_ignore_ascii_case packet.source ctx.login ≡ true))
    → apply_client packet ctx ≡ ok out
    → again.path ≡ new out.path
    → later.server_id ≡ ctx.server_id
    → (r : QReject) × (apply_client again later ≡ err r)
unfolding apply_client
apply_client-reentry packet again ctx later out valid h accepted e own_id =
    let same : tag packet (find packet.path) ctx ≡ out = ground arith in
    let (head, code, t) = tag-TaggedBy packet ctx h in
    tagged-rejected again later head code ctx.server_id valid
      (e ∙ ap (λ (o : QOutcome). new o.path) (sym same) ∙ ap new t) own_id
