-- ===== src/Qconstruct/Letters.antt =====
-- The bytes of a rewritten path: those of the old path, of the callsigns and of the codes.
use mathlib.Core.Option
use aprsr.Prelude.{
  ℕ, zero, suc, ◌+◌, min, List, [], ◌∷◌, ◌++◌, Option, none, some, Bool, true, false, not, leb,
  take, length, keep, is_empty, if-elim, ◌==◌, All, All-append, All-left, ◌≡◌, ◌≢◌, ◌-◌, refl, sym,
  ap, subst, arith, Bool-cases, Option-cases, inl, inr,
}
use aprsr.Bytes.{
  Bytes, codes, split, split-ne_nil, strip_suffix, strip_suffix-some, get_to, unwrap_or,
  eq_ignore_ascii_case,
}
use aprsr.Digipath.{
  Hop, Digipath, hop_of, hops, is_named, comma, last_two, named_call, i_construct_of, i_construct,
  truncated_to,
}
use aprsr.Digipath.Hops.{fields_at, hops-fields}
use aprsr.Packet.{Packet}
use aprsr.Qconstruct.Code.{QCode, udp, unverified, non_gated, as_str, FoundQ}
use aprsr.Qconstruct.Apply.{
  QContext, QOutcome, unchanged, tagged, append, replace_at, replace_or_append, igate_offset,
  rewrite_i_construct, downgrade, relayed, own, tag_verified, tag,
}

split-at : (c x : ℕ) (s : Bytes) → (x == c) ≡ true → split c (x ∷ s) ≡ [] ∷ split c s
unfolding split
split-at c x s e = ground (arith, e)

split-first :
    (c x : ℕ) (s : Bytes)
    → (x == c) ≡ false
    → (q : Bytes) × (qs : List Bytes) × (split c s ≡ q ∷ qs) × (split c (x ∷ s) ≡ (x ∷ q) ∷ qs)
unfolding split
split-first c x s e = first (split c s) refl (split-ne_nil c s)
  where
    first :
        (ps : List Bytes)
        → split c s ≡ ps
        → ps ≢ []
        → (q : Bytes) × (qs : List Bytes) × (split c s ≡ q ∷ qs) × (split c (x ∷ s) ≡ (x ∷ q) ∷ qs)
    first [] f n = absurd (n refl)
    first (q ∷ qs) f n = (q, qs, f, ground (arith, e, f))

module _ (P : ℕ → Type 0) (p_comma : P comma) (p_code : (c : QCode) → All P (as_str c)) where
  split-All : (c : ℕ) (s : Bytes) → All P s → All (All P) (split c s)
  unfolding split
  split-All c [] a = (tt, tt)
  split-All c (x ∷ s) (px, a) = elim (Bool-cases (x == c)) [
    | inl e ↦ subst (All (All P)) (sym (split-at c x s e)) (tt, split-All c s a)
    | inr e ↦
        let (q, qs, f, g) = split-first c x s e in
        subst (All (All P)) (sym g)
          (let (aq, more) = subst (All (All P)) f (split-All c s a) in ((px, aq), more))
  ]

  hop_of-All : (f : Bytes) (o : ℕ) → All P f → All P (hop_of f o).call
  unfolding hop_of
  hop_of-All f o a = elim (Option-cases (strip_suffix b'*' f)) [
    | inl e ↦ subst (All P) (ground (arith, e)) a
    | inr (t, e) ↦
        let call : t ≡ (hop_of f o).call = ground (arith, e) in
        subst (All P) call
          (All-left P t (b'*' ∷ []) (subst (All P) (strip_suffix-some b'*' f t e) a))
  ]

  fields_at-All :
      (o : ℕ) (fs : List Bytes) → All (All P) fs → All (λ (h : Hop). All P h.call) (fields_at o fs)
  unfolding fields_at
  fields_at-All o [] a = tt
  fields_at-All o (f ∷ fs) (af, a) = (hop_of-All f o af, fields_at-All (o + length f + 1) fs a)

  keep-All :
      (p : Hop → Bool) (hs : List Hop)
      → All (λ (h : Hop). All P h.call) hs
      → All (λ (h : Hop). All P h.call) (keep p hs)
  keep-All p [] a = tt
  keep-All p (h ∷ hs) (ah, a) =
      if-elim (All (λ (h : Hop). All P h.call)) (p h) (h ∷ keep p hs) (keep p hs)
        (λ _. (ah, keep-All p hs a)) (λ _. keep-All p hs a)

  hops-All : (path : Digipath) → All P path.raw → All (λ (h : Hop). All P h.call) (hops path)
  hops-All path a = subst (All (λ (h : Hop). All P h.call)) (sym (hops-fields path.raw)) (
      keep-All is_named (fields_at 0 (split comma path.raw))
        (fields_at-All 0 (split comma path.raw) (split-All comma path.raw a)))

  abbrev MaybeHop : Option Hop → Type 0
  MaybeHop none = Unit
  MaybeHop (some h) = All P h.call

  last_two-All :
      (previous last : Option Hop) (hs : List Hop)
      → MaybeHop previous
      → MaybeHop last
      → All (λ (h : Hop). All P h.call) hs
      → MaybeHop (last_two previous last hs).0
  unfolding last_two
  last_two-All previous last [] ap al a = ap
  last_two-All previous last (h ∷ hs) ap al (ah, a) = last_two-All last (some h) hs al ah a

  i_construct_of-All :
      (two : Option Hop × Option Hop) (igate : Bytes)
      → MaybeHop two.0
      → i_construct_of two ≡ some igate
      → All P igate
  unfolding i_construct_of named_call Option.bind
  i_construct_of-All (previous, none) igate a e = cc
  i_construct_of-All (none, some last) igate a e =
      if-elim (λ (r : Option Bytes). r ≡ some igate → All P igate)
        (not (eq_ignore_ascii_case last.call (codes "I"))) none none (λ _ k. cc) (λ _ k. cc) e
  i_construct_of-All (some h, some last) igate a e = subst (All P) (ground arith) a

  i_construct-All :
      (path : Digipath) (igate : Bytes)
      → All P path.raw
      → i_construct path ≡ some igate
      → All P igate
  unfolding i_construct
  i_construct-All path igate a e =
      i_construct_of-All (last_two none none (hops path)) igate
        (last_two-All none none (hops path) tt tt (hops-All path a)) e

  take-All : (n : ℕ) (s : Bytes) → All P s → All P (take n s)
  take-All zero s a = tt
  take-All (suc n) [] a = tt
  take-All (suc n) (c ∷ s) (pc, a) = (pc, take-All n s a)

  truncated_to-All : (path : Digipath) (o : ℕ) → All P path.raw → All P (truncated_to path o)
  unfolding truncated_to get_to
  truncated_to-All path o a =
      if-elim (λ (r : Option Bytes). All P (unwrap_or r []))
        (leb (min (o - 1) (length path.raw)) (length path.raw))
        (some (take (min (o - 1) (length path.raw)) path.raw)) none
        (λ _. take-All (min (o - 1) (length path.raw)) path.raw a) (λ _. tt)

  tagged-All :
      (head : Bytes) (c : QCode) (call : Bytes)
      → All P head
      → All P call
      → All P (tagged head c call)
  unfolding tagged
  tagged-All head c call ah ac =
      let last = All-append P (as_str c) (comma ∷ call) (p_code c) (p_comma, ac) in
      if-elim (All P) (is_empty head) (as_str c ++ comma ∷ call)
        (head ++ comma ∷ (as_str c ++ comma ∷ call)) (λ _. last)
        (λ _. All-append P head (comma ∷ (as_str c ++ comma ∷ call)) ah (p_comma, last))

  replace_or_append-All :
      (path : Digipath) (q : Option FoundQ) (c : QCode) (call : Bytes)
      → All P path.raw
      → All P call
      → All P (replace_or_append path q c call).path
  unfolding replace_or_append replace_at append
  replace_or_append-All path none c call a ac = tagged-All path.raw c call a ac
  replace_or_append-All path (some q) c call a ac =
      tagged-All (truncated_to path q.offset) c call (truncated_to-All path q.offset a) ac

  relayed-All :
      (path : Digipath) (q : Option FoundQ) (ctx : QContext)
      → All P path.raw
      → All P ctx.login
      → All P (relayed path q ctx).path
  unfolding relayed append replace_at unchanged
  relayed-All path none ctx a al = tagged-All path.raw non_gated ctx.login a al
  relayed-All path (some q) ctx a al = elim (Option-cases (downgrade q.code)) [
    | inl e ↦ subst (All P) (ground (arith, e)) a
    | inr (c, e) ↦
        subst (All P) (ground (arith, e)) (
          tagged-All (truncated_to path q.offset) c ctx.login (truncated_to-All path q.offset a) al)
  ]

  own-All :
      (path : Digipath) (q : Option FoundQ) (ctx : QContext)
      → All P path.raw
      → All P ctx.server_id
      → All P (own path q ctx).path
  unfolding own append unchanged
  own-All path (some q) ctx a s = a
  own-All path none ctx a s = tagged-All path.raw _ ctx.server_id a s

  tag_verified-All :
      (packet : Packet) (q : Option FoundQ) (ctx : QContext) (igate : Option Bytes)
      → i_construct packet.path ≡ igate
      → All P packet.path.raw
      → All P ctx.login
      → All P ctx.server_id
      → All P (tag_verified packet q ctx igate).path
  unfolding tag_verified rewrite_i_construct replace_at
  tag_verified-All packet q ctx (some igate) e a l s =
      tagged-All (truncated_to packet.path (igate_offset (hops packet.path))) _ igate
        (truncated_to-All packet.path (igate_offset (hops packet.path)) a)
        (i_construct-All packet.path igate a e)
  tag_verified-All packet q ctx none e a l s =
      if-elim (λ (o : QOutcome). All P o.path) (not (eq_ignore_ascii_case packet.source ctx.login))
        (relayed packet.path q ctx) (own packet.path q ctx) (λ _. relayed-All packet.path q ctx a l)
        (λ _. own-All packet.path q ctx a s)

  -- Every byte of the path that `tag` gives a packet satisfies what the bytes of its old path, the
  -- login and the server's callsign, the comma and the letters of the codes satisfy.
  pub tag-All :
      (packet : Packet) (q : Option FoundQ) (ctx : QContext)
      → All P packet.path.raw
      → All P ctx.login
      → All P ctx.server_id
      → All P (tag packet q ctx).path
  unfolding tag
  tag-All packet q ctx a l s =
      if-elim (λ (o : QOutcome). All P o.path) ctx.via_udp _ _
        (λ _. replace_or_append-All packet.path q udp ctx.server_id a s)
        (λ _.
          if-elim (λ (o : QOutcome). All P o.path) (not ctx.verified)
            (replace_or_append packet.path q unverified ctx.server_id)
            (tag_verified packet q ctx (i_construct packet.path))
            (λ _. replace_or_append-All packet.path q unverified ctx.server_id a s)
            (λ _. tag_verified-All packet q ctx (i_construct packet.path) refl a l s))
