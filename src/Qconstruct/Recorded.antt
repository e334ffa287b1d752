-- ===== src/Qconstruct/Recorded.antt =====
-- The construct that `apply_client` reports is the one that the new path carries.
use Prim.Native.Nat.{min}
use mathlib.Core.Option
use mathlib.Core.List.{map-append}
use aprsr.Prelude.{
  ℕ, ◌-◌, length, subst, List, [], ◌∷◌, ◌++◌, Option, none, some, true, not, map, ◌≡◌, refl, sym,
  ap, ◌∙◌, arith, Option-cases, inl, inr, ok, ◌⊎◌, if◌then◌else◌, if-elim,
}
use aprsr.Bytes.{Bytes, strip_suffix, eq_ignore_ascii_case, get_to, get_to-append, unwrap_or}
use aprsr.Digipath.{Hop, Digipath, new, hops, hop_of, truncated_to, i_construct}
use aprsr.Digipath.Calls.{call_of, calls, calls-field, calls-comma, calls-nil, calls-hops}
use aprsr.Digipath.Cut.{calls-truncated_to}
use aprsr.Packet.{Packet}
use aprsr.Qconstruct.Code.{
  QCode, verified_client, unverified, udp, non_gated, remote_igate, verified_igate, as_str, FoundQ,
  find,
}
use aprsr.Qconstruct.Apply.{
  QContext, QOutcome, tagged, append, replace_at, replace_or_append, unchanged, igate_offset,
  rewrite_i_construct, relayed, own, tag, tag_verified, apply_client, downgrade,
}
use aprsr.Qconstruct.Found.{
  code_in, code_in-append, code_in-left, code_in-cons, code_in-nil, find_in-some, find-code,
}

pub calls-as_str : (code : QCode) → calls (as_str code) ≡ as_str code ∷ []
unfolding as_str hop_of strip_suffix
calls-as_str verified_client = calls-field (as_str verified_client) (omega arith)
calls-as_str code = calls-field (as_str code) (omega arith)

pub calls-tagged :
    (head : Bytes) (code : QCode) (call : Bytes)
    → calls (tagged head code call) ≡ calls head ++ as_str code ∷ calls call
unfolding tagged
calls-tagged [] code call = rw (calls-nil, calls-comma, calls-as_str)
calls-tagged (c ∷ head) code call = rw (calls-comma, calls-comma, calls-as_str)

tagged-code :
    (head : Bytes) (code : QCode) (call : Bytes)
    → code_in (calls head) ≡ none
    → code_in (calls (tagged head code call)) ≡ some code
tagged-code head code call h =
    ap code_in (calls-tagged head code call)
    ∙ code_in-append (calls head) (as_str code ∷ calls call) h
    ∙ code_in-cons code (calls call)

-- The path that an outcome hands on reads back as carrying its code.
abbrev pub Carries : QOutcome → Type 0
Carries out = Option.map (λ (q : FoundQ). q.code) (find (new out.path)) ≡ some out.code

tagged-Carries :
    (head : Bytes) (code : QCode) (call : Bytes)
    → code_in (calls head) ≡ none
    → Carries (record { code = code; path = tagged head code call; rewritten = true })
tagged-Carries head code call h = find-code (tagged head code call) ∙ tagged-code head code call h

no_code : (path : Digipath) → find path ≡ none → code_in (calls path.raw) ≡ none
no_code path n = sym (find-code path.raw) ∙ ap (Option.map (λ (q : FoundQ). q.code)) n

append-Carries :
    (path : Digipath) (code : QCode) (call : Bytes)
    → find path ≡ none
    → Carries (append path code call)
unfolding append
append-Carries path code call n = tagged-Carries path.raw code call (no_code path n)

replace_at-Carries :
    (path : Digipath) (found : FoundQ) (code : QCode) (call : Bytes)
    → find path ≡ some found
    → Carries (replace_at path found.offset code call)
unfolding replace_at find
replace_at-Carries path found code call e =
    let q = find_in-some (hops path) found e in
    let cut = calls-truncated_to path.raw q.before q.after q.at q.spelled in
    tagged-Carries (truncated_to path found.offset) code call
      (ap (λ o. code_in (calls (truncated_to path o))) q.offset_of ∙ ap code_in cut ∙ q.none_before)

replace_or_append-Carries :
    (path : Digipath) (existing : Option FoundQ) (code : QCode) (call : Bytes)
    → find path ≡ existing
    → Carries (replace_or_append path existing code call)
unfolding replace_or_append
replace_or_append-Carries path none code call e = append-Carries path code call e
replace_or_append-Carries path (some found) code call e = replace_at-Carries path found code call e

unchanged-Carries :
    (path : Digipath) (found : FoundQ)
    → find path ≡ some found
    → Carries (unchanged path found.code)
unfolding unchanged
unchanged-Carries path found e = ap (Option.map (λ (q : FoundQ). q.code)) e

-- The offset that the `,I` rule truncates at is 0 or that of a hop.
igate_offset-cases :
    (hs : List Hop)
    → (igate_offset hs ≡ 0)
      ⊎ ((before : List Hop) × (h : Hop) × (after : List Hop) × (hs ≡ before ++ h ∷ after)
          × (igate_offset hs ≡ h.offset))
unfolding igate_offset
igate_offset-cases [] = inl refl
igate_offset-cases (a ∷ []) = inl refl
igate_offset-cases (a ∷ b ∷ []) = inr ([], a, b ∷ [], refl, refl)
igate_offset-cases (a ∷ b ∷ c ∷ hs) = elim (igate_offset-cases (b ∷ c ∷ hs)) [
  | inl z ↦ inl z
  | inr (before, h, after, e, o) ↦ inr (a ∷ before, h, after, ap (λ t. a ∷ t) e, o)
]

truncated_to-zero : (path : Digipath) → truncated_to path 0 ≡ []
unfolding truncated_to
truncated_to-zero path =
    let m : min (0 - 1) (length path.raw) ≡ length {A = ℕ} [] = omega arith in
    ap (λ k. unwrap_or (get_to k path.raw) []) m
    ∙ ap (λ o. unwrap_or o []) (get_to-append [] path.raw)

igate_no_code :
    (path : Digipath)
    → find path ≡ none
    → code_in (calls (truncated_to path (igate_offset (hops path)))) ≡ none
igate_no_code path n = elim (igate_offset-cases (hops path)) [
  | inl z ↦
      ap (λ o. code_in (calls (truncated_to path o))) z
      ∙ ap (λ t. code_in (calls t)) (truncated_to-zero path)
      ∙ ap code_in calls-nil
      ∙ code_in-nil
  | inr (before, h, after, e, o) ↦
      let all : code_in (map call_of before ++ map call_of (h ∷ after)) ≡ none =
        sym (
          ap code_in
            (calls-hops path.raw ∙ ap (map call_of) e ∙ map-append call_of before (h ∷ after)))
        ∙ no_code path n in
      ap (λ k. code_in (calls (truncated_to path k))) o
      ∙ ap code_in (calls-truncated_to path.raw before after h e)
      ∙ code_in-left (map call_of before) (map call_of (h ∷ after)) all
]

rewrite_i-Carries :
    (path : Digipath) (code : QCode) (igate : Bytes)
    → find path ≡ none
    → Carries (rewrite_i_construct path code igate)
unfolding rewrite_i_construct replace_at
rewrite_i-Carries path code igate n =
    tagged-Carries (truncated_to path (igate_offset (hops path))) code igate (igate_no_code path n)

relayed-Carries :
    (path : Digipath) (existing : Option FoundQ) (ctx : QContext)
    → find path ≡ existing
    → Carries (relayed path existing ctx)
unfolding relayed
relayed-Carries path none ctx e = append-Carries path non_gated ctx.login e
relayed-Carries path (some found) ctx e = elim (Option-cases (downgrade found.code)) [
  | inl n ↦ rw (n, relayed) (unchanged-Carries path found e)
  | inr (code, n) ↦ rw (n, relayed) (replace_at-Carries path found code ctx.login e)
]

own-Carries :
    (path : Digipath) (existing : Option FoundQ) (ctx : QContext)
    → find path ≡ existing
    → Carries (own path existing ctx)
unfolding own
own-Carries path none ctx e =
    append-Carries path (if ctx.send_only then non_gated else verified_client) ctx.server_id e
own-Carries path (some found) ctx e = unchanged-Carries path found e

tag_verified-Carries :
    (packet : Packet) (existing : Option FoundQ) (ctx : QContext) (igate : Option Bytes)
    → find packet.path ≡ existing
    → (find packet.path ≡ none) ⊎ (igate ≡ none)
    → Carries (tag_verified packet existing ctx igate)
unfolding tag_verified
tag_verified-Carries packet existing ctx (some igate) e (inl n) =
    rewrite_i-Carries packet.path
      (if eq_ignore_ascii_case igate ctx.login then verified_igate else remote_igate) igate n
tag_verified-Carries packet existing ctx (some igate) e (inr n) = cc
tag_verified-Carries packet existing ctx none e side =
    if-elim Carries (not (eq_ignore_ascii_case packet.source ctx.login))
      (relayed packet.path existing ctx) (own packet.path existing ctx)
      (λ _. relayed-Carries packet.path existing ctx e)
      (λ _. own-Carries packet.path existing ctx e)

tag-Carries :
    (packet : Packet) (existing : Option FoundQ) (ctx : QContext)
    → find packet.path ≡ existing
    → (find packet.path ≡ none) ⊎ (i_construct packet.path ≡ none)
    → Carries (tag packet existing ctx)
unfolding tag
tag-Carries packet existing ctx e side =
    if-elim Carries ctx.via_udp (replace_or_append packet.path existing udp ctx.server_id)
      (if not ctx.verified
        then replace_or_append packet.path existing unverified ctx.server_id
        else tag_verified packet existing ctx (i_construct packet.path))
      (λ _. replace_or_append-Carries packet.path existing udp ctx.server_id e)
      (λ _.
        if-elim Carries (not ctx.verified)
          (replace_or_append packet.path existing unverified ctx.server_id)
          (tag_verified packet existing ctx (i_construct packet.path))
          (λ _. replace_or_append-Carries packet.path existing unverified ctx.server_id e)
          (λ _. tag_verified-Carries packet existing ctx (i_construct packet.path) e side))

-- The code that `apply_client` reports is the first construct on the path that it returns, unless
-- a path that already carries a construct also ends in the legacy `,I` pair.
pub apply_client-Carries :
    (packet : Packet) (ctx : QContext) (out : QOutcome)
    → apply_client packet ctx ≡ ok out
    → (find packet.path ≡ none) ⊎ (i_construct packet.path ≡ none)
    → Option.map (λ (q : FoundQ). q.code) (find (new out.path)) ≡ some out.code
unfolding apply_client
apply_client-Carries packet ctx out h side =
    let same : tag packet (find packet.path) ctx ≡ out = ground arith in
    subst Carries same (tag-Carries packet (find packet.path) ctx refl side)
