-- ===== src/Qconstruct/Apply.antt =====
-- `apply_client`: the reject rules and the rules that tag a packet.
use aprsr.Prelude.{
  ℕ, ltb, List, [], ◌∷◌, ◌++◌, Option, none, some, Bool, true, false, not, ◌&&◌, any, is_empty,
  if◌then◌else◌, Result, ok, err,
}
use aprsr.Bytes.{Bytes, eq_ignore_ascii_case}
use aprsr.Digipath.{
  Hop, Digipath, hops, has_tcpip, i_construct, first_duplicate, truncated_to, comma,
}
use aprsr.Packet.{Packet}
use aprsr.Qconstruct.Code.{
  QCode, verified_client, unverified, udp, gated_client_only, non_gated, server, remote_igate,
  verified_igate, internal, as_str, FoundQ, find,
}

pub data QReject : Type 0 where
  internal_command qac_without_tcpip : QReject
  server_loop : Bytes → QReject
  duplicate_in_path : Bytes → QReject

pub record QContext : Type 0 where
  pub server_id : Bytes
  pub login : Bytes
  pub verified : Bool
  pub via_udp : Bool
  pub send_only : Bool

pub record QOutcome : Type 0 where
  pub code : QCode
  pub path : Bytes
  pub rewritten : Bool

unfoldable pub unchanged : Digipath → QCode → QOutcome
unchanged path code = record { code = code; path = path.raw; rewritten = false }

-- `format!("{head},{code},{call}")`, or `format!("{code},{call}")` where nothing stands before.
unfoldable pub tagged : Bytes → QCode → Bytes → Bytes
tagged head code call =
    if is_empty head
    then as_str code ++ comma ∷ call
    else head ++ comma ∷ (as_str code ++ comma ∷ call)

unfoldable pub append : Digipath → QCode → Bytes → QOutcome
append path code call = record { code = code; path = tagged path.raw code call; rewritten = true }

unfoldable pub replace_at : Digipath → ℕ → QCode → Bytes → QOutcome
replace_at path offset code call = record {
  code = code;
  path = tagged (truncated_to path offset) code call;
  rewritten = true;
}

unfoldable pub replace_or_append : Digipath → Option FoundQ → QCode → Bytes → QOutcome
replace_or_append path (some found) code call = replace_at path found.offset code call
replace_or_append path none code call = append path code call

-- The second-to-last offset, with `unwrap_or(0)`.
unfoldable pub igate_offset : List Hop → ℕ
igate_offset [] = 0
igate_offset (hop ∷ []) = 0
igate_offset (hop ∷ last ∷ []) = hop.offset
igate_offset (_ ∷ hop ∷ last ∷ rest) = igate_offset (hop ∷ last ∷ rest)

unfoldable pub rewrite_i_construct : Digipath → QCode → Bytes → QOutcome
rewrite_i_construct path code igate = replace_at path (igate_offset (hops path)) code igate

abbrev pub is_internal : QCode → Bool
is_internal internal = true
is_internal _ = false

abbrev pub is_verified_client : QCode → Bool
is_verified_client verified_client = true
is_verified_client _ = false

-- A hop behind the construct that is this server.
unfoldable pub loops_back : Digipath → FoundQ → Bytes → Bool
loops_back path found server_id =
    any (λ h. ltb found.offset h.offset && eq_ignore_ascii_case h.call server_id) (hops path)

-- Rule 1 for a path with a construct.
unfoldable pub reject_existing : Digipath → Option FoundQ → QContext → Option QReject
reject_existing path none ctx = none
reject_existing path (some found) ctx =
    if is_internal found.code
    then some internal_command
    else if is_verified_client found.code && not (has_tcpip path)
    then some qac_without_tcpip
    else if loops_back path found ctx.server_id
    then some (server_loop ctx.server_id)
    else none

unfoldable pub downgrade : QCode → Option QCode
downgrade verified_igate = some gated_client_only
downgrade remote_igate = some gated_client_only
downgrade server = some non_gated
downgrade verified_client = some non_gated
downgrade _ = none

-- Rule 5: a verified client relays the packet of another station.
unfoldable pub relayed : Digipath → Option FoundQ → QContext → QOutcome
relayed path none ctx = append path non_gated ctx.login
relayed path (some found) ctx = elim (downgrade found.code) [
  | some code ↦ replace_at path found.offset code ctx.login
  | none ↦ unchanged path found.code
]

-- Rule 6: a station's own packet.
unfoldable pub own : Digipath → Option FoundQ → QContext → QOutcome
own path (some found) ctx = unchanged path found.code
own path none ctx = append path (if ctx.send_only then non_gated else verified_client) ctx.server_id

-- Rules 4 to 6, for a verified client: the IGate of a trailing `,I`, if there is one.
unfoldable pub tag_verified : Packet → Option FoundQ → QContext → Option Bytes → QOutcome
tag_verified packet existing ctx (some igate) =
    rewrite_i_construct packet.path
      (if eq_ignore_ascii_case igate ctx.login then verified_igate else remote_igate) igate
tag_verified packet existing ctx none =
    if not (eq_ignore_ascii_case packet.source ctx.login)
    then relayed packet.path existing ctx
    else own packet.path existing ctx

-- Rules 2 to 6.
unfoldable pub tag : Packet → Option FoundQ → QContext → QOutcome
tag packet existing ctx =
    if ctx.via_udp
    then replace_or_append packet.path existing udp ctx.server_id
    else if not ctx.verified
    then replace_or_append packet.path existing unverified ctx.server_id
    else tag_verified packet existing ctx (i_construct packet.path)

unfoldable pub apply_client : Packet → QContext → Result QOutcome QReject
apply_client packet ctx =
    let existing = find packet.path in
    elim (reject_existing packet.path existing ctx) [
      | some reject ↦ err reject
      | none ↦ elim (first_duplicate packet.path) [
        | some call ↦ err (duplicate_in_path call)
        | none ↦ ok (tag packet existing ctx)
      ]
    ]
