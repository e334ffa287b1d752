-- ===== src/Qconstruct/Code.antt =====
-- `QCode`, and the search for a construct in a path.
use aprsr.Prelude.{ℕ, List, [], ◌∷◌, Option, none, some, if◌then◌else◌, ◌≡◌, ◌↔◌, refl, arith, true}
use aprsr.Bytes.{Bytes, codes, str_eq, str_eq_iff}
use aprsr.Digipath.{Hop, Digipath, hops}

pub data QCode : Type 0 where
  verified_client unverified udp gated_client_only non_gated server : QCode
  remote_igate verified_igate internal trace : QCode

unfoldable pub as_str : QCode → Bytes
as_str verified_client = codes "qAC"
as_str unverified = codes "qAX"
as_str udp = codes "qAU"
as_str gated_client_only = codes "qAo"
as_str non_gated = codes "qAO"
as_str server = codes "qAS"
as_str remote_igate = codes "qAr"
as_str verified_igate = codes "qAR"
as_str internal = codes "qAZ"
as_str trace = codes "qAI"

unfoldable pub parse : Bytes → Option QCode
parse hop =
    if str_eq hop (codes "qAC")
    then some verified_client
    else if str_eq hop (codes "qAX")
    then some unverified
    else if str_eq hop (codes "qAU")
    then some udp
    else if str_eq hop (codes "qAo")
    then some gated_client_only
    else if str_eq hop (codes "qAO")
    then some non_gated
    else if str_eq hop (codes "qAS")
    then some server
    else if str_eq hop (codes "qAr")
    then some remote_igate
    else if str_eq hop (codes "qAR")
    then some verified_igate
    else if str_eq hop (codes "qAZ")
    then some internal
    else if str_eq hop (codes "qAI")
    then some trace
    else none

pub record FoundQ : Type 0 where
  pub code : QCode
  pub offset : ℕ
  pub call : Option Bytes

-- `hops.next().map(|h| h.call)`
unfoldable pub next_call : List Hop → Option Bytes
next_call [] = none
next_call (h ∷ _) = some h.call

-- The loop of `find` over the hops that are left.
unfoldable pub find_in : List Hop → Option FoundQ
find_in [] = none
find_in (hop ∷ rest) =
    let later = find_in rest in
    elim (parse hop.call) [
      | some code ↦ some (record { code = code; offset = hop.offset; call = next_call rest })
      | none ↦ later
    ]

unfoldable pub find : Digipath → Option FoundQ
find path = find_in (hops path)

pub parse-as_str : (code : QCode) → parse (as_str code) ≡ some code
unfolding parse as_str str_eq
parse-as_str verified_client = refl
parse-as_str unverified = refl
parse-as_str udp = refl
parse-as_str gated_client_only = refl
parse-as_str non_gated = refl
parse-as_str server = refl
parse-as_str remote_igate = refl
parse-as_str verified_igate = refl
parse-as_str internal = refl
parse-as_str trace = refl

spells : (hop : Bytes) (code : QCode) → str_eq hop (as_str code) ≡ true → hop ≡ as_str code
spells hop code h = (str_eq_iff hop (as_str code)).0 h

as_str-parse : (hop : Bytes) (code : QCode) → parse hop ≡ some code → hop ≡ as_str code
unfolding parse as_str
as_str-parse hop code h = ground (
  arith,
  spells hop verified_client,
  spells hop unverified,
  spells hop udp,
  spells hop gated_client_only,
  spells hop non_gated,
  spells hop server,
  spells hop remote_igate,
  spells hop verified_igate,
  spells hop internal,
  spells hop trace,
)

-- The wire form of every code parses to the code, and no other text does: parsing is
-- case-sensitive.
pub parse-as_str_iff : (hop : Bytes) (code : QCode) → (parse hop ≡ some code) ↔ (hop ≡ as_str code)
parse-as_str_iff hop code = (as_str-parse hop code, λ e. rw e (parse-as_str code))
