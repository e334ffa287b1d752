-- ===== src/Login.antt =====
-- The login handshake (crates/aprsr-core/src/login.rs).
pub mod Groups
use aprsr.Prelude.{
  ℕ, zero, suc, List, [], ◌∷◌, ◌++◌, Option, none, some, get_elem?, is_empty, if◌then◌else◌, Result,
  ok, err, ◌>>=◌, ok_or, map_err,
}
use aprsr.Prelude.Int.{ℤ}
use aprsr.Bytes.{Bytes, codes, eq_ignore_ascii_case, split_ascii_whitespace, join_spaces, unwrap_or}
use aprsr.Numbers.{parse_i32, parse_u16}
use aprsr.Callsign.{Callsign, CallsignError, parse_login, as_str}
use aprsr.Passcode.{Verification, verified, receive_only_login, invalid, verify}

pub data LoginError : Type 0 where
  not_a_login missing_callsign : LoginError
  invalid_callsign : CallsignError → LoginError
  missing_pass_keyword missing_passcode : LoginError
  invalid_passcode invalid_udp_port : Bytes → LoginError

pub record LoginRequest : Type 0 where
  pub callsign : Callsign
  pub passcode : ℤ
  pub software : Option Bytes
  pub software_version : Option Bytes
  pub udp_port : Option ℕ
  pub filter : Option Bytes

-- The keywords of the optional groups.
pub data Keyword : Type 0 where
  vers udp filter_command other : Keyword

unfoldable pub keyword : Bytes → Keyword
keyword word =
    if eq_ignore_ascii_case word (codes "vers")
    then vers
    else if eq_ignore_ascii_case word (codes "udp")
    then udp
    else if eq_ignore_ascii_case word (codes "filter")
    then filter_command
    else other

-- `(!expression.is_empty()).then_some(expression)`
unfoldable pub nonempty : Bytes → Option Bytes
nonempty s = if is_empty s then none else some s

unfoldable pub read_port : Bytes → Result ℕ LoginError
read_port text = ok_or (parse_u16 text) (invalid_udp_port text)

-- The loop over the groups: `skip` words of the group before are still to be passed over.
unfoldable pub groups : ℕ → List Bytes → LoginRequest → Result LoginRequest LoginError
groups skip [] request = ok request
groups (suc skip) (_ ∷ rest) request = groups skip rest request
groups zero (word ∷ rest) request = elim (keyword word) [
  | vers ↦
      groups 2 rest
        (record request { software = get_elem? rest 0; software_version = get_elem? rest 1 })
  | udp ↦
      read_port (unwrap_or (get_elem? rest 0) [])
      >>= (λ port. groups 1 rest (record request { udp_port = some port }))
  | filter_command ↦ ok (record request { filter = nonempty (join_spaces rest) })
  | other ↦ groups 0 rest request
]

-- The passcode and what follows the `pass` keyword.
unfoldable pub parse_passcode : Callsign → List Bytes → Result LoginRequest LoginError
parse_passcode callsign [] = err missing_passcode
parse_passcode callsign (text ∷ rest) =
    ok_or (parse_i32 text) (invalid_passcode text) >>= (λ passcode. groups 0 rest (record {
      callsign = callsign;
      passcode = passcode;
      software = none;
      software_version = none;
      udp_port = none;
      filter = none;
    }))

unfoldable pub parse_pass : Callsign → List Bytes → Result LoginRequest LoginError
parse_pass callsign [] = err missing_pass_keyword
parse_pass callsign (word ∷ rest) =
    if eq_ignore_ascii_case word (codes "pass")
    then parse_passcode callsign rest
    else err missing_pass_keyword

unfoldable pub parse_user : List Bytes → Result LoginRequest LoginError
parse_user [] = err missing_callsign
parse_user (text ∷ rest) =
    map_err invalid_callsign (parse_login text) >>= (λ callsign. parse_pass callsign rest)

unfoldable pub parse_words : List Bytes → Result LoginRequest LoginError
parse_words [] = err not_a_login
parse_words (word ∷ rest) =
    if eq_ignore_ascii_case word (codes "user") then parse_user rest else err not_a_login

-- `LoginRequest::parse`
unfoldable pub parse : Bytes → Result LoginRequest LoginError
parse line = parse_words (split_ascii_whitespace line)

-- `LoginRequest::verify`
unfoldable pub verify_request : LoginRequest → Verification
verify_request request = verify (as_str request.callsign) request.passcode

-- `Banner` and `LoginResponse`, as they are displayed.
pub record Banner : Type 0 where
  pub software : Bytes
  pub version : Bytes
  pub server_id : Bytes

unfoldable pub show_banner : Banner → Bytes
show_banner b = codes "# " ++ b.software ++ codes " " ++ b.version ++ codes " " ++ b.server_id

pub record LoginResponse : Type 0 where
  pub callsign : Bytes
  pub verification : Verification
  pub server_id : Bytes

unfoldable pub verification_word : Verification → Bytes
verification_word verified = codes "verified"
verification_word receive_only_login = codes "unverified"
verification_word invalid = codes "unverified"

unfoldable pub show_response : LoginResponse → Bytes
show_response r =
    codes "# logresp "
    ++ r.callsign
    ++ codes " "
    ++ verification_word r.verification
    ++ codes ", server "
    ++ r.server_id
