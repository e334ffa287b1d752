-- ===== src/Config/Aprsc.antt =====
-- The importer of `aprsc.conf` files (crates/aprsr-config/src/aprsc.rs): the tokens of a line.
pub mod Tokens
pub mod Listen
pub mod Convert
pub mod Located
pub mod Named
pub mod Added
pub mod Outcome
use mathlib.Core.Option
use aprsr.Prelude.{
  ℕ, zero, suc, ◌+◌, List, [], ◌∷◌, ◌++◌, Option, none, some, Bool, true, false, not, ◌&&◌, ltb,
  leb, ◌==◌, if◌then◌else◌, length, drop, get_elem?, any, is_empty, Result, ok, err, ◌>>=◌, ok_or,
  map_err,
}
use aprsr.Prelude.Int.{ℤ, pos}
use aprsr.Bytes.{Bytes, codes, str_eq, chars, is_whitespace, lowercase, lines, unwrap_or}
use aprsr.Numbers.{parse_i32, parse_u16, parse_u64, show_u64}
use aprsr.Interval.{parse_interval}
use aprsr.Config.{
  placeholder_server_id, Addresses, Server, Limits, Database, PortKind, full_feed, igate, dupe_feed,
  udp_submit, Protocol, tcp, udp, UplinkKind, full, read_only, Uplink, default_run_dir,
  default_limits, default_database, Http, Listener, Config,
}

pub data ConvertError : Type 0 where
  unterminated_quote : ℕ → ConvertError
  wrong_argument_count : (line : ℕ) (directive expected : Bytes) (found : ℕ) → ConvertError
  invalid_value : (line : ℕ) (what value : Bytes) → ConvertError
  invalid_address : (line : ℕ) (address : Bytes) → ConvertError

-- The state of the loop over the characters of a line.
pub record Scan : Type 0 where
  pub tokens : List Bytes
  pub current : Bytes
  pub has_token : Bool
  pub in_quotes : Bool

unfoldable pub new_scan : Scan
new_scan = record { tokens = []; current = []; has_token = false; in_quotes = false }

unfoldable pub end_token : Scan → Scan
end_token s =
    if s.has_token
    then record {
      tokens = s.tokens ++ s.current ∷ [];
      current = [];
      has_token = false;
      in_quotes = s.in_quotes;
    }
    else s

-- One character: the next state, or the end of the loop at a comment.
unfoldable pub scan_char : Scan → Bytes → Option Scan
scan_char s ch =
    if str_eq ch (codes "\"")
    then some (record s { in_quotes = not s.in_quotes; has_token = true })
    else if str_eq ch (codes "#") && not s.in_quotes
    then none
    else if is_whitespace ch && not s.in_quotes
    then some (end_token s)
    else some (record s { current = s.current ++ ch; has_token = true })

unfoldable pub scan_chars : Scan → List Bytes → Scan
scan_chars s [] = s
scan_chars s (ch ∷ rest) = elim (scan_char s ch) [ none ↦ s | some s' ↦ scan_chars s' rest ]

unfoldable pub tokenize : Bytes → ℕ → Result (List Bytes) ConvertError
tokenize raw line =
    let s = scan_chars new_scan (chars raw) in
    if s.in_quotes
    then err (unterminated_quote line)
    else ok (if s.has_token then s.tokens ++ s.current ∷ [] else s.tokens)

unfoldable pub single : ℕ → Bytes → List Bytes → Result Bytes ConvertError
single line directive (only ∷ []) = ok only
single line directive args = err (wrong_argument_count line directive (codes "1") (length args))

-- `number::<T>`, with the reading of `T`.
unfoldable pub number {ℓ} :
    {T : Type ℓ} → (Bytes → Option T) → ℕ → Bytes → Bytes → Result T ConvertError
number parse line what value = ok_or (parse value) (invalid_value line what value)

unfoldable pub interval : ℕ → Bytes → Result ℕ ConvertError
interval line value =
    map_err (λ _. invalid_value line (codes "interval") value) (parse_interval value)

-- `args.get(i).map_or("", String::as_str)`
abbrev pub arg : ℕ → List Bytes → Bytes
arg i args = unwrap_or (get_elem? args i) []

unfoldable pub port_kind : ℕ → Bytes → Result PortKind ConvertError
port_kind line value =
    if str_eq value (codes "fullfeed")
    then ok full_feed
    else if str_eq value (codes "igate")
    then ok igate
    else if str_eq value (codes "dupefeed")
    then ok dupe_feed
    else if str_eq value (codes "udpsubmit")
    then ok udp_submit
    else err (invalid_value line (codes "port type") value)

unfoldable pub protocol_of : ℕ → Bytes → Result Protocol ConvertError
protocol_of line value =
    if str_eq value (codes "tcp")
    then ok tcp
    else if str_eq value (codes "udp")
    then ok udp
    else err (invalid_value line (codes "protocol") value)

unfoldable pub uplink_kind : ℕ → Bytes → Result UplinkKind ConvertError
uplink_kind line value =
    if str_eq value (codes "full")
    then ok full
    else if str_eq value (codes "ro")
    then ok read_only
    else err (invalid_value line (codes "uplink type") value)

unfoldable pub parse_uplink : ℕ → List Bytes → Result Uplink ConvertError
parse_uplink line args =
    if ltb (length args) 5
    then err (wrong_argument_count line (codes "Uplink") (codes "5") (length args))
    else do
      kind ← uplink_kind line (arg 1 args)
      port ← number parse_u16 line (codes "port") (arg 4 args)
      ok (record {
        name = arg 0 args;
        kind = kind;
        address = arg 3 args ++ codes ":" ++ show_u64 port;
      })

pub data Warning : Type 0 where
  unknown : (line : ℕ) (directive : Bytes) → Warning
  not_supported : (line : ℕ) (directive reason : Bytes) → Warning
  option_dropped : (line : ℕ) (option reason : Bytes) → Warning
  name_generated : (line : ℕ) (generated : Bytes) → Warning
