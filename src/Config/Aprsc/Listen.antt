-- ===== src/Config/Aprsc/Listen.antt =====
-- The `Listen` directive (`parse_listen` and `address` of crates/aprsr-config/src/aprsc.rs).
use aprsr.Prelude.{
  ℕ, zero, suc, List, [], ◌∷◌, ◌++◌, Option, none, some, true, false, ltb, ◌==◌, if◌then◌else◌,
  length, drop, get_elem?, any, is_empty, Result, ok, err, ◌>>=◌, ok_or,
}
use aprsr.Bytes.{Bytes, codes, str_eq, lowercase, unwrap_or}
use aprsr.Numbers.{parse_u64, show_u64}
use aprsr.Config.{Addresses, Listener}
use aprsr.Config.Aprsc.{
  ConvertError, wrong_argument_count, invalid_address, Warning, option_dropped, name_generated,
  number, arg, port_kind, protocol_of,
}

-- The options of a listener.
pub data ListenOption : Type 0 where
  hidden_option filter_option max_clients_option acl_option other_option : ListenOption

unfoldable pub listen_option : Bytes → ListenOption
listen_option option =
    if str_eq (lowercase option) (codes "hidden")
    then hidden_option
    else if str_eq (lowercase option) (codes "filter")
    then filter_option
    else if str_eq (lowercase option) (codes "maxclients")
    then max_clients_option
    else if str_eq (lowercase option) (codes "acl")
    then acl_option
    else other_option

module _ (addresses : Addresses) where
  -- An IPv6 address stands in brackets before its port.
  unfoldable pub combined : Bytes → Bytes → Bytes
  combined host port =
      if any (λ c. c == b':') host
      then codes "[" ++ host ++ codes "]:" ++ port
      else host ++ codes ":" ++ port

  unfoldable pub address : ℕ → Option Bytes → Option Bytes → Result addresses.addr ConvertError
  address line host port =
      let text = combined (unwrap_or host []) (unwrap_or port []) in
      ok_or (addresses.parse_addr text) (invalid_address line text)

  -- One option: how many of the arguments behind it belong to it, and what it changes.
  unfoldable pub apply_option :
      ℕ
      → Bytes
      → List Bytes
      → Listener addresses
      → List Warning
      → ListenOption
      → Result (ℕ × Listener addresses × List Warning) ConvertError
  apply_option line option rest listener warnings hidden_option =
      ok (0, record listener { hidden = true }, warnings)
  apply_option line option rest listener warnings filter_option =
      ok (1, record listener { filter = get_elem? rest 0 }, warnings)
  apply_option line option rest listener warnings max_clients_option = do
    limit ← number parse_u64 line (codes "client limit") (arg 0 rest)
    ok (1, record listener { max_clients = some limit }, warnings)
  apply_option line option rest listener warnings acl_option =
      let reason = codes "address-based access control is on the roadmap" in
      ok (1, listener, warnings ++ option_dropped line option reason ∷ [])
  apply_option line option rest listener warnings other_option =
      let reason = codes "unrecognised listener option" in
      ok (0, listener, warnings ++ option_dropped line option reason ∷ [])

  -- The loop over the options: `skip` arguments of the option before are still to be passed over.
  unfoldable pub read_options :
      ℕ
      → ℕ
      → List Bytes
      → Listener addresses
      → List Warning
      → Result (Listener addresses × List Warning) ConvertError
  read_options skip line [] listener warnings = ok (listener, warnings)
  read_options (suc skip) line (_ ∷ rest) listener warnings =
      read_options skip line rest listener warnings
  read_options zero line (option ∷ rest) listener warnings =
      apply_option line option rest listener warnings (listen_option option)
      >>= (λ r. read_options r.0 line rest r.1 r.2)

  unfoldable pub generated_name : List Bytes → addresses.addr → Bytes
  generated_name args bind =
      arg 1 args ++ codes " " ++ arg 2 args ++ codes " " ++ show_u64 (addresses.port bind)

  unfoldable pub listener_name :
      ℕ → List Bytes → addresses.addr → List Warning → Bytes × List Warning
  listener_name line args bind warnings =
      if is_empty (arg 0 args)
      then (
        generated_name args bind,
        warnings ++ name_generated line (generated_name args bind) ∷ [],
      )
      else (arg 0 args, warnings)

  unfoldable pub parse_listen :
      ℕ → List Bytes → List Warning → Result (Listener addresses × List Warning) ConvertError
  parse_listen line args warnings =
      if ltb (length args) 5
      then err (wrong_argument_count line (codes "Listen") (codes "at least 5") (length args))
      else do
        kind ← port_kind line (arg 1 args)
        protocol ← protocol_of line (arg 2 args)
        bind ← address line (get_elem? args 3) (get_elem? args 4)
        let (name, warnings') = listener_name line args bind warnings
        read_options 0 line (drop 5 args)
            (record {
              name = name;
              kind = kind;
              protocol = protocol;
              bind = bind;
              filter = none;
              max_clients = none;
              hidden = false;
            })
            warnings'
