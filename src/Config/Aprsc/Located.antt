-- ===== src/Config/Aprsc/Located.antt =====
-- Every error of the importer names the line that it was given.
use aprsr.Prelude.{
  ℕ, zero, suc, List, [], ◌∷◌, Option, none, some, Bool, true, false, ◌≡◌, refl, if◌then◌else◌,
  Result, ok, err, ◌>>=◌, ok_or, map_err,
}
use aprsr.Bytes.{Bytes}
use aprsr.Config.{Addresses, Listener}
use aprsr.Config.Aprsc.{
  ConvertError, unterminated_quote, wrong_argument_count, invalid_value, invalid_address, Warning,
  tokenize, single, number, interval, port_kind, protocol_of, uplink_kind, parse_uplink,
}
use aprsr.Config.Aprsc.Listen.{
  hidden_option, filter_option, max_clients_option, acl_option, other_option, ListenOption,
  listen_option, address, apply_option, read_options, parse_listen,
}
use aprsr.Config.Aprsc.Convert.{
  Draft, Directive, server_id, passcode, my_admin, my_email, run_dir, file_limit, client_timeout,
  upstream_timeout, listen, uplink, http_status, http_upload, uplink_bind, log_rotate,
  magic_badness, other, apply_directive, apply_tokens, apply_line,
}

abbrev pub line_of : ConvertError → ℕ
line_of (unterminated_quote line) = line
line_of (wrong_argument_count line directive expected found) = line
line_of (invalid_value line what value) = line
line_of (invalid_address line address) = line

-- A result at a line: its error, if it has one, names the line.
pub data AtLine {ℓ} {A : Type ℓ} (line : ℕ) : Result A ConvertError → Type ℓ where
  fine : (a : A) → AtLine line (ok a)
  fails : (e : ConvertError) → line_of e ≡ line → AtLine line (err e)

pub AtLine-err {ℓ} :
    {A : Type ℓ} (line : ℕ) (e : ConvertError) → AtLine {A = A} line (err e) → line_of e ≡ line
AtLine-err line e (fails _ h) = h

module _ (line : ℕ) where
  bind-AtLine {ℓ κ} :
      {A : Type ℓ} {B : Type κ} (m : Result A ConvertError) (next : A → Result B ConvertError)
      → AtLine line m
      → ((a : A) → AtLine line (next a))
      → AtLine line (m >>= next)
  bind-AtLine (ok a) next h k = k a
  bind-AtLine (err e) next (fails _ p) k = fails e p

  if-AtLine {ℓ} :
      {A : Type ℓ} (b : Bool) (x y : Result A ConvertError)
      → AtLine line x
      → AtLine line y
      → AtLine line (if b then x else y)
  if-AtLine true x y h k = h
  if-AtLine false x y h k = k

  ok_or-AtLine {ℓ} :
      {A : Type ℓ} (o : Option A) (e : ConvertError) → line_of e ≡ line → AtLine line (ok_or o e)
  ok_or-AtLine none e h = fails e h
  ok_or-AtLine (some a) e h = fine a

  map_err-AtLine {ℓ κ} :
      {A : Type ℓ} {E : Type κ} (r : Result A E) (f : E → ConvertError)
      → ((e : E) → line_of (f e) ≡ line)
      → AtLine line (map_err f r)
  map_err-AtLine (ok a) f h = fine a
  map_err-AtLine (err e) f h = fails (f e) (h e)

  value-AtLine {ℓ} :
      {A : Type ℓ} (what value : Bytes) → AtLine {A = A} line (err (invalid_value line what value))
  value-AtLine what value = fails _ refl

  count-AtLine {ℓ} :
      {A : Type ℓ} (directive expected : Bytes) (found : ℕ)
      → AtLine {A = A} line (err (wrong_argument_count line directive expected found))
  count-AtLine directive expected found = fails _ refl

  tokenize-AtLine : (raw : Bytes) → AtLine line (tokenize raw line)
  unfolding tokenize
  tokenize-AtLine raw = if-AtLine _ _ _ (fails _ refl) (fine _)

  single-AtLine : (word : Bytes) (args : List Bytes) → AtLine line (single line word args)
  unfolding single
  single-AtLine word [] = fails _ refl
  single-AtLine word (a ∷ []) = fine a
  single-AtLine word (a ∷ b ∷ args) = fails _ refl

  number-AtLine {ℓ} :
      {T : Type ℓ} (parse : Bytes → Option T) (what value : Bytes)
      → AtLine line (number parse line what value)
  unfolding number
  number-AtLine parse what value = ok_or-AtLine _ _ refl

  interval-AtLine : (value : Bytes) → AtLine line (interval line value)
  unfolding interval
  interval-AtLine value = map_err-AtLine _ _ (λ _. refl)

  port_kind-AtLine : (value : Bytes) → AtLine line (port_kind line value)
  unfolding port_kind
  port_kind-AtLine value = search (if-AtLine, fine, value-AtLine) depth 8

  protocol_of-AtLine : (value : Bytes) → AtLine line (protocol_of line value)
  unfolding protocol_of
  protocol_of-AtLine value = search (if-AtLine, fine, value-AtLine) depth 8

  uplink_kind-AtLine : (value : Bytes) → AtLine line (uplink_kind line value)
  unfolding uplink_kind
  uplink_kind-AtLine value = search (if-AtLine, fine, value-AtLine) depth 8

  parse_uplink-AtLine : (args : List Bytes) → AtLine line (parse_uplink line args)
  unfolding parse_uplink
  parse_uplink-AtLine args =
      search (if-AtLine, count-AtLine, bind-AtLine, uplink_kind-AtLine, number-AtLine, fine) depth 8

module _ (addresses : Addresses) (line : ℕ) where
  address-AtLine : (host port : Option Bytes) → AtLine line (address addresses line host port)
  unfolding address
  address-AtLine host port = ok_or-AtLine line _ _ refl

  apply_option-AtLine :
      (option : Bytes) (rest : List Bytes) (listener : Listener addresses) (warnings : List Warning)
      (which : ListenOption)
      → AtLine line (apply_option addresses line option rest listener warnings which)
  unfolding apply_option
  apply_option-AtLine option rest listener warnings hidden_option = fine _
  apply_option-AtLine option rest listener warnings filter_option = fine _
  apply_option-AtLine option rest listener warnings max_clients_option =
      bind-AtLine line _ _ (number-AtLine line _ _ _) (λ _. fine _)
  apply_option-AtLine option rest listener warnings acl_option = fine _
  apply_option-AtLine option rest listener warnings other_option = fine _

  read_options-AtLine :
      (skip : ℕ) (args : List Bytes) (listener : Listener addresses) (warnings : List Warning)
      → AtLine line (read_options addresses skip line args listener warnings)
  unfolding read_options
  read_options-AtLine skip [] listener warnings = fine _
  read_options-AtLine (suc skip) (_ ∷ rest) listener warnings =
      read_options-AtLine skip rest listener warnings
  read_options-AtLine zero (option ∷ rest) listener warnings =
      bind-AtLine line _ _
        (apply_option-AtLine option rest listener warnings (listen_option option))
        (λ r. read_options-AtLine r.0 rest r.1 r.2)

  parse_listen-AtLine :
      (args : List Bytes) (warnings : List Warning)
      → AtLine line (parse_listen addresses line args warnings)
  unfolding parse_listen
  parse_listen-AtLine args warnings =
      search
        (
          if-AtLine {0} line,
          count-AtLine {0} line,
          bind-AtLine {0, 0} line,
          port_kind-AtLine line,
          protocol_of-AtLine line,
          address-AtLine,
          read_options-AtLine,
        )
        depth 10

  apply_directive-AtLine :
      (word : Bytes) (args : List Bytes) (d : Draft addresses) (directive : Directive)
      → AtLine line (apply_directive addresses line word args d directive)
  unfolding apply_directive
  apply_directive-AtLine word args d server_id =
      bind-AtLine line _ _ (single-AtLine line word args) (λ _. fine _)
  apply_directive-AtLine word args d passcode =
      search (bind-AtLine {0, 0} line, single-AtLine line, number-AtLine {0} line, fine)
  apply_directive-AtLine word args d my_admin =
      bind-AtLine line _ _ (single-AtLine line word args) (λ _. fine _)
  apply_directive-AtLine word args d my_email =
      bind-AtLine line _ _ (single-AtLine line word args) (λ _. fine _)
  apply_directive-AtLine word args d run_dir =
      bind-AtLine line _ _ (single-AtLine line word args) (λ _. fine _)
  apply_directive-AtLine word args d file_limit =
      search (bind-AtLine {0, 0} line, single-AtLine line, number-AtLine {0} line, fine)
  apply_directive-AtLine word args d client_timeout =
      search (bind-AtLine {0, 0} line, single-AtLine line, interval-AtLine line, fine)
  apply_directive-AtLine word args d upstream_timeout =
      search (bind-AtLine {0, 0} line, single-AtLine line, interval-AtLine line, fine)
  apply_directive-AtLine word args d listen =
      bind-AtLine line _ _ (parse_listen-AtLine args d.warnings) (λ _. fine _)
  apply_directive-AtLine word args d uplink =
      bind-AtLine line _ _ (parse_uplink-AtLine line args) (λ _. fine _)
  apply_directive-AtLine word args d http_status =
      bind-AtLine line _ _ (address-AtLine _ _) (λ _. fine _)
  apply_directive-AtLine word args d http_upload = fine _
  apply_directive-AtLine word args d uplink_bind = fine _
  apply_directive-AtLine word args d log_rotate = fine _
  apply_directive-AtLine word args d magic_badness = fine _
  apply_directive-AtLine word args d other = fine _

  apply_tokens-AtLine :
      (tokens : List Bytes) (d : Draft addresses)
      → AtLine line (apply_tokens addresses line tokens d)
  unfolding apply_tokens
  apply_tokens-AtLine [] d = fine d
  apply_tokens-AtLine (word ∷ args) d = apply_directive-AtLine word args d _

  pub apply_line-AtLine :
      (raw : Bytes) (d : Draft addresses) → AtLine line (apply_line addresses line raw d)
  unfolding apply_line
  apply_line-AtLine raw d =
      bind-AtLine line _ _ (tokenize-AtLine line raw) (λ tokens. apply_tokens-AtLine tokens d)
