-- ===== src/Config/Aprsc/Convert.antt =====
-- The conversion of a file (`convert` of crates/aprsr-config/src/aprsc.rs).
use aprsr.Prelude.{
  ℕ, ◌+◌, List, [], ◌∷◌, ◌++◌, none, some, if◌then◌else◌, get_elem?, Result, ok, ◌>>=◌,
}
use Prim.Native.String.{String}
use aprsr.Prelude.Int.{pos}
use aprsr.Bytes.{Bytes, codes, str_eq, lowercase, lines}
use aprsr.Numbers.{parse_i32, parse_u64}
use aprsr.Config.{
  placeholder_server_id, Addresses, Server, Limits, Uplink, default_run_dir, default_limits,
  default_database, Http, Listener, Config,
}
use aprsr.Config.Aprsc.{
  ConvertError, Warning, unknown, not_supported, tokenize, single, number, interval, parse_uplink,
}
use aprsr.Config.Aprsc.Listen.{address, parse_listen}

-- The arms of the match on a directive.
pub data Directive : Type 0 where
  server_id passcode my_admin my_email run_dir file_limit client_timeout upstream_timeout :
      Directive
  listen uplink http_status http_upload uplink_bind log_rotate magic_badness other : Directive

unfoldable pub directive_of : Bytes → Directive
directive_of word =
    let is = λ (name : String). str_eq (lowercase word) (codes name) in
    if is "serverid"
    then server_id
    else if is "passcode"
    then passcode
    else if is "myadmin"
    then my_admin
    else if is "myemail"
    then my_email
    else if is "rundir"
    then run_dir
    else if is "filelimit"
    then file_limit
    else if is "clienttimeout"
    then client_timeout
    else if is "upstreamtimeout"
    then upstream_timeout
    else if is "listen"
    then listen
    else if is "uplink"
    then uplink
    else if is "httpstatus"
    then http_status
    else if is "httpupload"
    then http_upload
    else if is "uplinkbind"
    then uplink_bind
    else if is "logrotate"
    then log_rotate
    else if is "magicbadness"
    then magic_badness
    else other

module _ (addresses : Addresses) where
  -- The local variables of the loop.
  pub record Draft : Type 0 where
    pub server : Server
    pub limits : Limits
    pub http : Http addresses
    pub listeners : List (Listener addresses)
    pub uplinks : List Uplink
    pub warnings : List Warning

  unfoldable pub new_draft : Draft
  new_draft = record {
    server = record {
      id = placeholder_server_id;
      passcode = pos 0;
      admin = [];
      email = [];
      run_dir = default_run_dir;
    };
    limits = default_limits;
    http = record { status_bind = none };
    listeners = [];
    uplinks = [];
    warnings = [];
  }

  unfoldable pub warn : Warning → Draft → Draft
  warn w d = record d { warnings = d.warnings ++ w ∷ [] }

  unfoldable pub apply_directive :
      ℕ → Bytes → List Bytes → Draft → Directive → Result Draft ConvertError
  apply_directive line word args d server_id = do
    id ← single line word args
    ok (record d { server = record d.server { id = id } })
  apply_directive line word args d passcode = do
    text ← single line word args
    code ← number parse_i32 line (codes "passcode") text
    ok (record d { server = record d.server { passcode = code } })
  apply_directive line word args d my_admin = do
    text ← single line word args
    ok (record d { server = record d.server { admin = text } })
  apply_directive line word args d my_email = do
    text ← single line word args
    ok (record d { server = record d.server { email = text } })
  apply_directive line word args d run_dir = do
    text ← single line word args
    ok (record d { server = record d.server { run_dir = text } })
  apply_directive line word args d file_limit = do
    text ← single line word args
    limit ← number parse_u64 line (codes "file limit") text
    ok (record d { limits = record d.limits { file_limit = limit } })
  apply_directive line word args d client_timeout = do
    text ← single line word args
    seconds ← interval line text
    ok (record d { limits = record d.limits { client_timeout = seconds } })
  apply_directive line word args d upstream_timeout = do
    text ← single line word args
    seconds ← interval line text
    ok (record d { limits = record d.limits { upstream_timeout = seconds } })
  apply_directive line word args d listen = do
    parsed ← parse_listen addresses line args d.warnings
    ok (record d { listeners = d.listeners ++ parsed.0 ∷ []; warnings = parsed.1 })
  apply_directive line word args d uplink = do
    parsed ← parse_uplink line args
    ok (record d { uplinks = d.uplinks ++ parsed ∷ [] })
  apply_directive line word args d http_status = do
    bind ← address addresses line (get_elem? args 0) (get_elem? args 1)
    ok (record d { http = record { status_bind = some bind } })
  apply_directive line word args d http_upload = ok (
      warn
        (not_supported line word
          (codes "HTTP position upload is on the roadmap, not in this release"))
        d)
  apply_directive line word args d uplink_bind =
      ok
        (warn (not_supported line word (codes "uplinks are on the roadmap, not in this release")) d)
  apply_directive line word args d log_rotate = ok (
      warn
        (not_supported line word
          (codes "aprsr logs to stdout; use your service manager's log rotation"))
        d)
  apply_directive line word args d magic_badness = ok (
      warn
        (not_supported line word
          (codes "this is aprsc's deliberate start-up tripwire and has no aprsr equivalent"))
        d)
  apply_directive line word args d other = ok (warn (unknown line word) d)

  unfoldable pub apply_tokens : ℕ → List Bytes → Draft → Result Draft ConvertError
  apply_tokens line [] d = ok d
  apply_tokens line (word ∷ args) d = apply_directive line word args d (directive_of word)

  unfoldable pub apply_line : ℕ → Bytes → Draft → Result Draft ConvertError
  apply_line line raw d = tokenize raw line >>= λ tokens. apply_tokens line tokens d

  -- The loop over the lines, from the number of the first.
  unfoldable pub apply_lines : ℕ → List Bytes → Draft → Result Draft ConvertError
  apply_lines line [] d = ok d
  apply_lines line (raw ∷ rest) d = apply_line line raw d >>= λ d'. apply_lines (line + 1) rest d'

  pub record Conversion : Type 0 where
    pub config : Config addresses
    pub warnings : List Warning

  unfoldable pub finish : Draft → Conversion
  finish d = record {
    config = record {
      server = d.server;
      limits = d.limits;
      database = default_database;
      http = d.http;
      listeners = d.listeners;
      uplinks = d.uplinks;
    };
    warnings = d.warnings;
  }

  unfoldable pub convert : Bytes → Result Conversion ConvertError
  convert text = apply_lines 1 (lines text) new_draft >>= λ d. ok (finish d)
