-- ===== src/Config.antt =====
-- The configuration and its validation (crates/aprsr-config/src/lib.rs). Socket addresses are those of
-- the standard library: an interface with their reading, their printing and their port. A path is its
-- text. TOML and the environment, from which figment builds a `Config`, are outside the development.
pub mod Runnable
pub mod Aprsc
use mathlib.Core.Option
use aprsr.Prelude.{
  ℕ, List, [], ◌∷◌, ◌++◌, Option, none, some, Bool, true, false, not, if◌then◌else◌, any, keep,
  is_empty, Result, ok, err, ◌>>=◌, map_err,
}
use aprsr.Prelude.Int.{ℤ}
use aprsr.Bytes.{Bytes, codes, eq_ignore_ascii_case}
use aprsr.Callsign.{CallsignError, parse_login}
use aprsr.Dupecheck.{default_window_secs}
use aprsr.Geo.{Floats}
use aprsr.Filter.{FilterError}
use aprsr.Filter.Parse.{parse_chain}

abbrev pub placeholder_server_id : Bytes
placeholder_server_id = codes "NOCALL"

-- `SocketAddr`
pub record Addresses : Type 1 where
  pub addr : Type 0
  pub parse_addr : Bytes → Option addr
  pub show_addr : addr → Bytes
  pub port : addr → ℕ

pub data ConfigError (f64 : Type 0) : Type 0 where
  invalid_server_id : Bytes → CallsignError → ConfigError f64
  placeholder no_listeners : ConfigError f64
  duplicate_listener_name : Bytes → ConfigError f64
  invalid_listener_filter : Bytes → FilterError f64 → ConfigError f64

pub record Server : Type 0 where
  pub id : Bytes
  pub passcode : ℤ
  pub admin : Bytes
  pub email : Bytes
  pub run_dir : Bytes

-- Intervals are their seconds.
pub record Limits : Type 0 where
  pub client_timeout : ℕ
  pub upstream_timeout : ℕ
  pub dupecheck_window : ℕ
  pub keepalive_interval : ℕ
  pub file_limit : ℕ
  pub client_queue : ℕ

pub record Database : Type 0 where
  pub url : Bytes

pub data PortKind : Type 0 where
  full_feed igate dupe_feed udp_submit : PortKind

unfoldable pub accepts_filters : PortKind → Bool
accepts_filters igate = true
accepts_filters _ = false

unfoldable pub is_send_only : PortKind → Bool
is_send_only udp_submit = true
is_send_only _ = false

pub data Protocol : Type 0 where
  tcp udp : Protocol

pub data UplinkKind : Type 0 where
  full read_only : UplinkKind

pub record Uplink : Type 0 where
  pub name : Bytes
  pub kind : UplinkKind
  pub address : Bytes

abbrev pub default_run_dir : Bytes
default_run_dir = codes "data"

abbrev pub default_client_timeout : ℕ
default_client_timeout = 172800

abbrev pub default_upstream_timeout : ℕ
default_upstream_timeout = 15

abbrev pub default_keepalive_interval : ℕ
default_keepalive_interval = 20

abbrev pub default_file_limit : ℕ
default_file_limit = 10000

abbrev pub default_client_queue : ℕ
default_client_queue = 1024

abbrev pub default_database_url : Bytes
default_database_url = codes "sqlite://data/aprsr.sqlite?mode=rwc"

unfoldable pub default_limits : Limits
default_limits = record {
  client_timeout = default_client_timeout;
  upstream_timeout = default_upstream_timeout;
  dupecheck_window = default_window_secs;
  keepalive_interval = default_keepalive_interval;
  file_limit = default_file_limit;
  client_queue = default_client_queue;
}

unfoldable pub default_database : Database
default_database = record { url = default_database_url }

module _ (addresses : Addresses) where
  pub record Http : Type 0 where
    pub status_bind : Option addresses.addr

  pub record Listener : Type 0 where
    pub name : Bytes
    pub kind : PortKind
    pub protocol : Protocol
    pub bind : addresses.addr
    pub filter : Option Bytes
    pub max_clients : Option ℕ
    pub hidden : Bool

  pub record Config : Type 0 where
    pub server : Server
    pub limits : Limits
    pub database : Database
    pub http : Http
    pub listeners : List Listener
    pub uplinks : List Uplink

  unfoldable pub visible_listeners : Config → List Listener
  visible_listeners config = keep (λ (l : Listener). not l.hidden) config.listeners

  module _ (floats : Floats) where
    unfoldable pub check_filter : Bytes → Option Bytes → Result (Unit {0}) (ConfigError floats.f64)
    check_filter name none = ok tt
    check_filter name (some expression) =
        map_err (invalid_listener_filter name) (parse_chain floats expression) >>= λ _. ok tt

    -- The loop over the listeners, with the names that it has seen.
    unfoldable pub check_listeners :
        List Bytes → List Listener → Result (Unit {0}) (ConfigError floats.f64)
    check_listeners seen [] = ok tt
    check_listeners seen (listener ∷ rest) =
        if any (λ n. eq_ignore_ascii_case n listener.name) seen
        then err (duplicate_listener_name listener.name)
        else check_filter listener.name listener.filter >>= λ _.
            check_listeners (seen ++ listener.name ∷ []) rest

    unfoldable pub validate : Config → Result (Unit {0}) (ConfigError floats.f64)
    validate config =
        if eq_ignore_ascii_case config.server.id placeholder_server_id
        then err placeholder
        else map_err (invalid_server_id config.server.id) (parse_login config.server.id) >>= λ _.
            if is_empty config.listeners
            then err no_listeners
            else check_listeners [] config.listeners
