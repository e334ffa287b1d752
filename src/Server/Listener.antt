-- ===== src/Server/Listener.antt =====
-- The listening ports (crates/aprsr-server/src/listener.rs) and the shared state that `Server::bind`
-- prepares (crates/aprsr-server/src/lib.rs). The sockets are the operating system's: an interface with
-- the two calls that can fail. What is only logged is left out.
pub mod Bound
use aprsr.Prelude.{
  ℕ, List, [], ◌∷◌, ◌++◌, Option, none, some, Bool, if◌then◌else◌, is_empty, map, Result, ok, err,
  ◌>>=◌, map_err,
}
use aprsr.Bytes.{Bytes, str_eq}
use aprsr.Geo.{Floats}
use aprsr.Filter.{FilterError, FilterChain}
use aprsr.Filter.Parse.{parse_chain}
use aprsr.Config.{Addresses, PortKind, Protocol, tcp, udp, Listener, Config}

pub record ListenerContext (f64 : Type 0) : Type 0 where
  pub name : Bytes
  pub kind : PortKind
  pub protocol : Protocol
  pub forced_filter : Option (FilterChain f64)
  pub max_clients : Option ℕ
  pub hidden : Bool

-- `TcpListener::bind` and `local_addr`
pub record Sockets (addresses : Addresses) : Type 1 where
  pub socket : Type 0
  pub io_error : Type 0
  pub bind : addresses.addr → Result socket io_error
  pub local_addr : socket → Result addresses.addr io_error

module _ (floats : Floats) (addresses : Addresses) (sockets : Sockets addresses) where
  pub data ServerError : Type 0 where
    bind_failed :
        (listener : Bytes) (address : addresses.addr) (source : sockets.io_error) → ServerError
    invalid_listener_filter : (listener : Bytes) (source : FilterError floats.f64) → ServerError
    no_tcp_listeners : ServerError

  pub record BoundListener : Type 0 where
    pub context : ListenerContext floats.f64
    pub socket : sockets.socket
    pub local_addr : addresses.addr

  unfoldable pub forced_filter :
      Bytes → Option Bytes → Result (Option (FilterChain floats.f64)) ServerError
  forced_filter name none = ok none
  forced_filter name (some expression) =
      map_err (invalid_listener_filter name) (parse_chain floats expression) >>= λ chain.
      ok (some chain)

  -- `ListenerContext::from_config`
  unfoldable pub from_config : Listener addresses → Result (ListenerContext floats.f64) ServerError
  from_config config = forced_filter config.name config.filter >>= λ forced. ok (record {
    name = config.name;
    kind = config.kind;
    protocol = config.protocol;
    forced_filter = forced;
    max_clients = config.max_clients;
    hidden = config.hidden;
  })

  -- One round of the loop of `bind_all`: a UDP listener is checked and passed over.
  unfoldable pub bind_one :
      Listener addresses
      → ListenerContext floats.f64
      → Protocol
      → Result (List BoundListener) ServerError
  bind_one listener context udp = ok []
  bind_one listener context tcp = do
    socket ← map_err (bind_failed listener.name listener.bind) (sockets.bind listener.bind)
    local_addr ← map_err (bind_failed listener.name listener.bind) (sockets.local_addr socket)
    ok (record { context = context; socket = socket; local_addr = local_addr } ∷ [])

  unfoldable pub bind_listeners :
      List (Listener addresses) → Result (List BoundListener) ServerError
  bind_listeners [] = ok []
  bind_listeners (listener ∷ rest) = do
    context ← from_config listener
    bound ← bind_one listener context listener.protocol
    later ← bind_listeners rest
    ok (bound ++ later)

  unfoldable pub bind_all : Config addresses → Result (List BoundListener) ServerError
  bind_all config = bind_listeners config.listeners >>= λ bound.
      if is_empty bound then err no_tcp_listeners else ok bound

  -- `Server::local_addrs` and `Server::addr_of`
  unfoldable pub local_addrs : List BoundListener → List (Bytes × addresses.addr)
  local_addrs bound = map (λ (l : BoundListener). (l.context.name, l.local_addr)) bound

  unfoldable pub addr_of : Bytes → List BoundListener → Option addresses.addr
  addr_of name [] = none
  addr_of name (l ∷ ls) = if str_eq l.context.name name then some l.local_addr else addr_of name ls
