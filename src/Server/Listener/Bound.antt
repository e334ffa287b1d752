-- ===== src/Server/Listener/Bound.antt =====
-- How the binding of a validated configuration ends (`bind_all` of
-- crates/aprsr-server/src/listener.rs).
use aprsr.Prelude.{
  List, [], ◌∷◌, ◌++◌, Option, none, some, is_empty, All, ◌≡◌, refl, Result, ok, err, ◌>>=◌,
  map_err, true, is_ok, if◌then◌else◌,
}
use aprsr.Bytes.{Bytes}
use aprsr.Geo.{Floats}
use aprsr.Filter.{FilterChain, FilterError}
use aprsr.Filter.Parse.{parse_chain}
use aprsr.Config.{Addresses, Protocol, tcp, udp, Listener, Config, validate}
use aprsr.Config.Runnable.{IsFilter, validate_iff}
use aprsr.Server.Listener.{
  ListenerContext, Sockets, ServerError, bind_failed, invalid_listener_filter, no_tcp_listeners,
  BoundListener, forced_filter, from_config, bind_one, bind_listeners, bind_all,
}

module _ (floats : Floats) (addresses : Addresses) (sockets : Sockets addresses) where
  abbrev Error : Type 0
  Error = ServerError floats addresses sockets

  abbrev Binding : Type 0
  Binding = BoundListener floats addresses sockets

  -- The forced filter of a port: what its expression parses to, if it has one.
  pub data IsForcedFrom : Option Bytes → Option (FilterChain floats.f64) → Type 0 where
    not_forced : IsForcedFrom none none
    forced_by :
        {expression : Bytes} {chain : FilterChain floats.f64}
        → parse_chain floats expression ≡ ok chain
        → IsForcedFrom (some expression) (some chain)

  -- The settings of a port, one by one.
  pub record Configures (l : Listener addresses) (c : ListenerContext floats.f64) : Type 0 where
    pub same_name : c.name ≡ l.name
    pub same_kind : c.kind ≡ l.kind
    pub same_protocol : c.protocol ≡ l.protocol
    pub same_limit : c.max_clients ≡ l.max_clients
    pub same_hidden : c.hidden ≡ l.hidden
    pub filtered : IsForcedFrom l.filter c.forced_filter

  -- The sockets of the TCP listeners, in order, each with the settings of its listener.
  pub data BoundFrom : List (Listener addresses) → List Binding → Type 0 where
    no_more : BoundFrom [] []
    passed :
        {l : Listener addresses} {ls : List (Listener addresses)} {bs : List Binding}
        → l.protocol ≡ udp
        → BoundFrom ls bs
        → BoundFrom (l ∷ ls) bs
    opened :
        {l : Listener addresses} {ls : List (Listener addresses)} {b : Binding} {bs : List Binding}
        → l.protocol ≡ tcp
        → Configures l b.context
        → sockets.bind l.bind ≡ ok b.socket
        → sockets.local_addr b.socket ≡ ok b.local_addr
        → BoundFrom ls bs
        → BoundFrom (l ∷ ls) (b ∷ bs)

  -- The socket of a TCP listener that cannot be bound, or that has no address.
  pub data Fails : List (Listener addresses) → Error → Type 0 where
    not_bound :
        (l : Listener addresses) {ls : List (Listener addresses)} (e : sockets.io_error)
        → l.protocol ≡ tcp
        → sockets.bind l.bind ≡ err e
        → Fails (l ∷ ls) (bind_failed l.name l.bind e)
    no_address :
        (l : Listener addresses) {ls : List (Listener addresses)} (s : sockets.socket)
        (e : sockets.io_error)
        → l.protocol ≡ tcp
        → sockets.bind l.bind ≡ ok s
        → sockets.local_addr s ≡ err e
        → Fails (l ∷ ls) (bind_failed l.name l.bind e)
    fails_later :
        {l : Listener addresses} {ls : List (Listener addresses)} {e : Error}
        → Fails ls e
        → Fails (l ∷ ls) e

  data Bindings (ls : List (Listener addresses)) : Result (List Binding) Error → Type 0 where
    all_bound : {bs : List Binding} → BoundFrom ls bs → Bindings ls (ok bs)
    one_failed : {e : Error} → Fails ls e → Bindings ls (err e)

  -- The end of `bind_all`.
  pub data Outcome (ls : List (Listener addresses)) : Result (List Binding) Error → Type 0 where
    some_bound :
        {b : Binding} {bs : List Binding} → BoundFrom ls (b ∷ bs) → Outcome ls (ok (b ∷ bs))
    only_udp :
        All (λ (l : Listener addresses). l.protocol ≡ udp) ls → Outcome ls (err no_tcp_listeners)
    failed : {e : Error} → Fails ls e → Outcome ls (err e)

  with_address :
      (l : Listener addresses) (ls : List (Listener addresses))
      (context : ListenerContext floats.f64) (s : sockets.socket)
      (a : Result addresses.addr sockets.io_error) (r : Result (List Binding) Error)
      → l.protocol ≡ tcp
      → Configures l context
      → sockets.bind l.bind ≡ ok s
      → sockets.local_addr s ≡ a
      → Bindings ls r
      → Bindings (l ∷ ls) (
          map_err (bind_failed l.name l.bind) a
          >>= (λ local_addr.
              ok (record { context = context; socket = s; local_addr = local_addr } ∷ []))
          >>= λ bound. r >>= λ later. ok (bound ++ later))
  with_address l ls context s (err e) r p c b h k = one_failed (no_address l s e p b h)
  with_address l ls context s (ok a) _ p c b h (all_bound f) = all_bound (opened p c b h f)
  with_address l ls context s (ok a) _ p c b h (one_failed f) = one_failed (fails_later f)

  with_socket :
      (l : Listener addresses) (ls : List (Listener addresses))
      (context : ListenerContext floats.f64) (m : Result sockets.socket sockets.io_error)
      (r : Result (List Binding) Error)
      → l.protocol ≡ tcp
      → Configures l context
      → sockets.bind l.bind ≡ m
      → Bindings ls r
      → Bindings (l ∷ ls) (
          map_err (bind_failed l.name l.bind) m
          >>= (λ socket.
              map_err (bind_failed l.name l.bind) (sockets.local_addr socket) >>= λ local_addr.
              ok (record { context = context; socket = socket; local_addr = local_addr } ∷ []))
          >>= λ bound. r >>= λ later. ok (bound ++ later))
  with_socket l ls context (err e) r p c b k = one_failed (not_bound l e p b)
  with_socket l ls context (ok s) r p c b k =
      with_address l ls context s (sockets.local_addr s) r p c b refl k

  bind_one-Bindings :
      (l : Listener addresses) (ls : List (Listener addresses))
      (context : ListenerContext floats.f64) (p : Protocol) (r : Result (List Binding) Error)
      → l.protocol ≡ p
      → Configures l context
      → Bindings ls r
      → Bindings (l ∷ ls) (
          bind_one floats addresses sockets l context p >>= λ bound.
          r >>= λ later. ok (bound ++ later))
  unfolding bind_one
  bind_one-Bindings l ls context udp _ p c (all_bound f) = all_bound (passed p f)
  bind_one-Bindings l ls context udp _ p c (one_failed f) = one_failed (fails_later f)
  bind_one-Bindings l ls context tcp r p c k =
      with_socket l ls context (sockets.bind l.bind) r p c refl k

  abbrev Forces : Option Bytes → Result (Option (FilterChain floats.f64)) Error → Type 0
  Forces o r = (forced : Option (FilterChain floats.f64)) × (r ≡ ok forced) × IsForcedFrom o forced

  parsed-Forces :
      (f : FilterError floats.f64 → Error) (expression : Bytes)
      (r : Result (FilterChain floats.f64) (FilterError floats.f64))
      → parse_chain floats expression ≡ r
      → is_ok r ≡ true
      → Forces (some expression) (map_err f r >>= λ chain. ok (some chain))
  parsed-Forces f expression (ok chain) e h = (some chain, refl, forced_by e)
  parsed-Forces f expression (err reason) e h = absurd (cc h)

  forced_filter-Forces :
      (name : Bytes) (o : Option Bytes)
      → IsFilter addresses floats o
      → Forces o (forced_filter floats addresses sockets name o)
  unfolding forced_filter
  forced_filter-Forces name none h = (none, refl, not_forced)
  forced_filter-Forces name (some expression) h =
      parsed-Forces (invalid_listener_filter name) expression (parse_chain floats expression) refl h

  -- A port filter that parses is taken over, with the other settings of the port.
  from_config-Configures :
      (l : Listener addresses)
      → IsFilter addresses floats l.filter
      → (context : ListenerContext floats.f64) × (from_config floats addresses sockets l
          ≡ ok context)
        × Configures l context
  unfolding from_config
  from_config-Configures l h =
      let (forced, e, by) = forced_filter-Forces l.name l.filter h in
      let context : ListenerContext floats.f64 = record {
        name = l.name;
        kind = l.kind;
        protocol = l.protocol;
        forced_filter = forced;
        max_clients = l.max_clients;
        hidden = l.hidden;
      } in
      (
        context,
        rw e refl,
        record {
          same_name = refl;
          same_kind = refl;
          same_protocol = refl;
          same_limit = refl;
          same_hidden = refl;
          filtered = by;
        },
      )

  bind_listeners-Bindings :
      (ls : List (Listener addresses))
      → All (λ (l : Listener addresses). IsFilter addresses floats l.filter) ls
      → Bindings ls (bind_listeners floats addresses sockets ls)
  unfolding bind_listeners
  bind_listeners-Bindings [] h = all_bound no_more
  bind_listeners-Bindings (l ∷ ls) h =
      let (context, e, c) = from_config-Configures l h.0 in
      rw e (
        bind_one-Bindings l ls context l.protocol (bind_listeners floats addresses sockets ls) refl
          c (bind_listeners-Bindings ls h.1))

  BoundFrom-[] :
      (ls : List (Listener addresses))
      → BoundFrom ls []
      → All (λ (l : Listener addresses). l.protocol ≡ udp) ls
  BoundFrom-[] [] no_more = tt
  BoundFrom-[] (l ∷ ls) (passed e f) = (e, BoundFrom-[] ls f)

  ended :
      (ls : List (Listener addresses)) (r : Result (List Binding) Error)
      → Bindings ls r
      → Outcome ls (r >>= λ bound. if is_empty bound then err no_tcp_listeners else ok bound)
  ended ls (ok []) (all_bound f) = only_udp (BoundFrom-[] ls f)
  ended ls (ok (b ∷ bs)) (all_bound f) = some_bound f
  ended ls (err e) (one_failed f) = failed f

  -- A validated configuration is never refused for a filter. Its ports are bound: at least one, one
  -- for every TCP listener in the order of the configuration, with the name, kind, protocol, limit of
  -- clients and visibility of its listener, as forced filter what the listener's filter parses to, or
  -- none where it has none, and the socket that is bound to its address, with the address of that
  -- socket. Or the socket of a TCP listener fails, which the error names; or all its listeners are
  -- UDP, and the error says so.
  pub bind_all-Outcome :
      (config : Config addresses)
      → validate addresses floats config ≡ ok tt
      → Outcome config.listeners (bind_all floats addresses sockets config)
  unfolding bind_all
  bind_all-Outcome config valid = ended config.listeners _ (
      bind_listeners-Bindings config.listeners
        ((validate_iff addresses floats config).0 valid).filters)
