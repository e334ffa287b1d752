-- ===== src/Server/Registry.antt =====
-- The client registry and the fan-out of a packet (crates/aprsr-server/src/registry.rs).
pub mod Clients
pub mod Fanout
use mathlib.Core.Option
use aprsr.Prelude.{
  ℕ, ◌+◌, ◌-◌, List, [], ◌∷◌, ◌++◌, Option, none, some, Bool, true, false, not, ◌&&◌, ◌||◌, ltb,
  ◌==◌, if◌then◌else◌, length, keep, is_empty,
}
use aprsr.Bytes.{Bytes, str_eq}
use aprsr.Packet.{Packet}
use aprsr.Geo.{Floats, Position}
use aprsr.Aprs.{ParsedPayload}
use aprsr.Filter.{FilterChain}
use aprsr.Filter.Matches.{MatchContext, matches_chain}
use aprsr.Config.{PortKind, full_feed, igate, dupe_feed, udp_submit}
use aprsr.Server.Metrics.{Metrics, ClientCounters, new_counters, incr, add}

-- The sending half of a bounded channel: `try_send` gives the channel that holds the line, or
-- nothing where the channel is full or closed.
pub record Channel : Type 1 where
  pub sender : Type 0
  pub try_send : sender → Bytes → Option sender

module _ (floats : Floats) (channel : Channel) where
  pub record Client : Type 0 where
    pub id : ℕ
    pub callsign : Bytes
    pub remote : Bytes
    pub listener : Bytes
    pub port_kind : PortKind
    pub software : Option Bytes
    pub verified : Bool
    pub connected_at : ℕ
    pub session_id : Option ℕ
    pub counters : ClientCounters
    pub filter : FilterChain floats.f64
    pub filter_locked : Bool
    pub outbox : channel.sender

  pub record Registration : Type 0 where
    pub callsign : Bytes
    pub remote : Bytes
    pub listener : Bytes
    pub port_kind : PortKind
    pub software : Option Bytes
    pub verified : Bool
    pub connected_at : ℕ
    pub session_id : Option ℕ
    pub filter : FilterChain floats.f64
    pub filter_locked : Bool
    pub outbox : channel.sender

  -- The map from identifiers to clients is the list of its clients, in the order of its iteration.
  pub record ClientRegistry : Type 0 where
    pub clients : List Client
    pub next_id : ℕ

  unfoldable pub new : ClientRegistry
  new = record { clients = []; next_id = 0 }

  -- `Client::set_filter`: the client behind it, and whether the filter was replaced.
  unfoldable pub set_filter : Client → FilterChain floats.f64 → Client × Bool
  set_filter client chain =
      if client.filter_locked then (client, false) else (record client { filter = chain }, true)

  unfoldable pub without : ℕ → List Client → List Client
  without id clients = keep (λ (c : Client). not (c.id == id)) clients

  abbrev pub client_of : ℕ → Registration → Client
  client_of id r = record {
    id = id;
    callsign = r.callsign;
    remote = r.remote;
    listener = r.listener;
    port_kind = r.port_kind;
    software = r.software;
    verified = r.verified;
    connected_at = r.connected_at;
    session_id = r.session_id;
    counters = new_counters;
    filter = r.filter;
    filter_locked = r.filter_locked;
    outbox = r.outbox;
  }

  unfoldable pub insert : ClientRegistry → Registration → ClientRegistry × Client
  insert registry registration =
      let client = client_of registry.next_id registration in
      (
        record {
          clients = client ∷ without registry.next_id registry.clients;
          next_id = incr registry.next_id;
        },
        client,
      )

  unfoldable pub find_client : ℕ → List Client → Option Client
  find_client id [] = none
  find_client id (c ∷ cs) = let later = find_client id cs in if c.id == id then some c else later

  unfoldable pub get : ClientRegistry → ℕ → Option Client
  get registry id = find_client id registry.clients

  unfoldable pub remove : ClientRegistry → ℕ → ClientRegistry × Option Client
  remove registry id = (record registry { clients = without id registry.clients }, get registry id)

  unfoldable pub len : ClientRegistry → ℕ
  len registry = length registry.clients

  unfoldable pub no_clients : ClientRegistry → Bool
  no_clients registry = is_empty registry.clients

  unfoldable pub count_on_listener : ClientRegistry → Bytes → ℕ
  count_on_listener registry listener =
      length (keep (λ (c : Client). str_eq c.listener listener) registry.clients)

  -- `(a.connected_at, a.id) <= (b.connected_at, b.id)`
  abbrev pub earlier : Client → Client → Bool
  earlier a b =
      ltb a.connected_at b.connected_at
      || ((a.connected_at == b.connected_at) && not (ltb b.id a.id))

  abbrev pub sorted_insert : Client → List Client → List Client
  sorted_insert c [] = c ∷ []
  sorted_insert c (d ∷ ds) =
      let rest = sorted_insert c ds in if earlier c d then c ∷ d ∷ ds else d ∷ rest

  -- `sort_by_key`, a stable sort.
  abbrev pub sort_by_key : List Client → List Client
  sort_by_key [] = []
  sort_by_key (c ∷ cs) = sorted_insert c (sort_by_key cs)

  unfoldable pub snapshot : ClientRegistry → List Client
  snapshot registry = sort_by_key registry.clients

  -- The two ends of `try_send`: the counters of the client and of the server.
  unfoldable pub queued : ℕ → Client → Metrics → Option channel.sender → Client × Metrics
  queued bytes client metrics (some outbox) = (
    record client {
      outbox = outbox;
      counters = record client.counters {
        packets_sent = incr client.counters.packets_sent;
        bytes_sent = add client.counters.bytes_sent bytes;
      };
    },
    record metrics {
      packets_sent = incr metrics.packets_sent;
      bytes_sent = add metrics.bytes_sent bytes;
    },
  )
  queued bytes client metrics none = (
    record client {
      counters = record client.counters { packets_dropped = incr client.counters.packets_dropped };
    },
    record metrics { packets_dropped_slow = incr metrics.packets_dropped_slow },
  )

  module _ (packet : Packet) (parsed : ParsedPayload floats.f64)
      (positions : Bytes → Option (Position floats.f64)) where
    unfoldable pub accepts : Client → Bool
    accepts client = elim client.port_kind [
      | full_feed ↦ true
      | udp_submit ↦ false
      | dupe_feed ↦ false
      | igate ↦ matches_chain floats client.filter (record {
        packet = packet;
        parsed = parsed;
        client = some client.callsign;
        positions = positions;
      })
    ]

    -- `Some(client.id) == origin`
    unfoldable pub is_origin : Option ℕ → Client → Bool
    is_origin none client = false
    is_origin (some id) client = client.id == id

    -- The round of the fan-out loop for one client.
    unfoldable pub deliver : Bytes → Option ℕ → Client → Metrics → Client × Metrics
    deliver line origin client metrics =
        if is_origin origin client
        then (client, metrics)
        else if not (accepts client)
        then (client, metrics)
        else queued (length line + 2) client metrics (channel.try_send client.outbox line)

    unfoldable pub deliver_all : Bytes → Option ℕ → List Client → Metrics → List Client × Metrics
    deliver_all line origin [] metrics = ([], metrics)
    deliver_all line origin (client ∷ clients) metrics =
        let (client', metrics') = deliver line origin client metrics in
        let (clients', metrics'') = deliver_all line origin clients metrics' in
        (client' ∷ clients', metrics'')

    unfoldable pub broadcast :
        ClientRegistry → Bytes → Option ℕ → Metrics → ClientRegistry × Metrics
    broadcast registry line origin metrics =
        let (clients, metrics') = deliver_all line origin registry.clients metrics in
        (record registry { clients = clients }, metrics')
