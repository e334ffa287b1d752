-- ===== src/Server/Client.antt =====
-- One connected client (crates/aprsr-server/src/client.rs). What the operating system, the runtime and
-- the database do is an interface or an event: the lines that the codec yields, an error of the socket, a
-- time-out. `now_secs()` is an argument. A wait between two steps is a step of `Sessions`.
pub mod Submissions
use aprsr.Prelude.{
  ℕ, ◌+◌, List, [], ◌∷◌, ◌++◌, Option, none, some, Bool, true, false, not, ◌||◌, ◌==◌,
  if◌then◌else◌, ltb, length, map, is_empty, max, ok, err,
}
use aprsr.Bytes.{Bytes, codes, trim, strip_prefix}
use aprsr.Callsign.{as_str}
use aprsr.Passcode.{Verification, may_transmit}
use aprsr.Login
use aprsr.Login.{LoginRequest, verify_request, nonempty}
use aprsr.Dupecheck.{Hasher}
use aprsr.Geo.{Floats}
use aprsr.Filter.{FilterChain}
use aprsr.Filter.Parse.{parse_chain}
use aprsr.Filter.Render.{show_chain}
use aprsr.Aprs.Payload.{parse_payload}
use aprsr.Config.{accepts_filters, is_send_only}
use aprsr.Store.{position_cache}
use aprsr.Server.Metrics.{SessionTotals, incr, add, decr, to_i64, snapshot_totals}
use aprsr.Server.Registry.{Channel, Client, set_filter, insert, remove, count_on_listener}
use aprsr.Server.Dispatch.{Ingest, ServerState}
use aprsr.Server.Codec.{Line, text, oversized, not_utf8}
use aprsr.Server.Listener.{ListenerContext}

-- What a connection task sees of its socket.
pub data Event : Type 0 where
  next : Line → Event
  read_failed timed_out closed : Event

abbrev pub starts_with_hash : Bytes → Bool
starts_with_hash [] = false
starts_with_hash (c ∷ s) = c == b'#'

-- `LoginRequest::parse(&line).ok()`
abbrev pub login_of : Bytes → Option LoginRequest
login_of line = elim (Login.parse line) [ ok login ↦ some login | err e ↦ none ]

-- `read_login`: its answer and the events that it leaves, or nothing while it still waits.
unfoldable pub read_login : List Event → Option (Option LoginRequest × List Event)
read_login [] = none
read_login (next (text line) ∷ rest) =
    let waiting = read_login rest in
    if is_empty (trim line) || starts_with_hash line then waiting else some (login_of line, rest)
read_login (next oversized ∷ rest) = read_login rest
read_login (next not_utf8 ∷ rest) = read_login rest
read_login (read_failed ∷ rest) = some (none, rest)
read_login (timed_out ∷ rest) = some (none, rest)
read_login (closed ∷ rest) = some (none, rest)

unfoldable pub software_of : LoginRequest → Option Bytes
software_of login = elim login.software [
  | none ↦ none
  | some name ↦ elim login.software_version [
    | none ↦ some name
    | some version ↦ some (name ++ codes " " ++ version)
  ]
]

-- The bounded queue of the dispatch task: `submit` and the receiving end.
pub record IngestQueue : Type 1 where
  pub queue : Type 0
  pub submit : Ingest → queue → Option queue
  pub receive : queue → Option (Ingest × queue)

pub record NewSession : Type 0 where
  pub callsign : Bytes
  pub remote_addr : Bytes
  pub listener : Bytes
  pub software : Option Bytes
  pub verified : Bool
  pub filter : Option Bytes
  pub connected_at : ℕ

-- The connection log of the database: the row that `open_session` makes, if it can, and `close_session`.
pub record SessionLog : Type 1 where
  pub log : Type 0
  pub open_session : NewSession → log → log × Option ℕ
  pub close_session : ℕ → ℕ → SessionTotals → log → log

-- What a server is put together from.
pub record Parts : Type 1 where
  pub floats : Floats
  pub channel : Channel
  pub hasher : Hasher
  pub ingest : IngestQueue
  pub session_log : SessionLog
  pub open_channel : ℕ → channel.sender
  pub client_queue : ℕ

module _ (parts : Parts) where
  open parts use {floats, channel, hasher, ingest, session_log, open_channel, client_queue}

  abbrev pub Context : Type 0
  Context = ListenerContext floats.f64

  abbrev pub Chain : Type 0
  Chain = FilterChain floats.f64

  abbrev pub Entry : Type 0
  Entry = Client floats channel

  abbrev pub State : Type 0
  State = ServerState floats channel (position_cache floats) hasher (parse_payload floats)

  -- The shared state, the queue of the dispatch task and the connection log, if there is one.
  pub record Running : Type 0 where
    pub server : State
    pub queue : ingest.queue
    pub store : Option session_log.log

  abbrev pub with_clients : (List Entry → List Entry) → Running → Running
  with_clients f r = record r {
    server = record r.server {
      registry = record r.server.registry { clients = f r.server.registry.clients };
    };
  }

  -- A change of the shared `Client` behind an identifier.
  abbrev pub update_client : ℕ → (Entry → Entry) → Running → Running
  update_client id f = with_clients (map (λ (c : Entry). if c.id == id then f c else c))

  unfoldable pub initial_filter : Context → Option Bytes → Chain × Bool
  initial_filter listener requested = elim listener.forced_filter [
    | some forced ↦ (forced, true)
    | none ↦ if not (accepts_filters listener.kind) then (record { entries = [] }, true) else (
      elim requested [
        | none ↦ record { entries = [] }
        | some expression ↦ elim (parse_chain floats expression) [
          | ok chain ↦ chain
          | err e ↦ record { entries = [] }
        ]
      ],
      false,
    )
  ]

  -- The test of `serve` before the banner.
  unfoldable pub is_full : Context → Running → Bool
  is_full listener r = elim listener.max_clients [
    | none ↦ false
    | some limit ↦
        not (ltb (count_on_listener floats channel r.server.registry listener.name) limit)
  ]

  -- `open_session_row`
  unfoldable pub open_session_row : NewSession → Running → Running × Option ℕ
  open_session_row session r = elim r.store [
    | none ↦ (r, none)
    | some log ↦
        let (log', id) = session_log.open_session session log in
        (record r { store = some log' }, id)
  ]

  -- `register`: the log row and the entry in the registry.
  unfoldable pub register :
      LoginRequest → Verification → Bytes → Context → ℕ → Running → Running × Entry
  register login verification peer listener now r =
      let (filter, locked) = initial_filter listener login.filter in
      let (r', session_id) =
        open_session_row
          (record {
            callsign = as_str login.callsign;
            remote_addr = peer;
            listener = listener.name;
            software = software_of login;
            verified = may_transmit verification;
            filter = nonempty (show_chain floats filter);
            connected_at = to_i64 now;
          })
          r in
      let (registry, client) = insert floats channel r'.server.registry (record {
        callsign = as_str login.callsign;
        remote = peer;
        listener = listener.name;
        port_kind = listener.kind;
        software = software_of login;
        verified = may_transmit verification;
        connected_at = now;
        session_id = session_id;
        filter = filter;
        filter_locked = locked;
        outbox = open_channel (max client_queue 1);
      }) in
      (record r' { server = record r'.server { registry = registry } }, client)

  -- The counters of `serve`.
  unfoldable pub count_login_rejected : Running → Running
  count_login_rejected r = record r {
    server = record r.server {
      metrics = record r.server.metrics { logins_rejected = incr r.server.metrics.logins_rejected };
    };
  }

  unfoldable pub count_connected : Running → Running
  count_connected r = record r {
    server = record r.server {
      metrics = record r.server.metrics {
        clients_connected = incr r.server.metrics.clients_connected;
        clients_total = incr r.server.metrics.clients_total;
      };
    };
  }

  -- `disconnect`, in its two parts: the registry, then the gauge and the log row.
  unfoldable pub leave_registry : ℕ → Running → Running × Option Entry
  leave_registry id r =
      let (registry, client) = remove floats channel r.server.registry id in
      (record r { server = record r.server { registry = registry } }, client)

  unfoldable pub close_row : ℕ → Entry → Running → Running
  close_row now client r = elim r.store [
    | none ↦ r
    | some log ↦ elim client.session_id [
      | none ↦ r
      | some id ↦ record r {
        store =
            some (session_log.close_session id (to_i64 now) (snapshot_totals client.counters) log);
      }
    ]
  ]

  unfoldable pub close_session : ℕ → Option Entry → Running → Running
  close_session now client r =
      let r' = record r {
        server = record r.server {
          metrics = record r.server.metrics {
            clients_connected = decr r.server.metrics.clients_connected;
          };
        };
      } in
      elim client [ none ↦ r' | some entry ↦ close_row now entry r' ]
