-- ===== src/Server/Registry/Fanout.antt =====
-- Who receives a packet, and what the counters say of it.
use aprsr.Prelude.{
  ℕ, ◌+◌, ◌*◌, ◌%◌, ◌^◌, ◌<◌, List, [], ◌∷◌, Option, none, some, Bool, true, false, not, ◌&&◌,
  length, keep, is_some, if◌then◌else◌, ◌≡◌,
}
use aprsr.Bytes.{Bytes}
use aprsr.Packet.{Packet}
use aprsr.Geo.{Floats, Position}
use aprsr.Aprs.{ParsedPayload}
use aprsr.Server.Metrics.{Metrics, incr, add}
use aprsr.Server.Registry.{Channel, Client, accepts, is_origin}

module _ (floats : Floats) (channel : Channel) (packet : Packet) (parsed : ParsedPayload floats.f64)
    (positions : Bytes → Option (Position floats.f64)) (line : Bytes) (origin : Option ℕ) where
  -- A client that is offered the packet: not its origin, and one that accepts it.
  abbrev pub offered : Client floats channel → Bool
  offered c =
      not (is_origin floats channel packet parsed positions origin c)
      && accepts floats channel packet parsed positions c

  -- One whose queue takes the line, and one whose queue does not.
  abbrev pub served : Client floats channel → Bool
  served c = offered c && is_some (channel.try_send c.outbox line)

  abbrev pub refused : Client floats channel → Bool
  refused c = offered c && not (is_some (channel.try_send c.outbox line))

  abbrev pub count : (Client floats channel → Bool) → List (Client floats channel) → ℕ
  count p cs = length (keep p cs)

  record Moved (c : Client floats channel) (m n : Metrics) : Type 0 where
    sent_moved : n.packets_sent ≡ (if served c then incr m.packets_sent else m.packets_sent)
    bytes_moved :
        n.bytes_sent ≡ (if served c then add m.bytes_sent (length line + 2) else m.bytes_sent)
    dropped_moved :
        n.packets_dropped_slow
        ≡ (if refused c then incr m.packets_dropped_slow else m.packets_dropped_slow)

  -- The counters that a fan-out moves are below 2 ^ 64.
  pub record Counters (m : Metrics) : Type 0 where
    pub sent_fits : m.packets_sent < 2 ^ 64
    pub bytes_fits : m.bytes_sent < 2 ^ 64
    pub dropped_fits : m.packets_dropped_slow < 2 ^ 64

  pub record Totals (m n : Metrics) (cs : List (Client floats channel)) : Type 0 where
    pub sent_total : n.packets_sent ≡ (m.packets_sent + count served cs) % 2 ^ 64
    pub bytes_total : n.bytes_sent ≡ (m.bytes_sent + count served cs * (length line + 2)) % 2 ^ 64
    pub dropped_total :
        n.packets_dropped_slow ≡ (m.packets_dropped_slow + count refused cs) % 2 ^ 64

  -- Every field of the client but its queue and its counters.
  pub record SameClient (a b : Client floats channel) : Type 0 where
    pub same_id : a.id ≡ b.id
    pub same_filter : a.filter ≡ b.filter
    pub same_port : a.port_kind ≡ b.port_kind
    pub untouched : offered b ≡ false → a ≡ b
    pub enqueued :
        (o : channel.sender)
        → offered b ≡ true
        → channel.try_send b.outbox line ≡ some o
        → a.outbox ≡ o
    pub passed_over : channel.try_send b.outbox line ≡ none → a.outbox ≡ b.outbox

  -- The two lists, client by client.
  abbrev pub AllSame : List (Client floats channel) → List (Client floats channel) → Type 0
  AllSame [] [] = Unit
  AllSame (a ∷ xs) (b ∷ ys) = SameClient a b × AllSame xs ys
  AllSame _ _ = ⊥
