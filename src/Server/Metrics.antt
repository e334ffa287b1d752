-- ===== src/Server/Metrics.antt =====
-- The counters (crates/aprsr-server/src/metrics.rs). An `AtomicU64` is its number: `fetch_add` and
-- `fetch_sub` wrap at 64 bits, and the calls of one task run one after another.
use aprsr.Prelude.{ℕ, ◌+◌, ◌%◌, ◌^◌, ◌-◌, leb, if◌then◌else◌}

pub record Metrics : Type 0 where
  pub packets_received : ℕ
  pub packets_sent : ℕ
  pub packets_duplicate : ℕ
  pub packets_invalid : ℕ
  pub packets_rejected : ℕ
  pub packets_unverified : ℕ
  pub packets_dropped_slow : ℕ
  pub bytes_received : ℕ
  pub bytes_sent : ℕ
  pub clients_connected : ℕ
  pub clients_total : ℕ
  pub logins_rejected : ℕ

unfoldable pub new : Metrics
new = record {
  packets_received = 0;
  packets_sent = 0;
  packets_duplicate = 0;
  packets_invalid = 0;
  packets_rejected = 0;
  packets_unverified = 0;
  packets_dropped_slow = 0;
  bytes_received = 0;
  bytes_sent = 0;
  clients_connected = 0;
  clients_total = 0;
  logins_rejected = 0;
}

abbrev pub add : ℕ → ℕ → ℕ
add counter value = (counter + value) % 2 ^ 64

abbrev pub incr : ℕ → ℕ
incr counter = (counter + 1) % 2 ^ 64

abbrev pub decr : ℕ → ℕ
decr counter = (counter + (2 ^ 64 - 1)) % 2 ^ 64

pub record ClientCounters : Type 0 where
  pub packets_received : ℕ
  pub packets_sent : ℕ
  pub packets_dropped : ℕ
  pub bytes_received : ℕ
  pub bytes_sent : ℕ

unfoldable pub new_counters : ClientCounters
new_counters = record {
  packets_received = 0;
  packets_sent = 0;
  packets_dropped = 0;
  bytes_received = 0;
  bytes_sent = 0;
}

-- `i64::try_from(…).unwrap_or(i64::MAX)`
abbrev pub to_i64 : ℕ → ℕ
to_i64 n = if leb n (2 ^ 63 - 1) then n else 2 ^ 63 - 1

pub record SessionTotals : Type 0 where
  pub packets_received : ℕ
  pub packets_sent : ℕ
  pub packets_dropped : ℕ
  pub bytes_received : ℕ
  pub bytes_sent : ℕ

-- `ClientCounters::snapshot`
unfoldable pub snapshot_totals : ClientCounters → SessionTotals
snapshot_totals c = record {
  packets_received = to_i64 c.packets_received;
  packets_sent = to_i64 c.packets_sent;
  packets_dropped = to_i64 c.packets_dropped;
  bytes_received = to_i64 c.bytes_received;
  bytes_sent = to_i64 c.bytes_sent;
}
