-- ===== src/Server/Client/Submissions.antt =====
-- What a client sends once it is logged in (`read_submissions` and `apply_filter_command` of
-- crates/aprsr-server/src/client.rs).
use aprsr.Prelude.{
  ℕ, ◌+◌, Option, none, some, Bool, false, not, ◌||◌, if◌then◌else◌, length, is_empty, ok, err,
}
use aprsr.Bytes.{Bytes, codes, trim, strip_prefix}
use aprsr.Filter.Parse.{parse_chain}
use aprsr.Config.{accepts_filters, is_send_only}
use aprsr.Server.Metrics.{incr, add}
use aprsr.Server.Registry.{set_filter}
use aprsr.Server.Dispatch.{Ingest}
use aprsr.Server.Codec.{Line, text, oversized, not_utf8}
use aprsr.Server.Client.{Parts, Context, Entry, Running, update_client, starts_with_hash}

module _ (parts : Parts) where
  open parts use {floats, channel, ingest}

  -- `apply_filter_command`
  unfoldable pub apply_filter_command : Context parts → Bytes → Entry parts → Entry parts
  apply_filter_command listener expression client =
      if not (accepts_filters listener.kind) || client.filter_locked
      then client
      else elim (parse_chain floats expression) [
        | ok chain ↦ (set_filter floats channel client chain).0
        | err e ↦ client
      ]

  -- The expression of an in-band command.
  unfoldable pub filter_command : Bytes → Option Bytes
  filter_command trimmed = elim (strip_prefix (codes "filter ") trimmed) [
    | some expression ↦ some expression
    | none ↦ strip_prefix (codes "#filter ") trimmed
  ]

  abbrev pub count_metric_invalid : Running parts → Running parts
  count_metric_invalid r = record r {
    server = record r.server {
      metrics = record r.server.metrics { packets_invalid = incr r.server.metrics.packets_invalid };
    };
  }

  -- The counters of the client.
  abbrev pub count_dropped : Entry parts → Entry parts
  count_dropped c = record c {
    counters = record c.counters { packets_dropped = incr c.counters.packets_dropped };
  }

  abbrev pub count_bytes : ℕ → Entry parts → Entry parts
  count_bytes n c = record c {
    counters = record c.counters { bytes_received = add c.counters.bytes_received n };
  }

  abbrev pub count_packet : Entry parts → Entry parts
  count_packet c = record c {
    counters = record c.counters { packets_received = incr c.counters.packets_received };
  }

  -- What a connection knows of its own client.
  pub record Account : Type 0 where
    pub id : ℕ
    pub callsign : Bytes
    pub verified : Bool

  -- `dispatcher.submit`, and the count of a packet that the queue does not take.
  unfoldable pub submit : Ingest → Running parts → Running parts
  submit packet r = elim (ingest.submit packet r.queue) [
    | some queue ↦ record r { queue = queue }
    | none ↦ record r {
      server = record r.server {
        metrics = record r.server.metrics {
          packets_dropped_slow = incr r.server.metrics.packets_dropped_slow;
        };
      };
    }
  ]

  unfoldable pub submit_line : Context parts → Account → Bytes → Running parts → Running parts
  submit_line listener account line r =
      submit
        (record {
          line = line;
          origin = some account.id;
          login = account.callsign;
          verified = account.verified;
          via_udp = false;
          send_only = is_send_only listener.kind;
        })
        (update_client parts account.id count_packet r)

  -- A filter command, or a packet.
  unfoldable pub after_command :
      Context parts → Account → Bytes → Option Bytes → Running parts → Running parts
  after_command listener account line (some expression) r =
      update_client parts account.id (apply_filter_command listener expression) r
  after_command listener account line none r = submit_line listener account line r

  -- A line of text, once its bytes are counted.
  unfoldable pub read_text : Context parts → Account → Bytes → Running parts → Running parts
  read_text listener account line r =
      let trimmed = trim line in
      if is_empty trimmed
      then r
      else if starts_with_hash trimmed
      then r
      else after_command listener account line (filter_command trimmed) r

  -- One round of the loop of `read_submissions` that does not end it.
  unfoldable pub read_submission : Context parts → Account → Line → Running parts → Running parts
  read_submission listener account (text line) r =
      read_text listener account line
        (update_client parts account.id (count_bytes (length line + 2)) r)
  read_submission listener account oversized r =
      update_client parts account.id count_dropped (count_metric_invalid r)
  read_submission listener account not_utf8 r =
      update_client parts account.id count_dropped (count_metric_invalid r)
