-- ===== src/Tests/Connections.antt =====
-- A connection from its acceptance to its first line, at concrete inputs.
use aprsr.Prelude.{
  ℕ, ◌+◌, ◌*◌, List, [], ◌∷◌, ◌++◌, Option, none, some, false, length, ◌≡◌, refl, arith,
}
use aprsr.Prelude.Int.{negsuc}
use aprsr.Bytes
use aprsr.Bytes.{Bytes, codes}
use aprsr.Numbers.{parse_i32, parse_u16, parse_unsigned, parse_digits, digits_onto}
use aprsr.Callsign
use aprsr.Login
use aprsr.Login.{LoginRequest}
use aprsr.Dupecheck.{with_window}
use aprsr.Config.{igate, tcp}
use aprsr.Server.Dispatch.{Ingest}
use aprsr.Server.Codec.{Line, text}
use aprsr.Server.Client
use aprsr.Server.Client.{
  Event, next, IngestQueue, SessionLog, Parts, Context, Running, read_login, count_connected,
}
use aprsr.Server.Client.Submissions.{Account, read_submission}
use aprsr.Server.Sessions.{
  serving, World, accept, log_in, connect, read, Reach, here, later, session, account_of, enter,
}
use aprsr.Server.Sessions.Consistent.{IsConsistent}
use aprsr.Server.Sessions.Reachable.{IsFresh, Reach-IsConsistent}
use aprsr.Server.Sessions.Drained.{Reaches, sessions-Drained}
use aprsr.Tests.Filters.{whole}
use aprsr.Tests.Serving.{queue, sizes, zero_metrics}

abbrev first_of : List Ingest → Option (Ingest × List Ingest)
first_of [] = none
first_of (packet ∷ rest) = some (packet, rest)

abbrev parts : Parts
parts = record {
  floats = whole;
  channel = queue;
  hasher = sizes;
  ingest = record {
    queue = List Ingest;
    submit = λ packet waiting. some (waiting ++ packet ∷ []);
    receive = first_of;
  };
  session_log = record {
    log = ℕ;
    open_session = λ _ n. (n + 1, some n);
    close_session = λ _ _ _ n. n;
  };
  open_channel = λ _. [];
  client_queue = 16;
}

abbrev port : Context parts
port = record {
  name = codes "igate";
  kind = igate;
  protocol = tcp;
  forced_filter = none;
  max_clients = none;
  hidden = false;
}

abbrev login : LoginRequest
login = record {
  callsign = record { raw = codes "N0CALL"; separator = none };
  passcode = negsuc 0;
  software = none;
  software_version = none;
  udp_port = none;
  filter = none;
}

abbrev peer : Bytes
peer = codes "192.0.2.1:5000"

abbrev started : World parts
started = record {
  running = record {
    server = record {
      server_id = codes "T2X";
      metrics = zero_metrics;
      registry = record { clients = []; next_id = 0 };
      known = [];
      dupecheck = with_window 30;
    };
    queue = [];
    store = some 0;
  };
  sessions = [];
}

abbrev entered : Running parts
entered = (enter parts login peer port 100 started.running).0

abbrev account : Account parts
account = account_of parts (enter parts login peer port 100 started.running).1

abbrev line : Line
line = text (codes "N0CALL>APRS:hi")

abbrev served : World parts
served = record {
  running = read_submission parts port account line (count_connected parts entered);
  sessions = session parts port (serving account) ∷ [];
}

abbrev events : List Event
events = next (text (codes "# hello")) ∷ next (text (codes "user N0CALL pass -1")) ∷ []

is_read : read_login events ≡ some (some login, [])
unfolding read_login Login.parse Login.parse_words Login.parse_user Login.parse_pass
    Login.parse_passcode Login.groups Bytes.trim Bytes.join_chars Bytes.skip_whitespace Bytes.chars
    Bytes.trim_end Bytes.onto_char Bytes.is_whitespace Bytes.split_ascii_whitespace
    Bytes.eq_ignore_ascii_case Callsign.parse_login Callsign.parse Callsign.validate Callsign.scan
    Callsign.check_ssid parse_i32 parse_digits digits_onto Bytes.join_spaces Bytes.space1
    Bytes.space2 Bytes.space3 Bytes.first_char Login.keyword Login.nonempty Login.read_port
    parse_u16 parse_unsigned
is_read = refl

served-reached : Reach parts started 4 served
unfolding Client.is_full
served-reached =
    later
      (later
        (later (later here (accept port refl))
          (log_in [] [] port events [] login peer 100 refl is_read))
        (connect [] [] port account refl))
      (read [] [] port account line refl)

fresh : IsFresh parts started
fresh = record { no_sessions = refl; no_clients = refl; no_gauge = refl }

Reach-IsConsistent_example : IsConsistent parts 4 served
Reach-IsConsistent_example =
    Reach-IsConsistent parts started 4 served fresh served-reached (omega arith)

sessions-Drained_example :
    (last : Reaches parts started (4 + 3 * length served.sessions) [])
    × (last.world.running.server.registry.clients ≡ [])
    × (last.world.running.server.metrics.clients_connected ≡ 0)
sessions-Drained_example =
    sessions-Drained parts started served 4 fresh served-reached (omega arith)
