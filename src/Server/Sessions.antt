-- ===== src/Server/Sessions.antt =====
-- The connections of a running server (`serve` and `disconnect` of crates/aprsr-server/src/client.rs and
-- `accept_loop` of crates/aprsr-server/src/lib.rs) as a relation of steps: a step is what one task does
-- between two waits, and any task may take the next one. Opening and closing the row of the connection
-- log are waits on the database that are part of their step. A listing of the sessions keeps those that
-- have registered in the order of the registry, the newest first.
pub mod Matched
pub mod Undisturbed
pub mod Dispatched
pub mod Entered
pub mod Consistent
pub mod Moved
pub mod Reachable
pub mod Drained
use aprsr.Prelude.{
  ℕ, zero, suc, ◌+◌, List, [], ◌∷◌, ◌++◌, Option, none, some, Bool, true, false, if◌then◌else◌, ◌≡◌,
}
use aprsr.Bytes.{Bytes}
use aprsr.Callsign.{as_str}
use aprsr.Passcode.{Verification, verified, receive_only_login, invalid, may_transmit}
use aprsr.Login.{LoginRequest, verify_request}
use aprsr.Server.Registry.{find_client}
use aprsr.Server.Dispatch.{Ingest, process}
use aprsr.Server.Codec.{Line}
use aprsr.Server.Client.{
  Event, read_login, Parts, Context, Entry, Running, is_full, register, count_login_rejected,
  count_connected, leave_registry, close_session,
}
use aprsr.Server.Client.Submissions.{Account, read_submission}

-- A rejected passcode is counted, and the client stays connected.
unfoldable pub count_invalid_login : {parts : Parts} → Verification → Running parts → Running parts
count_invalid_login {parts} invalid r = count_login_rejected parts r
count_invalid_login verified r = r
count_invalid_login receive_only_login r = r

module _ (parts : Parts) where
  -- Where the task of a connection waits.
  pub data Phase : Type 0 where
    greeting : Phase
    registered serving : Account parts → Phase
    leaving : Option (Entry parts) → Phase

  pub record Session : Type 0 where
    pub listener : Context parts
    pub phase : Phase

  pub record World : Type 0 where
    pub running : Running parts
    pub sessions : List Session

  abbrev pub account_of : Entry parts → Account parts
  account_of client = record {
    id = client.id;
    callsign = client.callsign;
    verified = client.verified;
  }

  -- The state behind `register` for a login that was read.
  unfoldable pub enter :
      LoginRequest → Bytes → Context parts → ℕ → Running parts → Running parts × Entry parts
  enter login peer listener now r =
      register parts login (verify_request login) peer listener now
        (count_invalid_login (verify_request login) r)

  abbrev pub session : Context parts → Phase → Session
  session listener phase = record { listener = listener; phase = phase }

  unfoldable pub dispatch_one : Ingest → ℕ → Running parts → Running parts
  dispatch_one packet now r = record r {
    server = (process parts.floats parts.channel _ parts.hasher _ packet now r.server).0;
  }

  -- The tasks run against the state `w`; `before` and `after` are the other sessions.
  pub data Step (w : World) : World → Type 0 where
    -- the accept loop takes a connection, and the port has room
    accept :
        (listener : Context parts)
        → is_full parts listener w.running ≡ false
        → Step w (record w { sessions = session listener greeting ∷ w.sessions })
    -- the connection breaks off before it registers
    hang_up :
        (before after : List Session) (listener : Context parts)
        → w.sessions ≡ before ++ session listener greeting ∷ after
        → Step w (record w { sessions = before ++ after })
    -- no login, or one that does not parse
    refuse :
        (before after : List Session) (listener : Context parts) (events rest : List Event)
        → w.sessions ≡ before ++ session listener greeting ∷ after
        → read_login events ≡ some (none, rest)
        → Step w
            (record { running = count_login_rejected parts w.running; sessions = before ++ after })
    -- the login is read, and the client is in the registry
    log_in :
        (before after : List Session) (listener : Context parts) (events rest : List Event)
        (login : LoginRequest) (peer : Bytes) (now : ℕ)
        → w.sessions ≡ before ++ session listener greeting ∷ after
        → read_login events ≡ some (some login, rest)
        → Step w (record {
          running = (enter login peer listener now w.running).0;
          sessions =
              session listener (registered (account_of (enter login peer listener now w.running).1))
              ∷ (before ++ after);
        })
    -- the counters of the new client
    connect :
        (before after : List Session) (listener : Context parts) (account : Account parts)
        → w.sessions ≡ before ++ session listener (registered account) ∷ after
        → Step w (record {
          running = count_connected parts w.running;
          sessions = before ++ session listener (serving account) ∷ after;
        })
    -- a line of the client
    read :
        (before after : List Session) (listener : Context parts) (account : Account parts)
        (line : Line)
        → w.sessions ≡ before ++ session listener (serving account) ∷ after
        → Step w (record w { running = read_submission parts listener account line w.running })
    -- the dispatch task takes a packet from its queue
    dispatch :
        (packet : Ingest) (queue : parts.ingest.queue) (now : ℕ)
        → parts.ingest.receive w.running.queue ≡ some (packet, queue)
        → Step w
            (record w { running = dispatch_one packet now (record w.running { queue = queue }) })
    -- the connection ends, by its client, a time-out, an error or the shutdown
    leave :
        (before after : List Session) (listener : Context parts) (account : Account parts)
        → w.sessions ≡ before ++ session listener (serving account) ∷ after
        → Step w (record {
          running = (leave_registry parts account.id w.running).0;
          sessions =
              before
              ++ session listener (leaving (leave_registry parts account.id w.running).1) ∷ after;
        })
    -- the gauge and the connection log
    close :
        (before after : List Session) (listener : Context parts) (client : Option (Entry parts))
        (now : ℕ)
        → w.sessions ≡ before ++ session listener (leaving client) ∷ after
        → Step w (record {
          running = close_session parts now client w.running;
          sessions = before ++ after;
        })

  -- The worlds that are reached, with the number of steps.
  pub data Reach (start : World) : ℕ → World → Type 0 where
    here : Reach start zero start
    later : {n : ℕ} {w v : World} → Reach start n w → Step w v → Reach start (suc n) v
