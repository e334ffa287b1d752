-- ===== src/Server/Sessions/Entered.antt =====
-- What the registration of a client (`register` of crates/aprsr-server/src/client.rs) does to the
-- registry: one `insert`, of a client that its port's filter rules hold for.
use aprsr.Prelude.{
  ℕ, Option, none, some, Bool, true, ◌≡◌, ◌⊎◌, inl, inr, refl, ap, max, ◌∙◌, Option-cases,
  Bool-cases,
}
use aprsr.Bytes.{Bytes}
use aprsr.Callsign.{as_str}
use aprsr.Passcode.{Verification, verified, receive_only_login, invalid, may_transmit}
use aprsr.Login.{LoginRequest, verify_request, nonempty}
use aprsr.Filter.Render.{show_chain}
use aprsr.Config.{accepts_filters}
use aprsr.Server.Metrics.{to_i64}
use aprsr.Server.Registry.{Registration, client_of, insert}
use aprsr.Server.Client.{
  Parts, Context, Chain, State, software_of, Entry, Running, NewSession, initial_filter,
  open_session_row, register, count_login_rejected,
}
use aprsr.Server.Sessions.{count_invalid_login, enter}
use aprsr.Server.Sessions.Matched.{IsForced, Serves}

module _ (parts : Parts) where
  open parts use {floats, channel}

  open_session_row-server :
      (session : NewSession) (r : Running parts)
      → (open_session_row parts session r).0.server ≡ r.server
  unfolding open_session_row
  open_session_row-server session r = elim (Option-cases r.store) [
    | inl e ↦ rw (e, open_session_row) refl
    | inr (log, e) ↦ rw (e, open_session_row) refl
  ]

  -- A login changes a running server by one `insert`.
  pub record Enters (listener : Context parts) (r : Running parts)
      (out : Running parts × Entry parts) : Type 0 where
    pub reg : Registration floats channel
    pub registry_is : out.0.server.registry ≡ (insert floats channel r.server.registry reg).0
    pub client_is : out.1 ≡ (insert floats channel r.server.registry reg).1
    pub gauge_is : out.0.server.metrics.clients_connected ≡ r.server.metrics.clients_connected
    pub serves : (id : ℕ) → Serves parts listener id (client_of floats channel id reg)

  initial_filter-rules :
      (listener : Context parts) (requested : Option Bytes) (c : Entry parts)
      (o : Option (Chain parts))
      → listener.forced_filter ≡ o
      → c.filter ≡ (initial_filter parts listener requested).0
      → c.filter_locked ≡ (initial_filter parts listener requested).1
      → IsForced parts o c × ((accepts_filters listener.kind ≡ true) ⊎ (c.filter_locked ≡ true))
  unfolding initial_filter
  initial_filter-rules listener requested c (some chain) e f l =
      let same : initial_filter parts listener requested ≡ (chain, true) =
        rw (e, initial_filter) refl in
      let locked = l ∙ ap (λ (p : Chain parts × Bool). p.1) same in
      ((f ∙ ap (λ (p : Chain parts × Bool). p.0) same, locked), inr locked)
  initial_filter-rules listener requested c none e f l =
      elim (Bool-cases (accepts_filters listener.kind)) [
        | inl filters ↦ (tt, inl filters)
        | inr plain ↦
            let locked : (initial_filter parts listener requested).1 ≡ true =
              rw (e, plain, initial_filter) refl in
            (tt, inr (l ∙ locked))
      ]

  register-Enters :
      (login : LoginRequest) (v : Verification) (peer : Bytes) (listener : Context parts) (now : ℕ)
      (r : Running parts)
      → Enters listener r (register parts login v peer listener now r)
  unfolding register
  register-Enters login v peer listener now r =
      let rules = λ (c : Entry parts).
        initial_filter-rules listener login.filter c listener.forced_filter refl in
      let session : NewSession = record {
        callsign = as_str login.callsign;
        remote_addr = peer;
        listener = listener.name;
        software = software_of login;
        verified = may_transmit v;
        filter = nonempty (show_chain floats (initial_filter parts listener login.filter).0);
        connected_at = to_i64 now;
      } in
      let same = open_session_row-server session r in
      let registration : Registration floats channel = record {
        callsign = as_str login.callsign;
        remote = peer;
        listener = listener.name;
        port_kind = listener.kind;
        software = software_of login;
        verified = may_transmit v;
        connected_at = now;
        session_id = (open_session_row parts session r).1;
        filter = (initial_filter parts listener login.filter).0;
        filter_locked = (initial_filter parts listener login.filter).1;
        outbox = parts.open_channel (max parts.client_queue 1);
      } in
      record {
        reg = registration;
        registry_is =
            ap (λ (s : State parts). (insert floats channel s.registry registration).0) same;
        client_is =
            ap (λ (s : State parts). (insert floats channel s.registry registration).1) same;
        gauge_is = ap (λ (s : State parts). s.metrics.clients_connected) same;
        serves = λ id. record {
          is_own = refl;
          on_port = refl;
          of_kind = refl;
          forced = (rules (client_of floats channel id registration) refl refl).0;
          free = (rules (client_of floats channel id registration) refl refl).1;
        };
      }

  counted :
      (login : LoginRequest) (v : Verification) (peer : Bytes) (listener : Context parts) (now : ℕ)
      (r : Running parts)
      → Enters listener r (register parts login v peer listener now (count_invalid_login v r))
  unfolding count_invalid_login count_login_rejected
  counted login verified peer listener now r = register-Enters login verified peer listener now r
  counted login receive_only_login peer listener now r =
      register-Enters login receive_only_login peer listener now r
  counted login invalid peer listener now r =
      let e = register-Enters login invalid peer listener now (count_login_rejected parts r) in
      record {
        reg = e.reg;
        registry_is = e.registry_is;
        client_is = e.client_is;
        gauge_is = e.gauge_is;
        serves = e.serves;
      }

  pub enter-Enters :
      (login : LoginRequest) (peer : Bytes) (listener : Context parts) (now : ℕ) (r : Running parts)
      → Enters listener r (enter parts login peer listener now r)
  unfolding enter
  enter-Enters login peer listener now r = counted login (verify_request login) peer listener now r
