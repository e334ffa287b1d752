-- ===== src/Server/Sessions/Reachable.antt =====
-- What holds in every world that a server reaches: its registry holds the clients of the sessions that
-- have registered, and its gauge counts them (`serve` and `disconnect` of
-- crates/aprsr-server/src/client.rs).
use aprsr.Prelude.{ℕ, zero, suc, ◌+◌, ◌^◌, ◌<◌, [], ◌≡◌, refl, sym, ap, subst, ◌∙◌, arith}
use aprsr.Server.Registry.{ClientRegistry}
use aprsr.Server.Registry.Clients.{IsRegistry}
use aprsr.Server.Client.{Parts, count_login_rejected}
use aprsr.Server.Sessions.{
  greeting, World, Step, accept, hang_up, refuse, log_in, connect, read, dispatch, leave, close,
  Reach, here, later, session,
}
use aprsr.Server.Sessions.Matched.{Matched, nobody, idle}
use aprsr.Server.Sessions.Consistent.{
  connected, IsConsistent, Still-IsConsistent, gone-IsConsistent,
}
use aprsr.Server.Sessions.Undisturbed.{Still-refl, AllLike-refl, read_submission-Still}
use aprsr.Server.Sessions.Dispatched.{dispatch_one-Still}
use aprsr.Server.Sessions.Moved.{
  log_in-IsConsistent, connect-IsConsistent, leave-IsConsistent, close-IsConsistent,
}
use aprsr.Server.Sessions.Entered.{enter-Enters}

module _ (parts : Parts) where
  open parts use {floats, channel}

  pub Step-IsConsistent :
      (n : ℕ) (w v : World parts)
      → n + 1 < 2 ^ 64
      → IsConsistent parts n w
      → Step parts w v
      → IsConsistent parts (suc n) v
  unfolding count_login_rejected
  Step-IsConsistent n w v room i (accept listener full) =
      Still-IsConsistent parts n w _ i (Still-refl parts w.running.server)
        (idle {s = session parts listener greeting} refl i.matched) (omega arith)
  Step-IsConsistent n w v room i (hang_up before after listener e) =
      gone-IsConsistent parts n w w.running before after listener i e
        (Still-refl parts w.running.server)
  Step-IsConsistent n w v room i (refuse before after listener events rest e f) =
      gone-IsConsistent parts n w (count_login_rejected parts w.running) before after listener i e
        (record {
          clients_like = AllLike-refl parts w.running.server.registry.clients;
          same_next = refl;
          same_gauge = refl;
        })
  Step-IsConsistent n w v room i (log_in before after listener events rest login peer now e f) =
      log_in-IsConsistent parts n w before after listener _ room i e
        (enter-Enters parts login peer listener now w.running)
  Step-IsConsistent n w v room i (connect before after listener account e) =
      connect-IsConsistent parts n w before after listener account room i e
  Step-IsConsistent n w v room i (read before after listener account line e) =
      Still-IsConsistent parts n w _ i (read_submission-Still parts listener account line w.running)
        i.matched refl
  Step-IsConsistent n w v room i (dispatch packet queue now e) =
      Still-IsConsistent parts n w _ i
        (dispatch_one-Still parts packet now (record w.running { queue = queue })) i.matched refl
  Step-IsConsistent n w v room i (leave before after listener account e) =
      leave-IsConsistent parts n w before after listener account i e
  Step-IsConsistent n w v room i (close before after listener client now e) =
      close-IsConsistent parts n w before after listener client now room i e

  -- A server that has just started: nobody is connected, and no identifier was given out.
  pub record IsFresh (w : World parts) : Type 0 where
    pub no_sessions : w.sessions ≡ []
    pub no_clients : w.running.server.registry ≡ record { clients = []; next_id = 0 }
    pub no_gauge : w.running.server.metrics.clients_connected ≡ 0

  fresh-IsConsistent : (w : World parts) → IsFresh w → IsConsistent parts 0 w
  fresh-IsConsistent w f = record {
    matched =
        subst (λ ss. Matched parts ss w.running.server.registry.clients) (sym f.no_sessions)
          (subst (λ (r : ClientRegistry floats channel). Matched parts [] r.clients)
            (sym f.no_clients) nobody);
    registry =
        subst (IsRegistry floats channel) (sym f.no_clients) (record { below = tt; distinct = tt });
    numbered = omega (arith, ap (λ (r : ClientRegistry floats channel). r.next_id) f.no_clients);
    gauge = f.no_gauge ∙ sym (ap (connected parts) f.no_sessions);
    few = omega (arith, ap (connected parts) f.no_sessions);
  }

  -- In every world that a server reaches from its start in fewer than 2^64 steps of its tasks, whatever
  -- their order, the sessions that have registered and are not leaving are, one by one and in order,
  -- those of the clients of the registry: the client has the identifier that the session knows, is on
  -- its port, under the forced filter of the port if there is one, and with its filter locked where the
  -- port takes none. No identifier is used twice, and the gauge of connected clients is the number of
  -- the sessions that are counted and not yet closed.
  pub Reach-IsConsistent :
      (start : World parts) (n : ℕ) (w : World parts)
      → IsFresh start
      → Reach parts start n w
      → n < 2 ^ 64
      → IsConsistent parts n w
  Reach-IsConsistent start zero w f here room = fresh-IsConsistent start f
  Reach-IsConsistent start (suc n) v f (later {w = w} r s) room =
      Step-IsConsistent n w v (omega (arith, room))
        (Reach-IsConsistent start n w f r (omega (arith, room))) s
