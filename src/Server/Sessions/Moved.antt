-- ===== src/Server/Sessions/Moved.antt =====
-- The steps that change the registry or the gauge (`serve` and `disconnect` of
-- crates/aprsr-server/src/client.rs).
use aprsr.Prelude.{
  ℕ, suc, ◌+◌, ◌^◌, ◌<◌, List, ◌∷◌, ◌++◌, Option, none, some, ◌≡◌, inl, inr, refl, sym, ap, subst,
  ◌∙◌, arith, Option-cases,
}
use aprsr.Server.Metrics.{incr, decr}
use aprsr.Server.Registry.{ClientRegistry, without, insert, remove}
use aprsr.Server.Registry.Clients.{
  IsRegistry, without-Others, All-without, DistinctIds-without, fresh-Others, insert-IsRegistry,
}
use aprsr.Server.Client.{
  Parts, Context, Entry, Running, count_connected, leave_registry, close_row, close_session,
}
use aprsr.Server.Client.Submissions.{Account}
use aprsr.Server.Sessions.{
  greeting, registered, serving, leaving, Session, World, session, account_of,
}
use aprsr.Server.Sessions.Matched.{Matched, held, Matched-drop, Matched-replace, Matched-leave}
use aprsr.Server.Sessions.Consistent.{connected, connected-insert, IsConsistent}
use aprsr.Server.Sessions.Entered.{Enters}

module _ (parts : Parts) where
  open parts use {floats, channel}

  remove-IsRegistry :
      (r : ClientRegistry floats channel) (id : ℕ)
      → IsRegistry floats channel r
      → IsRegistry floats channel (record r { clients = without floats channel id r.clients })
  remove-IsRegistry r id i = record {
    below = All-without floats channel (λ (c : Entry parts). c.id < r.next_id) id r.clients i.below;
    distinct = DistinctIds-without floats channel id r.clients i.distinct;
  }

  pub log_in-IsConsistent :
      (n : ℕ) (w : World parts) (before after : List (Session parts)) (listener : Context parts)
      (out : Running parts × Entry parts)
      → n + 1 < 2 ^ 64
      → IsConsistent parts n w
      → w.sessions ≡ before ++ session parts listener greeting ∷ after
      → Enters parts listener w.running out
      → IsConsistent parts (suc n) (record {
        running = out.0;
        sessions = session parts listener (registered (account_of parts out.1)) ∷ (before ++ after);
      })
  unfolding insert
  log_in-IsConsistent n w before after listener out room i e o =
      let r = w.running.server.registry in
      let fresh = fresh-Others floats channel r i.registry in
      let next : incr r.next_id ≡ r.next_id + 1 = omega (arith, room, i.numbered) in
      let weigh =
        ap (connected parts) e
        ∙ connected-insert parts before after (session parts listener greeting) in
      record {
        matched =
            subst (Matched parts _)
              (sym (
                ap (λ (s : ClientRegistry floats channel). s.clients) o.registry_is
                ∙ ap (λ cs. (insert floats channel r o.reg).1 ∷ cs)
                    (without-Others floats channel r.next_id r.clients fresh)))
              (held r.next_id (ap (λ (c : Entry parts). some c.id) o.client_is) (o.serves r.next_id)
                (Matched-drop parts before after (session parts listener greeting) r.clients refl
                  (subst (λ ss. Matched parts ss r.clients) e i.matched)));
        registry =
            subst (IsRegistry floats channel) (sym o.registry_is)
              (insert-IsRegistry floats channel r o.reg i.registry
                (omega (arith, room, i.numbered))).0;
        numbered = omega (
          arith,
          next,
          i.numbered,
          ap (λ (s : ClientRegistry floats channel). s.next_id) o.registry_is,
        );
        gauge = omega (arith, o.gauge_is, i.gauge, weigh);
        few = omega (arith, i.few, weigh);
      }

  pub connect-IsConsistent :
      (n : ℕ) (w : World parts) (before after : List (Session parts)) (listener : Context parts)
      (account : Account parts)
      → n + 1 < 2 ^ 64
      → IsConsistent parts n w
      → w.sessions ≡ before ++ session parts listener (registered account) ∷ after
      → IsConsistent parts (suc n) (record {
        running = count_connected parts w.running;
        sessions = before ++ session parts listener (serving account) ∷ after;
      })
  unfolding count_connected
  connect-IsConsistent n w before after listener account room i e =
      let weigh =
        ap (connected parts) e
        ∙ connected-insert parts before after (session parts listener (registered account)) in
      let weighs = connected-insert parts before after (session parts listener (serving account)) in
      record {
        matched =
            Matched-replace parts before after (session parts listener (registered account))
              (session parts listener (serving account)) _ refl refl
              (subst (λ ss. Matched parts ss w.running.server.registry.clients) e i.matched);
        registry = record { below = i.registry.below; distinct = i.registry.distinct };
        numbered = omega (arith, i.numbered);
        gauge = omega (arith, room, i.gauge, i.few, weigh, weighs);
        few = omega (arith, i.few, weigh, weighs);
      }

  pub leave-IsConsistent :
      (n : ℕ) (w : World parts) (before after : List (Session parts)) (listener : Context parts)
      (account : Account parts)
      → IsConsistent parts n w
      → w.sessions ≡ before ++ session parts listener (serving account) ∷ after
      → IsConsistent parts (suc n) (record {
        running = (leave_registry parts account.id w.running).0;
        sessions =
            before
            ++ session parts listener (leaving (leave_registry parts account.id w.running).1)
              ∷ after;
      })
  unfolding leave_registry remove
  leave-IsConsistent n w before after listener account i e =
      let left = session parts listener (leaving (leave_registry parts account.id w.running).1) in
      let weigh =
        ap (connected parts) e
        ∙ connected-insert parts before after (session parts listener (serving account)) in
      let weighs = connected-insert parts before after left in
      record {
        matched =
            Matched-leave parts before after (session parts listener (serving account)) left _
              account.id refl refl i.registry.distinct
              (subst (λ ss. Matched parts ss w.running.server.registry.clients) e i.matched);
        registry = remove-IsRegistry w.running.server.registry account.id i.registry;
        numbered = omega (arith, i.numbered);
        gauge = omega (arith, i.gauge, weigh, weighs);
        few = omega (arith, i.few, weigh, weighs);
      }

  close-state :
      (now : ℕ) (client : Option (Entry parts)) (r : Running parts)
      → ((close_session parts now client r).server.registry ≡ r.server.registry)
        × ((close_session parts now client r).server.metrics.clients_connected
            ≡ decr r.server.metrics.clients_connected)
  unfolding close_session close_row
  close-state now none r = (refl, refl)
  close-state now (some c) r = elim (Option-cases r.store) [
    | inl e ↦ rw (e, close_row) (refl, refl)
    | inr (log, e) ↦ elim (Option-cases c.session_id) [
      | inl k ↦ rw (e, k, close_row) (refl, refl)
      | inr (id, k) ↦ rw (e, k, close_row) (refl, refl)
    ]
  ]

  pub close-IsConsistent :
      (n : ℕ) (w : World parts) (before after : List (Session parts)) (listener : Context parts)
      (client : Option (Entry parts)) (now : ℕ)
      → n + 1 < 2 ^ 64
      → IsConsistent parts n w
      → w.sessions ≡ before ++ session parts listener (leaving client) ∷ after
      → IsConsistent parts (suc n) (record {
        running = close_session parts now client w.running;
        sessions = before ++ after;
      })
  close-IsConsistent n w before after listener client now room i e =
      let (same, lower) = close-state now client w.running in
      let weigh =
        ap (connected parts) e
        ∙ connected-insert parts before after (session parts listener (leaving client)) in
      record {
        matched =
            subst (λ (r : ClientRegistry floats channel). Matched parts (before ++ after) r.clients)
              (sym same)
              (Matched-drop parts before after (session parts listener (leaving client)) _ refl
                (subst (λ ss. Matched parts ss w.running.server.registry.clients) e i.matched));
        registry = subst (IsRegistry floats channel) (sym same) i.registry;
        numbered =
            omega (arith, i.numbered, ap (λ (r : ClientRegistry floats channel). r.next_id) same);
        gauge = omega (arith, room, lower, i.gauge, i.few, weigh);
        few = omega (arith, i.few, weigh);
      }
