-- ===== src/Server/Sessions/Consistent.antt =====
-- The agreement of the sessions with the registry and the gauge (`serve` and `disconnect` of
-- crates/aprsr-server/src/client.rs), and the steps that leave them alone.
use aprsr.Prelude.{
  ℕ, suc, ◌+◌, ◌<◌, ◌≤◌, List, [], ◌∷◌, ◌++◌, All, ◌≡◌, refl, sym, ap, subst, ◌∙◌, arith,
}
use aprsr.Server.Registry.Clients.{Others, DistinctIds, IsRegistry}
use aprsr.Server.Client.{Parts, Context, Entry, Running}
use aprsr.Server.Sessions.{Phase, greeting, registered, serving, leaving, Session, World, session}
use aprsr.Server.Sessions.Matched.{
  Matched, Matched-drop, AllLike, none_like, both_like, Matched-AllLike,
}
use aprsr.Server.Sessions.Undisturbed.{Still}

module _ (parts : Parts) where
  open parts use {floats, channel}

  -- The sessions that count as connected.
  abbrev pub weight : Phase parts → ℕ
  weight greeting = 0
  weight (registered account) = 0
  weight (serving account) = 1
  weight (leaving client) = 1

  abbrev pub connected : List (Session parts) → ℕ
  connected [] = 0
  connected (s ∷ ss) = weight s.phase + connected ss

  pub connected-insert :
      (before after : List (Session parts)) (s : Session parts)
      → connected (before ++ s ∷ after) ≡ weight s.phase + connected (before ++ after)
  connected-insert [] after s = refl
  connected-insert (b ∷ before) after s = omega (arith, connected-insert before after s)

  -- The sessions that have registered are, in order, those of the clients in the registry; the
  -- identifiers are distinct and those of the first connections; the gauge counts the sessions.
  pub record IsConsistent (steps : ℕ) (w : World parts) : Type 0 where
    pub matched : Matched parts w.sessions w.running.server.registry.clients
    pub registry : IsRegistry floats channel w.running.server.registry
    pub numbered : w.running.server.registry.next_id ≤ steps
    pub gauge : w.running.server.metrics.clients_connected ≡ connected w.sessions
    pub few : connected w.sessions ≤ steps

  Others-AllLike :
      (id : ℕ) {cs ds : List (Entry parts)}
      → AllLike parts cs ds
      → Others floats channel id cs
      → Others floats channel id ds
  Others-AllLike id none_like o = tt
  Others-AllLike id (both_like l ls) (n, o) = ((λ e. n (sym l.same_id ∙ e)), Others-AllLike id ls o)

  DistinctIds-AllLike :
      (cs ds : List (Entry parts))
      → AllLike parts cs ds
      → DistinctIds floats channel cs
      → DistinctIds floats channel ds
  DistinctIds-AllLike [] [] none_like k = tt
  DistinctIds-AllLike [] (d ∷ ds) l k = elim l [ ]
  DistinctIds-AllLike (c ∷ cs) [] l k = elim l [ ]
  DistinctIds-AllLike (c ∷ cs) (d ∷ ds) (both_like l ls) (o, k) = (
    subst (λ id. Others floats channel id ds) (sym l.same_id) (Others-AllLike c.id ls o),
    DistinctIds-AllLike cs ds ls k,
  )

  below-AllLike :
      (bound : ℕ) {cs ds : List (Entry parts)}
      → AllLike parts cs ds
      → All (λ (c : Entry parts). c.id < bound) cs
      → All (λ (c : Entry parts). c.id < bound) ds
  below-AllLike bound none_like a = tt
  below-AllLike bound (both_like l ls) (lt, a) =
      (subst (λ id. id < bound) (sym l.same_id) lt, below-AllLike bound ls a)

  -- A step that leaves the clients alone, and the sessions that have any.
  pub Still-IsConsistent :
      (n : ℕ) (w v : World parts)
      → IsConsistent n w
      → Still parts w.running.server v.running.server
      → Matched parts v.sessions w.running.server.registry.clients
      → connected v.sessions ≡ connected w.sessions
      → IsConsistent (suc n) v
  Still-IsConsistent n w v i s m e = record {
    matched = Matched-AllLike parts m s.clients_like;
    registry = record {
      below = below-AllLike _ s.clients_like (
          subst (λ b. All (λ (c : Entry parts). c.id < b) w.running.server.registry.clients)
            (sym s.same_next) i.registry.below);
      distinct = DistinctIds-AllLike _ _ s.clients_like i.registry.distinct;
    };
    numbered = omega (arith, s.same_next, i.numbered);
    gauge = s.same_gauge ∙ i.gauge ∙ sym e;
    few = omega (arith, e, i.few);
  }

  -- A session that holds no client goes, with a step that leaves the registry and the gauge alone.
  pub gone-IsConsistent :
      (n : ℕ) (w : World parts) (r : Running parts) (before after : List (Session parts))
      (listener : Context parts)
      → IsConsistent n w
      → w.sessions ≡ before ++ session parts listener greeting ∷ after
      → Still parts w.running.server r.server
      → IsConsistent (suc n) (record { running = r; sessions = before ++ after })
  gone-IsConsistent n w r before after listener i e s =
      Still-IsConsistent n w (record { running = r; sessions = before ++ after }) i s
        (Matched-drop parts before after (session parts listener greeting) _ refl
          (subst (λ ss. Matched parts ss w.running.server.registry.clients) e i.matched))
        (omega
          (arith, ap connected e, connected-insert before after (session parts listener greeting)))
