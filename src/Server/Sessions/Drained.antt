-- ===== src/Server/Sessions/Drained.antt =====
-- How the connections of a server come to an end (the teardown of `serve` and `disconnect` of
-- crates/aprsr-server/src/client.rs).
use aprsr.Prelude.{
  ℕ, ◌+◌, ◌*◌, ◌^◌, ◌<◌, ◌≤◌, List, [], ◌∷◌, length, ◌≡◌, refl, ap, subst, ◌∙◌, arith,
}
use aprsr.Server.Client.{Parts, Context, Entry}
use aprsr.Server.Sessions.{
  Phase, greeting, registered, serving, leaving, Session, World, hang_up, connect, leave, close,
  Reach, later, session,
}
use aprsr.Server.Sessions.Matched.{Matched, nobody}
use aprsr.Server.Sessions.Consistent.{connected, IsConsistent}
use aprsr.Server.Sessions.Reachable.{IsFresh, Reach-IsConsistent}

module _ (parts : Parts) where
  -- A world that is reached in at most so many steps, and whose sessions are these.
  pub record Reaches (start : World parts) (most : ℕ) (ss : List (Session parts)) : Type 0 where
    pub steps : ℕ
    pub world : World parts
    pub reach : Reach parts start steps world
    pub in_time : steps ≤ most
    pub left : world.sessions ≡ ss

  -- The first session of the listing ends, in three steps at most.
  end_phase :
      (start w : World parts) (n : ℕ) (listener : Context parts) (phase : Phase parts)
      (ss : List (Session parts))
      → w.sessions ≡ session parts listener phase ∷ ss
      → Reach parts start n w
      → Reaches start (n + 3) ss
  end_phase start w n listener greeting ss e r = record {
    steps = _;
    world = _;
    reach = later r (hang_up [] ss listener e);
    in_time = omega (arith);
    left = refl;
  }
  end_phase start w n listener (registered account) ss e r = record {
    steps = _;
    world = _;
    reach =
        later
          (later (later r (connect [] ss listener account e)) (leave [] ss listener account refl))
          (close [] ss listener _ 0 refl);
    in_time = omega (arith);
    left = refl;
  }
  end_phase start w n listener (serving account) ss e r = record {
    steps = _;
    world = _;
    reach = later (later r (leave [] ss listener account e)) (close [] ss listener _ 0 refl);
    in_time = omega (arith);
    left = refl;
  }
  end_phase start w n listener (leaving client) ss e r = record {
    steps = _;
    world = _;
    reach = later r (close [] ss listener client 0 e);
    in_time = omega (arith);
    left = refl;
  }

  end_all :
      (start w : World parts) (n : ℕ) (ss : List (Session parts))
      → w.sessions ≡ ss
      → Reach parts start n w
      → Reaches start (n + 3 * length ss) []
  end_all start w n [] e r = record {
    steps = n;
    world = w;
    reach = r;
    in_time = omega (arith);
    left = e;
  }
  end_all start w n (s ∷ ss) e r =
      let first = end_phase start w n s.listener s.phase ss e r in
      let rest = end_all start first.world first.steps ss first.left first.reach in
      record {
        steps = rest.steps;
        world = rest.world;
        reach = rest.reach;
        in_time = omega (arith, first.in_time, rest.in_time);
        left = rest.left;
      }

  Matched-[] : (cs : List (Entry parts)) → Matched parts [] cs → cs ≡ []
  Matched-[] [] nobody = refl
  Matched-[] (c ∷ cs) m = elim m [ ]

  -- From every world that a server reaches there are steps of its tasks to one without sessions, three
  -- for a session at most, and there the registry is empty and the gauge is zero, as long as the steps
  -- are fewer than 2^64.
  pub sessions-Drained :
      (start w : World parts) (n : ℕ)
      → IsFresh parts start
      → Reach parts start n w
      → n + 3 * length w.sessions < 2 ^ 64
      → (last : Reaches start (n + 3 * length w.sessions) [])
        × (last.world.running.server.registry.clients ≡ [])
        × (last.world.running.server.metrics.clients_connected ≡ 0)
  sessions-Drained start w n f r room =
      let last = end_all start w n w.sessions refl r in
      let i : IsConsistent parts last.steps last.world =
        Reach-IsConsistent parts start last.steps last.world f last.reach
          (omega (arith, room, last.in_time)) in
      (
        last,
        Matched-[] _ (
            subst (λ ss. Matched parts ss last.world.running.server.registry.clients) last.left
              i.matched),
        i.gauge ∙ ap (connected parts) last.left,
      )
