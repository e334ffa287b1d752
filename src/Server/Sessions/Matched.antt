-- ===== src/Server/Sessions/Matched.antt =====
-- The sessions that have registered and the clients of the registry, one by one.
use aprsr.Prelude.{
  ℕ, List, [], ◌∷◌, ◌++◌, Option, none, some, true, false, All, ◌≡◌, ◌≢◌, ◌⊎◌, inl, inr, sym, subst,
  ◌∙◌, arith,
}
use aprsr.Config.{accepts_filters}
use aprsr.Server.Registry.{without}
use aprsr.Server.Registry.Clients.{DistinctIds, Others, without-Others}
use aprsr.Server.Client.{Parts, Context, Chain, Entry}
use aprsr.Server.Sessions.{Phase, greeting, registered, serving, leaving, Session}

module _ (parts : Parts) where
  -- The client that a session has in the registry.
  abbrev pub holder : Phase parts → Option ℕ
  holder greeting = none
  holder (registered account) = some account.id
  holder (serving account) = some account.id
  holder (leaving client) = none

  -- A port with a forced filter holds its clients to it.
  abbrev pub IsForced : Option (Chain parts) → Entry parts → Type 0
  IsForced none c = Unit {0}
  IsForced (some forced) c = (c.filter ≡ forced) × (c.filter_locked ≡ true)

  -- The client of a session on this port.
  pub record Serves (listener : Context parts) (id : ℕ) (c : Entry parts) : Type 0 where
    pub is_own : c.id ≡ id
    pub on_port : c.listener ≡ listener.name
    pub of_kind : c.port_kind ≡ listener.kind
    pub forced : IsForced listener.forced_filter c
    pub free : (accepts_filters listener.kind ≡ true) ⊎ (c.filter_locked ≡ true)

  pub data Matched : List (Session parts) → List (Entry parts) → Type 0 where
    nobody : Matched [] []
    idle :
        {s : Session parts} {ss : List (Session parts)} {cs : List (Entry parts)}
        → holder s.phase ≡ none
        → Matched ss cs
        → Matched (s ∷ ss) cs
    held :
        {s : Session parts} {c : Entry parts} {ss : List (Session parts)} {cs : List (Entry parts)}
        (id : ℕ)
        → holder s.phase ≡ some id
        → Serves s.listener id c
        → Matched ss cs
        → Matched (s ∷ ss) (c ∷ cs)

  -- A session without a client can be left out.
  pub Matched-drop :
      (before after : List (Session parts)) (s : Session parts) (cs : List (Entry parts))
      → holder s.phase ≡ none
      → Matched (before ++ s ∷ after) cs
      → Matched (before ++ after) cs
  Matched-drop [] after s cs h (idle _ m) = m
  Matched-drop [] after s cs h (held id k _ m) = absurd (cc)
  Matched-drop (b ∷ before) after s cs h (idle k m) = idle k (Matched-drop before after s cs h m)
  Matched-drop (b ∷ before) after s (c ∷ cs) h (held id k v m) =
      held id k v (Matched-drop before after s cs h m)

  -- A session can be replaced by one with the same client on the same port.
  pub Matched-replace :
      (before after : List (Session parts)) (s t : Session parts) (cs : List (Entry parts))
      → holder s.phase ≡ holder t.phase
      → s.listener ≡ t.listener
      → Matched (before ++ s ∷ after) cs
      → Matched (before ++ t ∷ after) cs
  Matched-replace [] after s t cs h e (idle k m) = idle (sym h ∙ k) m
  Matched-replace [] after s t (c ∷ cs) h e (held id k v m) =
      held id (sym h ∙ k) (subst (λ l. Serves l id c) e v) m
  Matched-replace (b ∷ before) after s t cs h e (idle k m) =
      idle k (Matched-replace before after s t cs h e m)
  Matched-replace (b ∷ before) after s t (c ∷ cs) h e (held id k v m) =
      held id k v (Matched-replace before after s t cs h e m)

  -- What holds of all clients holds of the client of a session.
  member :
      (P : Entry parts → Type 0) (before after : List (Session parts)) (s : Session parts)
      (cs : List (Entry parts)) (id : ℕ)
      → holder s.phase ≡ some id
      → All P cs
      → Matched (before ++ s ∷ after) cs
      → (c : Entry parts) × (c.id ≡ id) × P c
  member P [] after s cs id h a (idle k m) = absurd (cc)
  member P [] after s (c ∷ cs) id h a (held j k v m) = (c, ground (arith, v.is_own), a.0)
  member P (b ∷ before) after s cs id h a (idle k m) = member P before after s cs id h a m
  member P (b ∷ before) after s (c ∷ cs) id h a (held j k v m) =
      member P before after s cs id h a.1 m

  without-own :
      (c : Entry parts) (cs : List (Entry parts)) (id : ℕ)
      → c.id ≡ id
      → Others parts.floats parts.channel c.id cs
      → without parts.floats parts.channel id (c ∷ cs) ≡ cs
  unfolding without
  without-own c cs id e o =
      ground (arith, without-Others parts.floats parts.channel id cs (rw (← e) o))

  without-other :
      (c : Entry parts) (cs : List (Entry parts)) (id : ℕ)
      → c.id ≢ id
      → without parts.floats parts.channel id (c ∷ cs)
        ≡ c ∷ without parts.floats parts.channel id cs
  unfolding without
  without-other c cs id n = ground (arith, n)

  -- The client of a session leaves the registry.
  pub Matched-leave :
      (before after : List (Session parts)) (s t : Session parts) (cs : List (Entry parts)) (id : ℕ)
      → holder s.phase ≡ some id
      → holder t.phase ≡ none
      → DistinctIds parts.floats parts.channel cs
      → Matched (before ++ s ∷ after) cs
      → Matched (before ++ t ∷ after) (without parts.floats parts.channel id cs)
  Matched-leave [] after s t cs id h k d (idle n m) = absurd (cc)
  Matched-leave [] after s t (c ∷ cs) id h k d (held j e v m) =
      subst (Matched (t ∷ after)) (sym (without-own c cs id (ground (arith, v.is_own)) d.0))
        (idle k m)
  Matched-leave (b ∷ before) after s t cs id h k d (idle n m) =
      idle n (Matched-leave before after s t cs id h k d m)
  Matched-leave (b ∷ before) after s t (c ∷ cs) id h k d (held j e v m) =
      let (own, p, q) = member (λ (o : Entry parts). o.id ≢ c.id) before after s cs id h d.0 m in
      subst (Matched (b ∷ (before ++ t ∷ after))) (sym (without-other c cs id (λ z. q (p ∙ sym z))))
        (held j e v (Matched-leave before after s t cs id h k d.1 m))

  -- The same client, whatever its counters and its queue, with the same filter if that is locked.
  pub record Like (c d : Entry parts) : Type 0 where
    pub same_id : d.id ≡ c.id
    pub same_listener : d.listener ≡ c.listener
    pub same_kind : d.port_kind ≡ c.port_kind
    pub same_lock : d.filter_locked ≡ c.filter_locked
    pub same_filter : (d.filter ≡ c.filter) ⊎ (c.filter_locked ≡ false)

  pub data AllLike : List (Entry parts) → List (Entry parts) → Type 0 where
    none_like : AllLike [] []
    both_like :
        {c d : Entry parts} {cs ds : List (Entry parts)}
        → Like c d
        → AllLike cs ds
        → AllLike (c ∷ cs) (d ∷ ds)

  IsForced-Like :
      (o : Option (Chain parts)) (c d : Entry parts) → IsForced o c → Like c d → IsForced o d
  IsForced-Like none c d h l = tt
  IsForced-Like (some f) c d h l = elim l.same_filter [
    | inl e ↦ (e ∙ h.0, l.same_lock ∙ h.1)
    | inr e ↦ absurd (cc (e, h.1))
  ]

  Serves-Like :
      (listener : Context parts) (id : ℕ) (c d : Entry parts)
      → Serves listener id c
      → Like c d
      → Serves listener id d
  Serves-Like listener id c d v l = record {
    is_own = l.same_id ∙ v.is_own;
    on_port = l.same_listener ∙ v.on_port;
    of_kind = l.same_kind ∙ v.of_kind;
    forced = IsForced-Like listener.forced_filter c d v.forced l;
    free = elim v.free [ inl e ↦ inl e | inr e ↦ inr (l.same_lock ∙ e) ];
  }

  pub Matched-AllLike :
      {ss : List (Session parts)} {cs ds : List (Entry parts)}
      → Matched ss cs
      → AllLike cs ds
      → Matched ss ds
  Matched-AllLike nobody none_like = nobody
  Matched-AllLike (idle h m) l = idle h (Matched-AllLike m l)
  Matched-AllLike (held id h v m) (both_like l ls) =
      held id h (Serves-Like _ id _ _ v l) (Matched-AllLike m ls)
