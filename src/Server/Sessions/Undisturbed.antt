-- ===== src/Server/Sessions/Undisturbed.antt =====
-- What a line of a client (`read_submissions` of crates/aprsr-server/src/client.rs) leaves alone: who is
-- in the registry, on which port and under which forced filter, and how many are counted as connected.
use aprsr.Prelude.{
  ℕ, ◌+◌, List, [], ◌∷◌, Option, none, some, ◌==◌, map, length, is_empty, ◌≡◌, inl, inr, refl, sym,
  ap, ◌∙◌, arith, if-elim, Bool-cases, Option-cases,
}
use aprsr.Bytes.{Bytes, trim}
use aprsr.Server.Registry.{set_filter}
use aprsr.Server.Dispatch.{Ingest}
use aprsr.Server.Codec.{Line, text, oversized, not_utf8}
use aprsr.Server.Client.{Parts, Context, Entry, State, Running, update_client, starts_with_hash}
use aprsr.Server.Client.Submissions.{
  Account, apply_filter_command, count_dropped, count_bytes, count_packet, count_metric_invalid,
  submit, submit_line, after_command, read_text, read_submission,
}
use aprsr.Server.Sessions.Matched.{Like, AllLike, none_like, both_like}

module _ (parts : Parts) where
  pub Like-refl : (c : Entry parts) → Like parts c c
  Like-refl c = record {
    same_id = refl;
    same_listener = refl;
    same_kind = refl;
    same_lock = refl;
    same_filter = inl refl;
  }

  Like-trans : (a b c : Entry parts) → Like parts a b → Like parts b c → Like parts a c
  Like-trans a b c k l = record {
    same_id = l.same_id ∙ k.same_id;
    same_listener = l.same_listener ∙ k.same_listener;
    same_kind = l.same_kind ∙ k.same_kind;
    same_lock = l.same_lock ∙ k.same_lock;
    same_filter = elim k.same_filter [
      | inr free ↦ inr free
      | inl e ↦ elim l.same_filter [ inl f ↦ inl (f ∙ e) | inr free ↦ inr (sym k.same_lock ∙ free) ]
    ];
  }

  pub AllLike-refl : (cs : List (Entry parts)) → AllLike parts cs cs
  AllLike-refl [] = none_like
  AllLike-refl (c ∷ cs) = both_like (Like-refl c) (AllLike-refl cs)

  AllLike-trans :
      {bs cs ds : List (Entry parts)}
      → AllLike parts bs cs
      → AllLike parts cs ds
      → AllLike parts bs ds
  AllLike-trans none_like none_like = none_like
  AllLike-trans (both_like k ks) (both_like l ls) =
      both_like (Like-trans _ _ _ k l) (AllLike-trans ks ls)

  AllLike-map :
      (f : Entry parts → Entry parts)
      → ((c : Entry parts) → Like parts c (f c))
      → (cs : List (Entry parts)) → AllLike parts cs (map f cs)
  AllLike-map f h [] = none_like
  AllLike-map f h (c ∷ cs) = both_like (h c) (AllLike-map f h cs)

  -- Two states of the server that agree on the clients, their next number and the gauge.
  pub record Still (s t : State parts) : Type 0 where
    pub clients_like : AllLike parts s.registry.clients t.registry.clients
    pub same_next : t.registry.next_id ≡ s.registry.next_id
    pub same_gauge : t.metrics.clients_connected ≡ s.metrics.clients_connected

  pub Still-refl : (s : State parts) → Still s s
  Still-refl s = record {
    clients_like = AllLike-refl s.registry.clients;
    same_next = refl;
    same_gauge = refl;
  }

  pub Still-trans : (s t u : State parts) → Still s t → Still t u → Still s u
  Still-trans s t u a b = record {
    clients_like = AllLike-trans a.clients_like b.clients_like;
    same_next = b.same_next ∙ a.same_next;
    same_gauge = b.same_gauge ∙ a.same_gauge;
  }

  update_client-Still :
      (id : ℕ) (f : Entry parts → Entry parts) (r : Running parts)
      → ((c : Entry parts) → Like parts c (f c))
      → Still r.server (update_client parts id f r).server
  update_client-Still id f r h = record {
    clients_like =
        AllLike-map _ (λ c. if-elim (Like parts c) (c.id == id) _ _ (λ _. h c) (λ _. Like-refl c))
          r.server.registry.clients;
    same_next = refl;
    same_gauge = refl;
  }

  apply_filter_command-Like :
      (listener : Context parts) (expression : Bytes) (c : Entry parts)
      → Like parts c (apply_filter_command parts listener expression c)
  unfolding apply_filter_command set_filter
  apply_filter_command-Like listener expression c = record {
    same_id = ground arith;
    same_listener = ground arith;
    same_kind = ground arith;
    same_lock = ground arith;
    same_filter = elim (Bool-cases c.filter_locked) [
      | inl locked ↦ inl (ground (arith, locked))
      | inr free ↦ inr free
    ];
  }

  submit-Still :
      (packet : Ingest) (r : Running parts) → Still r.server (submit parts packet r).server
  unfolding submit
  submit-Still packet r = elim (Option-cases (parts.ingest.submit packet r.queue)) [
    | inl full ↦
        rw (full, submit)
          (record {
            clients_like = AllLike-refl r.server.registry.clients;
            same_next = refl;
            same_gauge = refl;
          })
    | inr (q, e) ↦ rw (e, submit) (Still-refl r.server)
  ]

  counted : (c d : Entry parts) → d ≡ record c { counters = d.counters } → Like parts c d
  counted c d e = record {
    same_id = ap (λ (k : Entry parts). k.id) e;
    same_listener = ap (λ (k : Entry parts). k.listener) e;
    same_kind = ap (λ (k : Entry parts). k.port_kind) e;
    same_lock = ap (λ (k : Entry parts). k.filter_locked) e;
    same_filter = inl (ap (λ (k : Entry parts). k.filter) e);
  }

  submit_line-Still :
      (listener : Context parts) (account : Account parts) (line : Bytes) (r : Running parts)
      → Still r.server (submit_line parts listener account line r).server
  unfolding submit_line
  submit_line-Still listener account line r =
      let r' = update_client parts account.id (count_packet parts) r in
      Still-trans r.server r'.server _
        (update_client-Still account.id (count_packet parts) r (λ c. counted c _ refl))
        (submit-Still _ r')

  commanded :
      (listener : Context parts) (account : Account parts) (line : Bytes) (o : Option Bytes)
      (r : Running parts)
      → Still r.server (after_command parts listener account line o r).server
  unfolding after_command
  commanded listener account line (some expression) r =
      update_client-Still account.id (apply_filter_command parts listener expression) r
        (apply_filter_command-Like listener expression)
  commanded listener account line none r = submit_line-Still listener account line r

  read_text-Still :
      (listener : Context parts) (account : Account parts) (line : Bytes) (r : Running parts)
      → Still r.server (read_text parts listener account line r).server
  unfolding read_text
  read_text-Still listener account line r =
      if-elim (λ (t : Running parts). Still r.server t.server) (is_empty (trim line)) _ _
        (λ _. Still-refl r.server)
        (λ _.
          if-elim (λ (t : Running parts). Still r.server t.server) (starts_with_hash (trim line)) _
            _ (λ _. Still-refl r.server) (λ _. commanded listener account line _ r))

  dropped :
      (account : Account parts) (r : Running parts)
      → Still r.server
          (update_client parts account.id
            (count_dropped parts)
            (count_metric_invalid parts r)).server
  dropped account r = record {
    clients_like =
        (update_client-Still account.id (count_dropped parts) r
          (λ c. counted c _ refl)).clients_like;
    same_next = refl;
    same_gauge = refl;
  }

  pub read_submission-Still :
      (listener : Context parts) (account : Account parts) (line : Line) (r : Running parts)
      → Still r.server (read_submission parts listener account line r).server
  unfolding read_submission
  read_submission-Still listener account (text line) r =
      let r' = update_client parts account.id (count_bytes parts (length line + 2)) r in
      Still-trans r.server r'.server _
        (update_client-Still account.id (count_bytes parts (length line + 2)) r
          (λ c. counted c _ refl))
        (read_text-Still listener account line r')
  read_submission-Still listener account oversized r = dropped account r
  read_submission-Still listener account not_utf8 r = dropped account r
