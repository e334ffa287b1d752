-- ===== src/Server/Registry/Clients.antt =====
-- The identifiers of the registry, which are never used twice (crates/aprsr-server/src/registry.rs).
use aprsr.Prelude.{
  ℕ, ◌+◌, ◌^◌, ◌<◌, List, [], ◌∷◌, none, not, ◌==◌, length, keep, All, All-imp, if-elim, ◌≡◌, ◌≢◌,
  refl, sym, ap, subst, arith,
}
use aprsr.Geo.{Floats}
use aprsr.Server.Metrics.{incr}
use aprsr.Server.Registry.{
  Channel, Client, Registration, ClientRegistry, without, insert, find_client, get, len,
}

module _ (floats : Floats) (channel : Channel) where
  abbrev pub Others : ℕ → List (Client floats channel) → Type 0
  Others id = All (λ (c : Client floats channel). c.id ≢ id)

  -- No two clients have the same identifier.
  abbrev pub DistinctIds : List (Client floats channel) → Type 0
  DistinctIds [] = Unit
  DistinctIds (c ∷ cs) = Others c.id cs × DistinctIds cs

  -- Every identifier that was given out is below the next one.
  pub record IsRegistry (r : ClientRegistry floats channel) : Type 0 where
    pub below : All (λ (c : Client floats channel). c.id < r.next_id) r.clients
    pub distinct : DistinctIds r.clients

  pub without-Others :
      (id : ℕ) (cs : List (Client floats channel))
      → Others id cs
      → without floats channel id cs ≡ cs
  unfolding without
  without-Others id [] o = refl
  without-Others id (c ∷ cs) (n, o) = ground (arith, n, without-Others id cs o)

  pub All-without :
      (P : Client floats channel → Type 0) (id : ℕ) (cs : List (Client floats channel))
      → All P cs
      → All P (without floats channel id cs)
  unfolding without
  All-without P id [] a = tt
  All-without P id (c ∷ cs) (p, a) =
      if-elim (All P) (not (c.id == id))
        (c ∷ keep (λ (c : Client floats channel). not (c.id == id)) cs) _
        (λ _. (p, All-without P id cs a)) (λ _. All-without P id cs a)

  pub DistinctIds-without :
      (id : ℕ) (cs : List (Client floats channel))
      → DistinctIds cs
      → DistinctIds (without floats channel id cs)
  unfolding without
  DistinctIds-without id [] d = tt
  DistinctIds-without id (c ∷ cs) (o, d) =
      if-elim DistinctIds (not (c.id == id))
        (c ∷ keep (λ (c : Client floats channel). not (c.id == id)) cs) _
        (λ _. (
          All-without (λ (k : Client floats channel). k.id ≢ c.id) id cs o,
          DistinctIds-without id cs d,
        ))
        (λ _. DistinctIds-without id cs d)

  pub fresh-Others : (r : ClientRegistry floats channel) → IsRegistry r → Others r.next_id r.clients
  fresh-Others r w =
      All-imp (λ (c : Client floats channel). c.id < r.next_id)
        (λ (c : Client floats channel). c.id ≢ r.next_id) (λ c lt. omega arith) r.clients w.below

  find-Others :
      (id : ℕ) (cs : List (Client floats channel))
      → Others id cs
      → find_client floats channel id cs ≡ none
  unfolding find_client
  find-Others id [] o = refl
  find-Others id (c ∷ cs) (n, o) = ground (arith, n, find-Others id cs o)

  -- `insert` gives out an identifier that no client has, and keeps the registry's invariant, as
  -- long as the 64 bits of the counter last.
  pub insert-IsRegistry :
      (r : ClientRegistry floats channel) (reg : Registration floats channel)
      → IsRegistry r
      → r.next_id + 1 < 2 ^ 64
      → IsRegistry (insert floats channel r reg).0
        × (get floats channel r (insert floats channel r reg).1.id ≡ none)
        × (len floats channel (insert floats channel r reg).0 ≡ len floats channel r + 1)
  unfolding insert get len
  insert-IsRegistry r reg w room =
      let same = without-Others r.next_id r.clients (fresh-Others r w) in
      let next : incr r.next_id ≡ r.next_id + 1 = omega (arith, room) in
      (
        record {
          below = (
            omega (arith, next),
            subst (All (λ (c : Client floats channel). c.id < incr r.next_id)) (sym same) (
                All-imp (λ (c : Client floats channel). c.id < r.next_id)
                  (λ (c : Client floats channel). c.id < incr r.next_id)
                  (λ c lt. omega (arith, next)) r.clients w.below),
          );
          distinct = (
            subst (Others r.next_id) (sym same) (fresh-Others r w),
            subst DistinctIds (sym same) w.distinct,
          );
        },
        find-Others r.next_id r.clients (fresh-Others r w),
        omega (arith, ap length same),
      )
