-- ===== src/Server/Dispatch/Accounts.antt =====
-- The counters against the dispositions of a run (crates/aprsr-server/src/dispatch.rs).
use aprsr.Prelude.{
  ℕ, ◌+◌, ◌%◌, ◌^◌, ◌<◌, List, [], ◌∷◌, Bool, true, false, length, keep, ◌≡◌, ap, ◌∙◌, arith,
  Bool-cases, inl, inr,
}
use aprsr.Packet.{Packet}
use aprsr.Dupecheck.{Hasher}
use aprsr.Geo.{Floats}
use aprsr.Aprs.{ParsedPayload}
use aprsr.Server.Metrics.{Metrics}
use aprsr.Server.Registry.{Channel}
use aprsr.Server.Dispatch.{Ingest, Disposition, PositionStore, ServerState, received, process, run}
use aprsr.Server.Dispatch.Counted.{
  is_unverified, is_invalid, is_duplicate, is_rejected, bump, process-Counted,
}

-- How many of the dispositions are of a kind.
abbrev pub tally : (Disposition → Bool) → List Disposition → ℕ
tally p ds = length (keep p ds)

tally-step :
    (p : Disposition → Bool) (d : Disposition) (ds : List Disposition) (x y z : ℕ)
    → y ≡ bump (p d) x
    → z ≡ (y + tally p ds) % 2 ^ 64
    → z ≡ (x + tally p (d ∷ ds)) % 2 ^ 64
tally-step p d ds x y z e h = elim (Bool-cases (p d)) [
  | inl t ↦
      let by_one : y ≡ (x + 1) % 2 ^ 64 = e ∙ ap (λ b. bump b x) t in
      let n : tally p (d ∷ ds) ≡ tally p ds + 1 = ground (arith, t) in omega (arith, by_one, n, h)
  | inr f ↦
      let same : y ≡ x = e ∙ ap (λ b. bump b x) f in
      let n : tally p (d ∷ ds) ≡ tally p ds = ground (arith, f) in omega (arith, same, n, h)
]

-- The five counters of `m` that a submission can move are below 2 ^ 64, as `u64` counters are.
pub record Counters (m : Metrics) : Type 0 where
  pub received_fits : m.packets_received < 2 ^ 64
  pub unverified_fits : m.packets_unverified < 2 ^ 64
  pub invalid_fits : m.packets_invalid < 2 ^ 64
  pub duplicate_fits : m.packets_duplicate < 2 ^ 64
  pub rejected_fits : m.packets_rejected < 2 ^ 64

bump-fits : (b : Bool) (x y : ℕ) → x < 2 ^ 64 → y ≡ bump b x → y < 2 ^ 64
bump-fits true x y h e = omega arith
bump-fits false x y h e = omega arith

-- What the counters say of the dispositions.
pub record Accounts (m n : Metrics) (ds : List Disposition) : Type 0 where
  pub received_total : n.packets_received ≡ (m.packets_received + length ds) % 2 ^ 64
  pub unverified_total :
      n.packets_unverified ≡ (m.packets_unverified + tally is_unverified ds) % 2 ^ 64
  pub invalid_total : n.packets_invalid ≡ (m.packets_invalid + tally is_invalid ds) % 2 ^ 64
  pub duplicate_total : n.packets_duplicate ≡ (m.packets_duplicate + tally is_duplicate ds) % 2 ^ 64
  pub rejected_total : n.packets_rejected ≡ (m.packets_rejected + tally is_rejected ds) % 2 ^ 64

module _ (floats : Floats) (channel : Channel) (positions : PositionStore floats.f64)
    (hasher : Hasher) (parse_payload : Packet → ParsedPayload floats.f64) where
  process-Counters :
      (ingest : Ingest) (now : ℕ) (s : ServerState floats channel positions hasher parse_payload)
      → Counters s.metrics
      → Counters (process floats channel positions hasher parse_payload ingest now s).0.metrics
  unfolding received
  process-Counters ingest now s f =
      let c = process-Counted floats channel positions hasher parse_payload ingest now s in
      let d = (process floats channel positions hasher parse_payload ingest now s).1 in
      record {
        received_fits = let e = c.received_kept in omega (arith, e);
        unverified_fits = bump-fits (is_unverified d) _ _ f.unverified_fits c.unverified_counted;
        invalid_fits = bump-fits (is_invalid d) _ _ f.invalid_fits c.invalid_counted;
        duplicate_fits = bump-fits (is_duplicate d) _ _ f.duplicate_fits c.duplicate_counted;
        rejected_fits = bump-fits (is_rejected d) _ _ f.rejected_fits c.rejected_counted;
      }

  -- After any run of submissions the counters account for all of them: as many were received as were
  -- submitted, and as many are counted as unverified, invalid, duplicate and rejected as had that
  -- disposition, each modulo 2 ^ 64. The fan-out of the delivered ones moves none of these.
  pub run-Accounts :
      (submissions : List (Ingest × ℕ))
      (s : ServerState floats channel positions hasher parse_payload)
      → Counters s.metrics
      → Accounts s.metrics
          (run floats channel positions hasher parse_payload submissions s).0.metrics
          (run floats channel positions hasher parse_payload submissions s).1
  unfolding run received
  run-Accounts [] s f = record {
    received_total = let h = f.received_fits in omega arith;
    unverified_total = let h = f.unverified_fits in omega arith;
    invalid_total = let h = f.invalid_fits in omega arith;
    duplicate_total = let h = f.duplicate_fits in omega arith;
    rejected_total = let h = f.rejected_fits in omega arith;
  }
  run-Accounts ((ingest, now) ∷ rest) s f =
      let next = process floats channel positions hasher parse_payload ingest now s in
      let ds = (run floats channel positions hasher parse_payload rest next.0).1 in
      let c = process-Counted floats channel positions hasher parse_payload ingest now s in
      let a = run-Accounts rest next.0 (process-Counters ingest now s f) in
      record {
        received_total = let e = c.received_kept in let t = a.received_total in omega (arith, e, t);
        unverified_total =
            tally-step is_unverified next.1 ds _ _ _ c.unverified_counted a.unverified_total;
        invalid_total = tally-step is_invalid next.1 ds _ _ _ c.invalid_counted a.invalid_total;
        duplicate_total =
            tally-step is_duplicate next.1 ds _ _ _ c.duplicate_counted a.duplicate_total;
        rejected_total = tally-step is_rejected next.1 ds _ _ _ c.rejected_counted a.rejected_total;
      }
