-- ===== src/Dupecheck/Advance.antt =====
-- Advancing the detector: the eviction loop, the turned-over window and the clock that went back.
use Prim.Native.Nat.{max}
use mathlib.Core.Path.{ap₂}
use aprsr.Prelude.{
  ℕ, zero, suc, ◌+◌, ◌-◌, ◌≤◌, ◌<◌, List, [], ◌∷◌, Option, none, some, true, false, leb,
  if◌then◌else◌, if-elim, length, map, ◌≡◌, refl, sym, ◌∙◌, arith, length-map, Option-cases, inl,
  inr, subst,
}
use aprsr.Dupecheck.{DupeCheck, lookup, slot, evict_second, evict, advance_to}
use aprsr.Dupecheck.Window.{live}
use aprsr.Dupecheck.Ring.{in_bucket, IsRing, evict_second_lem}
use aprsr.Dupecheck.Evict.{drained-live, drained-IsRing}

-- What eviction up to a second makes of a detector.
record Evicted (s : DupeCheck) (edge : ℕ) (s' : DupeCheck) : Type 0 where
  view : (d : ℕ) → lookup d s'.seen ≡ live s.window edge (lookup d s.seen)
  ring : IsRing edge s'
  same_now : s'.now ≡ s.now
  same_window : s'.window ≡ s.window

live-recent :
    (s : DupeCheck) (edge d : ℕ)
    → IsRing edge s
    → lookup d s.seen ≡ live s.window edge (lookup d s.seen)
live-recent s edge d ring = elim (Option-cases (lookup d s.seen)) [
  | inl n ↦ rw n
  | inr (t, e) ↦ let lo = ring.recent d t e in rw e (ground arith)
]

live-live : (w a b : ℕ) (o : Option ℕ) → a ≤ b → live w b (live w a o) ≡ live w b o
live-live w a b none h = refl
live-live w a b (some t) h = ground arith

evict_one :
    (s : DupeCheck) (edge : ℕ)
    → IsRing edge s
    → s.now ≤ edge
    → edge + 1 ≤ s.now + s.window
    → Evicted s (edge + 1) (evict_second s (edge + 1))
unfolding slot
evict_one s edge ring reached short =
    let (b, bucket, e) = evict_second_lem s (edge + 1) (omega (arith, ring.sized)) in
    subst (Evicted s (edge + 1)) (sym e) (record {
      view = drained-live s edge b ring reached short bucket;
      ring = drained-IsRing s edge b ring reached short bucket;
      same_now = refl;
      same_window = refl;
    })

evict-Evicted :
    (n step edge : ℕ) (s : DupeCheck)
    → edge + 1 ≡ s.now + step
    → IsRing edge s
    → s.now ≤ edge
    → edge + n ≤ s.now + s.window
    → Evicted s (edge + n) (evict n step s)
unfolding evict
evict-Evicted zero step edge s at ring reached short =
    let e : edge ≡ edge + 0 = omega arith in
    subst (λ k. Evicted s k s) e
      (record {
        view = λ d. live-recent s edge d ring;
        ring = ring;
        same_now = refl;
        same_window = refl;
      })
evict-Evicted (suc n) step edge s at ring reached short =
    let one = evict_one s edge ring reached (omega arith) in
    let s' = evict_second s (edge + 1) in
    let more =
      evict-Evicted n (step + 1) (edge + 1) s' (omega (arith, one.same_now)) one.ring
        (omega (arith, one.same_now)) (omega (arith, one.same_now, one.same_window)) in
    let k : edge + 1 + n ≡ edge + suc n = omega arith in
    let both : Evicted s (edge + 1 + n) (evict n (step + 1) s') = record {
      view = λ d.
          more.view d
          ∙ ap₂ (λ w o. live w (edge + 1 + n) o) one.same_window (one.view d)
          ∙ live-live s.window (edge + 1) (edge + 1 + n) (lookup d s.seen) (omega arith);
      ring = more.ring;
      same_now = more.same_now ∙ one.same_now;
      same_window = more.same_window ∙ one.same_window;
    } in
    subst (λ j. Evicted s j (evict n (step + 1) (evict_second s (s.now + step)))) k
      (subst (λ a. Evicted s (edge + 1 + n) (evict n (step + 1) (evict_second s a))) at both)

-- What advancing to a second makes of a detector.
pub record Advanced (s : DupeCheck) (now : ℕ) (s' : DupeCheck) : Type 0 where
  pub view : (d : ℕ) → lookup d s'.seen ≡ live s.window now (lookup d s.seen)
  pub ring : IsRing now s'
  pub at_now : s'.now ≡ now
  pub same_window : s'.window ≡ s.window

in_bucket-cleared : (bs : List (List ℕ)) (i d : ℕ) → in_bucket (map (λ _. []) bs) i d ≡ false
in_bucket-cleared [] i d = refl
in_bucket-cleared (b ∷ bs) zero d = refl
in_bucket-cleared (b ∷ bs) (suc i) d = in_bucket-cleared bs i d

advance_stay :
    (s : DupeCheck) (now : ℕ) → IsRing s.now s → leb now s.now ≡ true → Advanced s (max s.now now) s
advance_stay s now ring h =
    let e : s.now ≡ max s.now now = ground arith in
    subst (λ k. Advanced s k s) e
      (record {
        view = λ d. live-recent s s.now d ring;
        ring = ring;
        at_now = refl;
        same_window = refl;
      })

advance_clear :
    (s : DupeCheck) (now : ℕ)
    → IsRing s.now s
    → s.now + length s.buckets ≤ now
    → Advanced s now (record s { buckets = map (λ _. []) s.buckets; seen = []; now = now })
unfolding lookup
advance_clear s now ring far = record {
  view = λ d. elim (Option-cases (lookup d s.seen)) [
    | inl n ↦ rw n
    | inr (t, e) ↦ let (le, _) = ring.recent d t e in let n = ring.sized in rw e (ground arith)
  ];
  ring = record {
    sized = length-map s.buckets (λ _. []) ∙ ring.sized;
    recent = λ d t e. cc;
    stored = λ d t e. cc;
    known = λ i d h. cc (h, in_bucket-cleared s.buckets i d);
  };
  at_now = refl;
  same_window = refl;
}

advance_evict :
    (s : DupeCheck) (now : ℕ)
    → IsRing s.now s
    → s.now ≤ now
    → now < s.now + length s.buckets
    → Advanced s now (record (evict (now - s.now) 1 s) { now = now })
advance_evict s now ring ahead near =
    let e : s.now + (now - s.now) ≡ now = omega arith in
    let n = ring.sized in
    let done : Evicted s now (evict (now - s.now) 1 s) =
      subst (λ k. Evicted s k (evict (now - s.now) 1 s)) e
        (evict-Evicted (now - s.now) 1 s.now s refl ring (omega arith) (omega arith)) in
    let r = done.ring in
    record {
      view = done.view;
      ring = record {
        sized = r.sized;
        recent = λ d t e. (omega (arith, (r.recent d t e).0, done.same_now), (r.recent d t e).1);
        stored = r.stored;
        known = r.known;
      };
      at_now = refl;
      same_window = done.same_window;
    }

-- Advancing the ring forgets exactly the sightings whose window has passed.
pub advance_to-Advanced :
    (s : DupeCheck) (now : ℕ) → IsRing s.now s → Advanced s (max s.now now) (advance_to s now)
unfolding advance_to
advance_to-Advanced s now ring =
    if-elim (Advanced s (max s.now now)) (leb now s.now) s
      (if leb (length s.buckets) (now - s.now)
        then record s { buckets = map (λ _. []) s.buckets; seen = []; now = now }
        else record (evict (now - s.now) 1 s) { now = now })
      (advance_stay s now ring)
      (λ ahead.
        let e : now ≡ max s.now now = ground arith in
        let moved : DupeCheck =
          if leb (length s.buckets) (now - s.now)
          then record s { buckets = map (λ _. []) s.buckets; seen = []; now = now }
          else record (evict (now - s.now) 1 s) { now = now } in
        subst (λ k. Advanced s k moved) e
          (if-elim (Advanced s now) (leb (length s.buckets) (now - s.now))
            (record s { buckets = map (λ _. []) s.buckets; seen = []; now = now })
            (record (evict (now - s.now) 1 s) { now = now })
            (λ far. advance_clear s now ring (ground arith))
            (λ near. advance_evict s now ring (ground arith) (ground arith))))
