-- ===== src/Dupecheck/Evict.antt =====
-- One round of the eviction loop drains exactly the digests whose window has passed, and keeps the
-- ring's invariant.
use native.Mathlib.Nat.{mod-lt}
use aprsr.Prelude.{
  ℕ, ◌+◌, ◌%◌, ◌≤◌, ◌<◌, List, [], none, some, true, false, ◌==◌, if◌then◌else◌, length, get_elem?,
  set, ◌≡◌, ◌≢◌, sym, ap, ◌∙◌, arith, length-set, Option-cases, Bool-cases, inl, inr,
}
use aprsr.Dupecheck.{DupeCheck, lookup, forget}
use aprsr.Dupecheck.Window.{live, has, lookup-forget}
use aprsr.Dupecheck.Ring.{in_bucket, IsRing, turn, turn_slot, in_bucket-set}

-- One round of the eviction loop, at the second behind the edge.
module _ (s : DupeCheck) (edge : ℕ) (b : List ℕ) (ring : IsRing edge s) (reached : s.now ≤ edge)
    (short : edge + 1 ≤ s.now + s.window)
    (bucket : get_elem? s.buckets ((edge + 1) % length s.buckets) ≡ some b) where
  abbrev pub drained : DupeCheck
  drained = record s {
    seen = forget b s.seen;
    buckets = set s.buckets ((edge + 1) % length s.buckets) [];
  }

  held : (d : ℕ) → in_bucket s.buckets ((edge + 1) % length s.buckets) d ≡ has d b
  held d = rw (bucket, in_bucket)

  aged : (d t : ℕ) → lookup d s.seen ≡ some t → has d b ≡ true → edge + 1 ≡ t + (s.window + 1)
  aged d t e h =
      let (t', e', m) = ring.known ((edge + 1) % length s.buckets) d (held d ∙ h) in
      let same : t' ≡ t = ground arith in
      let (le, lo) = ring.recent d t e in
      let n = ring.sized in
      let m' : (edge + 1) % length s.buckets ≡ t % length s.buckets =
        sym m ∙ ap (λ (k : ℕ). k % length s.buckets) same in
      let far = turn (edge + 1) t (length s.buckets) (omega arith) (omega arith) (omega arith) m' in
      omega arith

  young : (d t : ℕ) → lookup d s.seen ≡ some t → has d b ≡ false → edge + 1 ≢ t + (s.window + 1)
  young d t e h far =
      let n = ring.sized in
      let m : (edge + 1) % length s.buckets ≡ t % length s.buckets =
        ap (λ (k : ℕ). k % length s.buckets) (far ∙ omega arith) ∙ turn_slot t (length s.buckets) in
      cc (ring.stored d t e, held d, h, ap (λ (k : ℕ). in_bucket s.buckets k d) m)

  kept_or_aged :
      (d t : ℕ)
      → lookup d s.seen ≡ some t
      → (if has d b then none else some t) ≡ live s.window (edge + 1) (some t)
  kept_or_aged d t e =
      let lo = (ring.recent d t e).1 in
      elim (Bool-cases (has d b)) [
        | inl h ↦ let far = aged d t e h in ground arith
        | inr h ↦
            let near = young d t e h in
            let fits : edge + 1 ≤ t + s.window = omega arith in ground arith
      ]

  pub drained-live :
      (d : ℕ) → lookup d (forget b s.seen) ≡ live s.window (edge + 1) (lookup d s.seen)
  drained-live d = lookup-forget b d s.seen ∙ elim (Option-cases (lookup d s.seen)) [
    | inl n ↦ ground arith
    | inr (t, e) ↦ rw e (kept_or_aged d t e)
  ]

  n_slot : (edge + 1) % length s.buckets < length s.buckets
  n_slot = mod-lt (edge + 1) (omega (arith, ring.sized))

  drained-bucket :
      (i d : ℕ)
      → in_bucket drained.buckets i d
        ≡ (if (edge + 1) % length s.buckets == i then false else in_bucket s.buckets i d)
  drained-bucket i d = in_bucket-set s.buckets i ((edge + 1) % length s.buckets) d n_slot

  same_length : length drained.buckets ≡ length s.buckets
  same_length = length-set s.buckets ((edge + 1) % length s.buckets) []

  alive :
      (d t : ℕ)
      → lookup d (forget b s.seen) ≡ some t
      → (lookup d s.seen ≡ some t) × (edge + 1 ≤ t + s.window)
  alive d t e = ground (arith, drained-live d)

  apart :
      (t : ℕ)
      → t ≤ s.now
      → edge + 1 ≤ t + s.window
      → (edge + 1) % length s.buckets ≢ t % length s.buckets
  apart t le fits m =
      let n = ring.sized in
      let far = turn (edge + 1) t (length s.buckets) (omega arith) (omega arith) (omega arith) m in
      omega arith

  drained-stored :
      (d t : ℕ)
      → lookup d (forget b s.seen) ≡ some t
      → in_bucket drained.buckets (t % length s.buckets) d ≡ true
  drained-stored d t e =
      let (e', fits) = alive d t e in
      let (le, _) = ring.recent d t e' in
      let there = ring.stored d t e' in
      let other = apart t le fits in drained-bucket (t % length s.buckets) d ∙ ground arith

  -- A digest in another bucket than the drained one is not forgotten.
  still :
      (i d t : ℕ)
      → lookup d s.seen ≡ some t
      → t % length s.buckets ≡ i
      → (if (edge + 1) % length s.buckets == i then false else in_bucket s.buckets i d) ≡ true
      → (if has d b then none else lookup d s.seen) ≡ some t
  still i d t e m g = elim (Bool-cases (has d b)) [
    | inl h ↦
        let far = aged d t e h in
        let n = ring.sized in
        let m' : (edge + 1) % length s.buckets ≡ t % length s.buckets =
          ap (λ (k : ℕ). k % length s.buckets) (far ∙ omega arith)
          ∙ turn_slot t (length s.buckets) in
        ground arith
    | inr h ↦ rw h e
  ]

  drained-known :
      (i d : ℕ)
      → in_bucket drained.buckets i d ≡ true
      → (t : ℕ) × (lookup d (forget b s.seen) ≡ some t) × (t % length s.buckets ≡ i)
  drained-known i d h =
      let g : (if (edge + 1) % length s.buckets == i then false else in_bucket s.buckets i d)
          ≡ true =
        sym (drained-bucket i d) ∙ h in
      let there : in_bucket s.buckets i d ≡ true = ground arith in
      let (t, e, m) = ring.known i d there in (t, lookup-forget b d s.seen ∙ still i d t e m g, m)

  pub drained-IsRing : IsRing (edge + 1) drained
  drained-IsRing = record {
    sized = same_length ∙ ring.sized;
    recent = λ d t e. let (e', fits) = alive d t e in ((ring.recent d t e').0, fits);
    stored = λ d t e. rw same_length (drained-stored d t e);
    known = λ i d h.
        let (t, e, m) = drained-known i d h in (t, e, ap (λ (k : ℕ). t % k) same_length ∙ m);
  }
