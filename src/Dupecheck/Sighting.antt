-- ===== src/Dupecheck/Sighting.antt =====
-- A first sighting keeps the ring's invariant.
use native.Mathlib.Nat.{mod-lt}
use aprsr.Prelude.{
  ℕ, zero, suc, ◌+◌, ◌%◌, ◌^◌, ◌≤◌, List, [], ◌∷◌, ◌++◌, none, some, true, false, ◌==◌, ◌&&◌, ◌||◌,
  if◌then◌else◌, length, get_elem?, set, ◌≡◌, ap, ◌∙◌, arith, length-set, Option-cases, Bool-cases,
  inl, inr,
}
use aprsr.Dupecheck.{DupeCheck, lookup, insert, slot, push_digest}
use aprsr.Dupecheck.Window.{has, lookup-insert}
use aprsr.Dupecheck.Ring.{in_bucket, IsRing, get_elem?-some}

has-append : (d : ℕ) (xs : List ℕ) (e : ℕ) → has d (xs ++ e ∷ []) ≡ (has d xs || e == d)
has-append d [] e = ground arith
has-append d (x ∷ xs) e = ground (arith, has-append d xs e)

in_bucket-push :
    (bs : List (List ℕ)) (j : ℕ) (b : List ℕ) (e i d : ℕ)
    → get_elem? bs j ≡ some b
    → in_bucket (set bs j (b ++ e ∷ [])) i d ≡ (in_bucket bs i d || ((j == i) && (e == d)))
in_bucket-push [] j b e i d h = cc
in_bucket-push (c ∷ bs) zero b e zero d h = ground (arith, has-append d b e)
in_bucket-push (c ∷ bs) zero b e (suc i) d h = ground arith
in_bucket-push (c ∷ bs) (suc j) b e zero d h = ground arith
in_bucket-push (c ∷ bs) (suc j) b e (suc i) d h = ground (arith, in_bucket-push bs j b e i d h)

-- A first sighting in the ring.
module _ (s : DupeCheck) (digest : ℕ) (ring : IsRing s.now s)
    (fresh : lookup digest s.seen ≡ none) where
  abbrev pub sighted : DupeCheck
  sighted = record s {
    checked = (s.checked + 1) % 2 ^ 64;
    seen = insert digest s.now s.seen;
    buckets = push_digest s digest;
  }

  pushed-bucket :
      (i d : ℕ)
      → in_bucket (push_digest s digest) i d
        ≡ (in_bucket s.buckets i d || ((s.now % length s.buckets == i) && (digest == d)))
  unfolding push_digest slot
  pushed-bucket i d =
      let n = ring.sized in
      let (b, e) =
        get_elem?-some s.buckets (s.now % length s.buckets) (mod-lt s.now (omega arith)) in
      rw (e, push_digest) (in_bucket-push s.buckets (s.now % length s.buckets) b digest i d e)

  pushed-length : length (push_digest s digest) ≡ length s.buckets
  unfolding push_digest
  pushed-length = elim (Option-cases (get_elem? s.buckets (slot s s.now))) [
    | inl n ↦ rw (n, push_digest)
    | inr (b, e) ↦ rw (e, push_digest) (length-set s.buckets (slot s s.now) (b ++ digest ∷ []))
  ]

  pub inserted :
      (d : ℕ) → lookup d sighted.seen ≡ (if digest == d then some s.now else lookup d s.seen)
  inserted d = lookup-insert digest s.now d s.seen

  sighted-recent : (d t : ℕ) → lookup d sighted.seen ≡ some t → (t ≤ s.now) × (s.now ≤ t + s.window)
  sighted-recent d t e = elim (Bool-cases (digest == d)) [
    | inl h ↦ let i = inserted d in ground arith
    | inr h ↦ let i = inserted d in ring.recent d t (ground arith)
  ]

  slot_now : ℕ
  slot_now = s.now % length s.buckets

  sighted-stored :
      (d t : ℕ)
      → lookup d sighted.seen ≡ some t
      → in_bucket (push_digest s digest) (t % length s.buckets) d ≡ true
  sighted-stored d t e = elim (Bool-cases (digest == d)) [
    | inl h ↦
        let i = inserted d in
        let now : t ≡ s.now = ground arith in
        let m : t % length s.buckets ≡ s.now % length s.buckets =
          ap (λ (k : ℕ). k % length s.buckets) now in
        pushed-bucket (t % length s.buckets) d ∙ ground arith
    | inr h ↦
        let i = inserted d in
        let there = ring.stored d t (ground arith) in
        pushed-bucket (t % length s.buckets) d ∙ ground arith
  ]

  unseen : (i d : ℕ) → (digest == d) ≡ true → in_bucket s.buckets i d ≡ false
  unseen i d h = elim (Bool-cases (in_bucket s.buckets i d)) [
    | inl there ↦
        let (t, e, _) = ring.known i d there in
        let same : digest ≡ d = ground arith in
        absurd (cc (e, fresh, ap (λ (k : ℕ). lookup k s.seen) same))
    | inr no_more ↦ no_more
  ]

  sighted-known :
      (i d : ℕ)
      → in_bucket (push_digest s digest) i d ≡ true
      → (t : ℕ) × (lookup d sighted.seen ≡ some t) × (t % length s.buckets ≡ i)
  sighted-known i d h = elim (Bool-cases (digest == d)) [
    | inl e ↦
        let p = pushed-bucket i d in
        let u = unseen i d e in (s.now, inserted d ∙ rw e, ground arith)
    | inr e ↦
        let p = pushed-bucket i d in
        let (t, l, m) = ring.known i d (ground arith) in (t, inserted d ∙ rw e l, m)
  ]

  pub sighted-IsRing : IsRing s.now sighted
  sighted-IsRing = record {
    sized = pushed-length ∙ ring.sized;
    recent = sighted-recent;
    stored = λ d t e. rw pushed-length (sighted-stored d t e);
    known = λ i d h.
        let (t, l, m) = sighted-known i d h in (t, l, ap (λ (k : ℕ). t % k) pushed-length ∙ m);
  }
