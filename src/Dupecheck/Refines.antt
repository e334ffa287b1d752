-- ===== src/Dupecheck/Refines.antt =====
-- The ring of buckets implements the specification, over every sequence of sightings.
use Prim.Native.Nat.{max}
use mathlib.Core.Path.{ap₂}
use native.Mathlib.Nat.{mod-eq_of_lt}
use aprsr.Prelude.{
  ℕ, zero, suc, ◌+◌, ◌%◌, ◌^◌, ◌<◌, List, [], ◌∷◌, none, some, Bool, false, ◌==◌, if◌then◌else◌,
  is_some, replicate, ◌≡◌, refl, sym, ap, ◌∙◌, arith, length-replicate, Option-cases, inl, inr,
  subst,
}
use aprsr.Dupecheck.{DupeCheck, lookup, advance_to, sight, check_digest, with_window}
use aprsr.Dupecheck.Window.{live, Memory, recall, blank, remembered, forgotten}
use aprsr.Dupecheck.Ring.{in_bucket, IsRing}
use aprsr.Dupecheck.Sighting.{inserted, sighted-IsRing}
use aprsr.Dupecheck.Advance.{advance_to-Advanced}

-- The concrete detector stands for the memory: the same sightings at the same second.
pub record Represents (window : ℕ) (s : DupeCheck) (m : Memory) : Type 0 where
  pub view : (d : ℕ) → lookup d s.seen ≡ m.seen d
  pub same_now : s.now ≡ m.now
  pub same_window : s.window ≡ window
  pub ring : IsRing s.now s

advance-Represents :
    (w : ℕ) (s : DupeCheck) (m : Memory) (now : ℕ)
    → Represents w s m
    → Represents w (advance_to s now) (forgotten w m now)
advance-Represents w s m now r =
    let a = advance_to-Advanced s now r.ring in
    record {
      view = λ d.
          a.view d
          ∙ ap₂ (λ w' n. live w' (max n now) (lookup d s.seen)) r.same_window r.same_now
          ∙ ap (live w (max m.now now)) (r.view d);
      same_now = a.at_now ∙ ap (λ (k : ℕ). max k now) r.same_now;
      same_window = a.same_window ∙ r.same_window;
      ring = subst (λ k. IsRing k (advance_to s now)) (sym a.at_now) a.ring;
    }

counted :
    {s : DupeCheck} {c d : ℕ}
    → IsRing s.now s
    → IsRing s.now (record s { checked = c; duplicates = d })
counted r = record { sized = r.sized; recent = r.recent; stored = r.stored; known = r.known }

sight-Represents :
    (w : ℕ) (s : DupeCheck) (m : Memory) (digest : ℕ)
    → Represents w s m
    → Represents w (sight s digest).0 (remembered m digest)
      × ((sight s digest).1 ≡ is_some (m.seen digest))
unfolding sight
sight-Represents w s m digest r = elim (Option-cases (lookup digest s.seen)) [
  | inl n ↦
      let k : m.seen digest ≡ none = sym (r.view digest) ∙ n in
      rw (n, k)
        (
          record {
            view = λ d.
                inserted s digest r.ring n d
                ∙ ap₂ (λ a b. if digest == d then some a else b) r.same_now (r.view d);
            same_now = r.same_now;
            same_window = r.same_window;
            ring = sighted-IsRing s digest r.ring n;
          },
          refl,
        )
  | inr (t, n) ↦
      let k : m.seen digest ≡ some t = sym (r.view digest) ∙ n in
      rw (n, k)
        (
          record {
            view = r.view;
            same_now = r.same_now;
            same_window = r.same_window;
            ring = counted r.ring;
          },
          refl,
        )
]

-- Every check of the ring answers as the specification does, and stands for its memory afterwards.
pub check_digest-Represents :
    (w : ℕ) (s : DupeCheck) (m : Memory) (digest now : ℕ)
    → Represents w s m
    → Represents w (check_digest s digest now).0 (recall w m digest now).0
      × ((check_digest s digest now).1 ≡ (recall w m digest now).1)
unfolding check_digest recall
check_digest-Represents w s m digest now r =
    sight-Represents w (advance_to s now) (forgotten w m now) digest
      (advance-Represents w s m now r)

in_bucket-replicate : (n i d : ℕ) → in_bucket (replicate n []) i d ≡ false
in_bucket-replicate zero i d = refl
in_bucket-replicate (suc n) zero d = refl
in_bucket-replicate (suc n) (suc i) d = in_bucket-replicate n i d

-- The buckets of a new detector number one more than its window, if that fits a machine word.
pub with_window-Represents : (w : ℕ) → 0 < w → w + 1 < 2 ^ 64 → Represents w (with_window w) blank
unfolding with_window blank lookup
with_window-Represents w pos fits =
    let m : max w 1 ≡ w = omega arith in
    let n : (max w 1 + 1) % 2 ^ 64 ≡ w + 1 =
      ap (λ (k : ℕ). (k + 1) % 2 ^ 64) m ∙ mod-eq_of_lt fits in
    record {
      view = λ d. refl;
      same_now = refl;
      same_window = m;
      ring = record {
        sized = length-replicate ((max w 1 + 1) % 2 ^ 64) [] ∙ n ∙ ap (λ (k : ℕ). k + 1) (sym m);
        recent = λ d t e. cc;
        stored = λ d t e. cc;
        known = λ i d h. cc (h, in_bucket-replicate ((max w 1 + 1) % 2 ^ 64) i d);
      };
    }

-- The answers to a sequence of sightings, each a digest and a second.
unfoldable pub answers : DupeCheck → List (ℕ × ℕ) → List Bool
answers s [] = []
answers s ((digest, now) ∷ rest) =
    (check_digest s digest now).1 ∷ answers (check_digest s digest now).0 rest

unfoldable pub recalled : ℕ → Memory → List (ℕ × ℕ) → List Bool
recalled w m [] = []
recalled w m ((digest, now) ∷ rest) =
    (recall w m digest now).1 ∷ recalled w (recall w m digest now).0 rest

answers-recalled :
    (sightings : List (ℕ × ℕ)) (w : ℕ) (s : DupeCheck) (m : Memory)
    → Represents w s m
    → answers s sightings ≡ recalled w m sightings
unfolding answers recalled
answers-recalled [] w s m r = refl
answers-recalled ((digest, now) ∷ rest) w s m r =
    let (r', same) = check_digest-Represents w s m digest now r in
    ap₂ (λ b bs. b ∷ bs) same (answers-recalled rest w (check_digest s digest now).0 _ r')

-- From a new detector every sequence of sightings, at any seconds in any order, is answered as the
-- specification answers it: a digest is a duplicate exactly while the second of its first sighting
-- is at most the window away from the latest second seen.
pub answers-with_window :
    (w : ℕ) (sightings : List (ℕ × ℕ))
    → 0 < w
    → w + 1 < 2 ^ 64
    → answers (with_window w) sightings ≡ recalled w blank sightings
answers-with_window w sightings pos fits =
    answers-recalled sightings w (with_window w) blank (with_window-Represents w pos fits)
