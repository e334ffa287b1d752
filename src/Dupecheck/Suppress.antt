-- ===== src/Dupecheck/Suppress.antt =====
-- A packet that was let through is suppressed for the length of the window.
use Prim.Native.Nat.{max}
use aprsr.Prelude.{
  ℕ, ◌+◌, ◌<◌, ◌^◌, subst, ◌≤◌, List, [], ◌∷◌, none, some, true, false, ◌==◌, All, ◌≡◌, sym, ap,
  ◌∙◌, arith, Option-cases, inl, inr,
}
use aprsr.Bytes.{trim_end}
use aprsr.Packet.{Packet}
use aprsr.Dupecheck.{DupeCheck, check_digest, Hasher, digest, check, with_window}
use aprsr.Dupecheck.Window.{live, Memory, recall, blank}
use aprsr.Dupecheck.Refines.{Represents, check_digest-Represents, with_window-Represents}

-- The detector after a sequence of sightings.
unfoldable pub run : DupeCheck → List (ℕ × ℕ) → DupeCheck
run s [] = s
run s ((d, t) ∷ rest) = run (check_digest s d t).0 rest

-- A digest first seen at `first` is still remembered.
abbrev Holds : ℕ → ℕ → ℕ → Memory → Type 0
Holds w d first m = (m.seen d ≡ some first) × (m.now ≤ first + w)

eq_of : (e d : ℕ) → (e == d) ≡ true → e ≡ d
eq_of e d h = ground arith

recall-first :
    (w d t : ℕ) (m : Memory)
    → (recall w m d t).1 ≡ false
    → Holds w d (recall w m d t).0.now (recall w m d t).0
unfolding recall
recall-first w d t m fresh = ground arith

recall-Holds :
    (w d first e t : ℕ) (m : Memory)
    → t ≤ first + w
    → Holds w d first m
    → Holds w d first (recall w m e t).0
unfolding recall
recall-Holds w d first e t m soon h =
    let k : live w (max m.now t) (m.seen d) ≡ some first =
      ap (live w (max m.now t)) h.0 ∙ ground arith in
    elim (Option-cases (live w (max m.now t) (m.seen e))) [
      | inl n ↦
          let other : (e == d) ≡ true → live w (max m.now t) (m.seen d) ≡ none =
            λ same. ap (λ (i : ℕ). live w (max m.now t) (m.seen i)) (sym (eq_of e d same)) ∙ n in
          rw n (ground (arith, other))
      | inr (u, n) ↦ rw n (k, omega (arith, h.1))
    ]

recall-again :
    (w d first t : ℕ) (m : Memory) → t ≤ first + w → Holds w d first m → (recall w m d t).1 ≡ true
unfolding recall
recall-again w d first t m soon h = rw (h.0) (ground arith)

run-Holds :
    (evs : List (ℕ × ℕ)) (w d first : ℕ) (s : DupeCheck) (m : Memory)
    → Represents w s m
    → Holds w d first m
    → All (λ (p : ℕ × ℕ). p.1 ≤ first + w) evs
    → (m' : Memory) × Represents w (run s evs) m' × Holds w d first m'
unfolding run
run-Holds [] w d first s m r h _ = (m, r, h)
run-Holds ((e, t) ∷ rest) w d first s m r h (soon, more) =
    run-Holds rest w d first (check_digest s e t).0 (recall w m e t).0
      (check_digest-Represents w s m e t r).0 (recall-Holds w d first e t m soon h) more

run-Represents :
    (evs : List (ℕ × ℕ)) (w : ℕ) (s : DupeCheck) (m : Memory)
    → Represents w s m
    → (m' : Memory) × Represents w (run s evs) m'
unfolding run
run-Represents [] w s m r = (m, r)
run-Represents ((e, t) ∷ rest) w s m r =
    run-Represents rest w (check_digest s e t).0 (recall w m e t).0
      (check_digest-Represents w s m e t r).0

check_digest-suppressed :
    (w d t t' : ℕ) (s : DupeCheck) (m : Memory) (between : List (ℕ × ℕ))
    → Represents w s m
    → (check_digest s d t).1 ≡ false
    → All (λ (p : ℕ × ℕ). p.1 ≤ (check_digest s d t).0.now + w) between
    → t' ≤ (check_digest s d t).0.now + w
    → (check_digest (run (check_digest s d t).0 between) d t').1 ≡ true
check_digest-suppressed w d t t' s m between r fresh soon again =
    let (r1, same) = check_digest-Represents w s m d t r in
    let first = recall-first w d t m (sym same ∙ fresh) in
    let at = r1.same_now in
    let held : Holds w d (check_digest s d t).0.now (recall w m d t).0 =
      subst (λ k. Holds w d k (recall w m d t).0) (sym at) first in
    let (m2, r2, h2) =
      run-Holds between w d (check_digest s d t).0.now (check_digest s d t).0 (recall w m d t).0 r1
        held soon in
    (check_digest-Represents w (run (check_digest s d t).0 between) m2 d t' r2).1
    ∙ recall-again w d (check_digest s d t).0.now t' m2 again h2

-- After a packet is let through, a copy of it (the same source, destination and payload up to
-- trailing white space, by any path) is a duplicate at every second up to the window's end, whatever
-- is checked before and in between.
pub check-suppressed :
    (hasher : Hasher) (w t t' : ℕ) (before between : List (ℕ × ℕ)) (p copy : Packet)
    → 0 < w
    → w + 1 < 2 ^ 64
    → copy.source ≡ p.source
    → copy.destination ≡ p.destination
    → trim_end copy.payload ≡ trim_end p.payload
    → (check hasher (run (with_window w) before) p t).1 ≡ false
    → All (λ (e : ℕ × ℕ). e.1 ≤ (check hasher (run (with_window w) before) p t).0.now + w) between
    → t' ≤ (check hasher (run (with_window w) before) p t).0.now + w
    → (check hasher (run (check hasher (run (with_window w) before) p t).0 between) copy t').1
      ≡ true
unfolding check digest
check-suppressed hasher w t t' before between p copy pos fits es ed ep fresh soon again =
    let (m, r) =
      run-Represents before w (with_window w) blank (with_window-Represents w pos fits) in
    rw (es, ed, ep)
      (check_digest-suppressed w (digest hasher p) t t' (run (with_window w) before) m between r
        fresh soon again)
