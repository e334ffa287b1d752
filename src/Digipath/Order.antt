-- ===== src/Digipath/Order.antt =====
-- The hops of a path stand at increasing offsets.
use aprsr.Prelude.{
  ℕ, ◌+◌, ◌≤◌, ◌<◌, List, [], ◌∷◌, ◌++◌, length, ◌≡◌, refl, sym, ap, ◌∙◌, arith, inl, inr,
  Bool-cases, All,
}
use aprsr.Bytes.{Bytes, split}
use aprsr.Digipath.{Hop, new, comma, hop_of, is_named, hops}
use aprsr.Digipath.Hops.{hops-fields}
use aprsr.Digipath.Cut.{kept_hops, kept_hops-ne_nil, kept_hops-drop, kept_hops-keep, hop_of-offset}

abbrev Below : Hop → List Hop → Type 0
Below s = All (λ (t : Hop). t.offset < s.offset)

named-Below :
    (f : Bytes) (fs : List Bytes) (o : ℕ) (xs ys : List Hop) (s : Hop)
    → hop_of f o ∷ kept_hops (o + length f + 1) fs ≡ xs ++ s ∷ ys
    → ((zs : List Hop)
        → kept_hops (o + length f + 1) fs ≡ zs ++ s ∷ ys
        → (o + length f + 1 ≤ s.offset) × Below s zs)
    → (o ≤ s.offset) × Below s xs
named-Below f fs o [] ys s e ih =
    let same : hop_of f o ≡ s = cc in
    let n : o ≡ s.offset = sym (hop_of-offset f o) ∙ ap (λ (k : Hop). k.offset) same in
    (omega arith, tt)
named-Below f fs o (g ∷ gs) ys s e ih =
    let same : hop_of f o ≡ g = cc in
    let n : o ≡ g.offset = sym (hop_of-offset f o) ∙ ap (λ (k : Hop). k.offset) same in
    let (lo, below) = ih gs cc in (omega arith, (omega arith, below))

kept_hops-Below :
    (fs : List Bytes) (o : ℕ) (xs ys : List Hop) (s : Hop)
    → kept_hops o fs ≡ xs ++ s ∷ ys
    → (o ≤ s.offset) × Below s xs
kept_hops-Below [] o xs ys s e = absurd (kept_hops-ne_nil o [] xs ys s e refl)
kept_hops-Below (f ∷ fs) o xs ys s e = elim (Bool-cases (is_named (hop_of f o))) [
  | inl named ↦
      named-Below f fs o xs ys s (sym (kept_hops-keep o f fs named) ∙ e)
        (λ zs e'. kept_hops-Below fs (o + length f + 1) zs ys s e')
  | inr nameless ↦
      let (lo, below) =
        kept_hops-Below fs (o + length f + 1) xs ys s (sym (kept_hops-drop o f fs nameless) ∙ e) in
      (omega arith, below)
]

-- Every hop stands behind all the hops before it.
pub hops-Below :
    (raw : Bytes) (xs ys : List Hop) (s : Hop)
    → hops (new raw) ≡ xs ++ s ∷ ys
    → All (λ (t : Hop). t.offset < s.offset) xs
hops-Below raw xs ys s e =
    (kept_hops-Below (split comma raw) 0 xs ys s (sym (hops-fields raw) ∙ e)).1
