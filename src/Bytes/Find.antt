-- ===== src/Bytes/Find.antt =====
-- `str::find`, `strip_suffix` and `split` for one ASCII character.
use mathlib.Core.Option
use aprsr.Prelude.{
  ℕ, suc, List, [], ◌∷◌, ◌++◌, Option, none, some, ◌==◌, if◌then◌else◌, length, All, ◌≡◌, ◌≢◌, refl,
  ap, arith, inl, inr, Bool-cases, Option-cases,
}

abbrev pub Lacks : ℕ → List ℕ → Type 0
Lacks b = All (λ c. c ≢ b)

unfoldable pub find : ℕ → List ℕ → Option ℕ
find c [] = none
find c (x ∷ s) = let rest = Option.map suc (find c s) in if x == c then some 0 else rest

pub find-Lacks_append : (c : ℕ) (p r : List ℕ) → Lacks c p → find c (p ++ c ∷ r) ≡ some (length p)
unfolding find
find-Lacks_append c [] r h = ground arith
find-Lacks_append c (x ∷ p) r h = ground (arith, find-Lacks_append c p r)

pub find-Lacks : (c : ℕ) (s : List ℕ) → Lacks c s → find c s ≡ none
unfolding find
find-Lacks c [] h = refl
find-Lacks c (x ∷ s) h = ground (arith, find-Lacks c s)

pub find-none : (c : ℕ) (s : List ℕ) → find c s ≡ none → Lacks c s
unfolding find
find-none c [] h = tt
find-none c (x ∷ s) h = ground (arith, find-none c s)

-- Where `find` answers, the text is what stands before, the character, and what stands behind.
pub find-some :
    (c : ℕ) (s : List ℕ) (i : ℕ)
    → find c s ≡ some i
    → (p : List ℕ) × (r : List ℕ) × (s ≡ p ++ c ∷ r) × Lacks c p × (i ≡ length p)
unfolding find
find-some c [] i h = ground arith
find-some c (x ∷ s) i h = elim (Bool-cases (x == c)) [
  | inl e ↦ ([], s, ground arith, tt, ground arith)
  | inr e ↦ elim (Option-cases (find c s)) [
    | inl n ↦ ground arith
    | inr (j, q) ↦
        let (p, r, sp, lp, lj) = find-some c s j q in
        (x ∷ p, r, ap (λ t. x ∷ t) sp, (ground arith, lp), ground arith)
  ]
]

unfoldable pub strip_suffix : ℕ → List ℕ → Option (List ℕ)
strip_suffix c [] = none
strip_suffix c (x ∷ []) = if x == c then some [] else none
strip_suffix c (x ∷ y ∷ s) = Option.map (λ t. x ∷ t) (strip_suffix c (y ∷ s))

-- `strip_suffix` answers exactly on the texts that end in the character.
pub strip_suffix-some : (c : ℕ) (s t : List ℕ) → strip_suffix c s ≡ some t → s ≡ t ++ c ∷ []
unfolding strip_suffix
strip_suffix-some c [] t h = ground arith
strip_suffix-some c (x ∷ []) t h = ground arith
strip_suffix-some c (x ∷ y ∷ s) [] h = ground arith
strip_suffix-some c (x ∷ y ∷ s) (z ∷ t) h = ground (arith, strip_suffix-some c (y ∷ s) t)

pub strip_suffix-append : (c : ℕ) (t : List ℕ) → strip_suffix c (t ++ c ∷ []) ≡ some t
unfolding strip_suffix
strip_suffix-append c [] = ground arith
strip_suffix-append c (x ∷ []) = ground arith
strip_suffix-append c (x ∷ y ∷ t) = ap (Option.map (λ u. x ∷ u)) (strip_suffix-append c (y ∷ t))

pub strip_suffix-Lacks : (c : ℕ) (s : List ℕ) → Lacks c s → strip_suffix c s ≡ none
unfolding strip_suffix
strip_suffix-Lacks c [] h = refl
strip_suffix-Lacks c (x ∷ []) h = ground arith
strip_suffix-Lacks c (x ∷ y ∷ s) h = ground (arith, strip_suffix-Lacks c (y ∷ s))

abbrev onto_first : ℕ → List (List ℕ) → List (List ℕ)
onto_first x [] = (x ∷ []) ∷ []
onto_first x (p ∷ ps) = (x ∷ p) ∷ ps

unfoldable pub split : ℕ → List ℕ → List (List ℕ)
split c [] = [] ∷ []
split c (x ∷ s) = let rest = split c s in if x == c then [] ∷ rest else onto_first x rest

pub split-Lacks_append : (c : ℕ) (p r : List ℕ) → Lacks c p → split c (p ++ c ∷ r) ≡ p ∷ split c r
unfolding split
split-Lacks_append c [] r h = ground arith
split-Lacks_append c (x ∷ p) r h = ground (arith, split-Lacks_append c p r)

pub split-Lacks : (c : ℕ) (p : List ℕ) → Lacks c p → split c p ≡ p ∷ []
unfolding split
split-Lacks c [] h = refl
split-Lacks c (x ∷ p) h = ground (arith, split-Lacks c p)

split-cons : (c x : ℕ) (s : List ℕ) → x ≢ c → split c (x ∷ s) ≡ onto_first x (split c s)
unfolding split
split-cons c x s h = ground arith

onto_first-append :
    (x : ℕ) (ps qs : List (List ℕ)) → ps ≢ [] → onto_first x (ps ++ qs) ≡ onto_first x ps ++ qs
onto_first-append x [] qs h = absurd (h refl)
onto_first-append x (p ∷ ps) qs h = refl

pub split-ne_nil : (c : ℕ) (s : List ℕ) → split c s ≢ []
unfolding split
split-ne_nil c [] = ground arith
split-ne_nil c (x ∷ s) = ground (arith, split-ne_nil c s)

-- A separator splits a text into the parts before it and the parts behind it.
pub split-append : (c : ℕ) (s t : List ℕ) → split c (s ++ c ∷ t) ≡ split c s ++ split c t
unfolding split
split-append c [] t = ground arith
split-append c (x ∷ s) t =
    ground
      (arith, split-append c s t, onto_first-append x (split c s) (split c t) (split-ne_nil c s))

pub split-parts_Lack : (c : ℕ) (s : List ℕ) → All (Lacks c) (split c s)
unfolding split
split-parts_Lack c [] = (tt, tt)
split-parts_Lack c (x ∷ s) = ground (arith, split-parts_Lack c s)

-- The parts with the separator between them again.
unfoldable pub glue : ℕ → List (List ℕ) → List ℕ
glue c [] = []
glue c (p ∷ []) = p
glue c (p ∷ q ∷ ps) = p ++ c ∷ glue c (q ∷ ps)

glue-onto_first :
    (c x : ℕ) (ps : List (List ℕ)) → ps ≢ [] → glue c (onto_first x ps) ≡ x ∷ glue c ps
unfolding glue
glue-onto_first c x [] h = absurd (h refl)
glue-onto_first c x (p ∷ []) h = refl
glue-onto_first c x (p ∷ q ∷ ps) h = refl

glue-nil_cons : (c : ℕ) (ps : List (List ℕ)) → ps ≢ [] → glue c ([] ∷ ps) ≡ c ∷ glue c ps
unfolding glue
glue-nil_cons c [] h = absurd (h refl)
glue-nil_cons c (p ∷ ps) h = refl

pub glue-split : (c : ℕ) (s : List ℕ) → glue c (split c s) ≡ s
unfolding split
glue-split c [] = unfold glue in refl
glue-split c (x ∷ s) = ground (
  arith,
  glue-split c s,
  glue-nil_cons c (split c s) (split-ne_nil c s),
  glue-onto_first c x (split c s) (split-ne_nil c s),
)
