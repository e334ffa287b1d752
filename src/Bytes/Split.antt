-- ===== src/Bytes/Split.antt =====
-- A text is put together from its characters.
use aprsr.Prelude.{
  ℕ, List, [], ◌∷◌, ◌++◌, Bool, true, false, ◌≡◌, refl, ap, ◌∙◌, arith, All, if◌then◌else◌, inl,
  inr, Bool-cases,
}
use aprsr.Bytes.Find.{Lacks}
use aprsr.Bytes.Chars.{is_continuation, onto_char, chars}

-- The text does not begin within a character.
abbrev pub Begins : List ℕ → Type 0
Begins [] = Unit {0}
Begins (c ∷ s) = is_continuation c ≡ false

abbrev pub concat : List (List ℕ) → List ℕ
concat [] = []
concat (c ∷ cs) = c ++ concat cs

concat-onto_char : (c : ℕ) (cs : List (List ℕ)) → concat (onto_char c cs) ≡ c ∷ concat cs
unfolding onto_char
concat-onto_char c [] = refl
concat-onto_char c ([] ∷ cs) = refl
concat-onto_char c ((d ∷ ds) ∷ cs) = ground arith

pub concat-chars : (s : List ℕ) → concat (chars s) ≡ s
unfolding chars
concat-chars [] = refl
concat-chars (c ∷ s) = concat-onto_char c (chars s) ∙ ap (λ t. c ∷ t) (concat-chars s)

onto_char-Lacks :
    (b c : ℕ) (cs : List (List ℕ))
    → Lacks b (c ∷ [])
    → All (Lacks b) cs
    → All (Lacks b) (onto_char c cs)
unfolding onto_char
onto_char-Lacks b c [] h k = (h, tt)
onto_char-Lacks b c ([] ∷ cs) h k = (h, k.1)
onto_char-Lacks b c ((d ∷ ds) ∷ cs) h k = elim (Bool-cases (is_continuation d)) [
  | inl e ↦ rw e ((h.0, k.0), k.1)
  | inr e ↦ rw e (h, k)
]

pub chars-Lacks : (b : ℕ) (s : List ℕ) → Lacks b s → All (Lacks b) (chars s)
unfolding chars
chars-Lacks b [] h = tt
chars-Lacks b (c ∷ s) h = onto_char-Lacks b c (chars s) (h.0, tt) (chars-Lacks b s h.1)

-- The first character of a text begins with its first byte.
abbrev HeadIs : ℕ → List (List ℕ) → Type 0
HeadIs c cs = (d : List ℕ) × (ds : List (List ℕ)) × (cs ≡ (c ∷ d) ∷ ds)

onto_char-HeadIs : (c : ℕ) (cs : List (List ℕ)) → HeadIs c (onto_char c cs)
unfolding onto_char
onto_char-HeadIs c [] = ([], [], refl)
onto_char-HeadIs c ([] ∷ cs) = ([], cs, refl)
onto_char-HeadIs c ((d ∷ ds) ∷ cs) = elim (Bool-cases (is_continuation d)) [
  | inl e ↦ (d ∷ ds, cs, rw e refl)
  | inr e ↦ ([], (d ∷ ds) ∷ cs, rw e refl)
]

apart_head :
    (c d : ℕ) (ds : List ℕ) (cs : List (List ℕ))
    → is_continuation d ≡ false
    → onto_char c ((d ∷ ds) ∷ cs) ≡ (c ∷ []) ∷ (d ∷ ds) ∷ cs
unfolding onto_char
apart_head c d ds cs h = ground arith

-- A byte before a text that begins a character is a character of its own.
onto_char-Begins :
    (c d : ℕ) (s : List ℕ)
    → is_continuation d ≡ false
    → onto_char c (chars (d ∷ s)) ≡ (c ∷ []) ∷ chars (d ∷ s)
unfolding chars
onto_char-Begins c d s h = apart (onto_char-HeadIs d (chars s))
  where
    apart :
        HeadIs d (onto_char d (chars s))
        → onto_char c (onto_char d (chars s)) ≡ (c ∷ []) ∷ onto_char d (chars s)
    apart (ds, cs, e) = rw e (apart_head c d ds cs h)

pub chars-Begins : (c : ℕ) (s : List ℕ) → Begins s → chars (c ∷ s) ≡ (c ∷ []) ∷ chars s
unfolding chars onto_char
chars-Begins c [] h = refl
chars-Begins c (d ∷ s) h = onto_char-Begins c d s h

chars-HeadIs : (c : ℕ) (s : List ℕ) → HeadIs c (chars (c ∷ s))
unfolding chars
chars-HeadIs c s = onto_char-HeadIs c (chars s)

onto_char-append :
    (a b : ℕ) (xs ys : List (List ℕ)) → HeadIs b xs → onto_char a (xs ++ ys) ≡ onto_char a xs ++ ys
unfolding onto_char
onto_char-append a b xs ys (ds, cs, e) = rw e (grown (is_continuation b))
  where
    grown :
        (k : Bool)
        → (if k then (a ∷ b ∷ ds) ∷ (cs ++ ys) else (a ∷ []) ∷ (b ∷ ds) ∷ (cs ++ ys))
          ≡ (if k then (a ∷ b ∷ ds) ∷ cs else (a ∷ []) ∷ (b ∷ ds) ∷ cs) ++ ys
    grown true = refl
    grown false = refl

-- Characters are cut at a byte that begins one.
pub chars-append :
    (s t : List ℕ) (c : ℕ)
    → is_continuation c ≡ false
    → chars (s ++ c ∷ t) ≡ chars s ++ chars (c ∷ t)
unfolding chars onto_char
chars-append [] t c h = refl
chars-append (a ∷ []) t c h = onto_char-Begins a c t h
chars-append (a ∷ b ∷ s) t c h =
    ap (onto_char a) (chars-append (b ∷ s) t c h)
    ∙ onto_char-append a b (chars (b ∷ s)) (chars (c ∷ t)) (chars-HeadIs b s)
