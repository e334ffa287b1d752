-- ===== src/Digipath/Cut.antt =====
-- Truncating a path at a hop keeps exactly the hops before it.
use Prim.Native.Nat.{min}
use mathlib.Core.Path.{ap₂}
use aprsr.Prelude.{
  ℕ, suc, ◌+◌, ◌-◌, List, [], ◌∷◌, ◌++◌, true, false, length, map, keep, ◌≡◌, refl, sym, ap, ◌∙◌,
  arith, inl, inr, Bool-cases, append_assoc, append-nil, length-append, All, ◌⊎◌, subst, ◌≢◌,
}
use aprsr.Bytes.{
  Bytes, split, split-parts_Lack, glue, glue-split, Lacks, get_to, get_to-append, unwrap_or,
}
use aprsr.Digipath.{Hop, new, comma, hop_of, is_named, hops, truncated_to}
use aprsr.Digipath.Hops.{fields_at, hops-fields}
use aprsr.Digipath.Calls.{call_of, calls, calls-comma, calls-field, calls-nil}

-- The text before a hop, and the callsigns of that text.
abbrev CutAt : Bytes → Bytes → List Hop → Hop → Type 0
CutAt raw pre hs h =
    (head : Bytes) × (tail : Bytes) × (raw ≡ head ++ comma ∷ tail)
    × (h.offset ≡ length head + 1)
    × (calls head ≡ calls pre ++ map call_of hs)

field_drop :
    (pre f : Bytes)
    → Lacks comma f
    → is_named (hop_of f (length pre + 1)) ≡ false
    → calls (pre ++ comma ∷ f) ≡ calls pre
unfolding hop_of
field_drop pre f lacks e =
    rw (calls-comma, calls-field f lacks) (ground (arith, append-nil (calls pre)))

field_keep :
    (pre f : Bytes)
    → Lacks comma f
    → is_named (hop_of f (length pre + 1)) ≡ true
    → calls (pre ++ comma ∷ f) ≡ calls pre ++ call_of (hop_of f (length pre + 1)) ∷ []
unfolding hop_of
field_keep pre f lacks e = rw (calls-comma, calls-field f lacks) (ground arith)

glue_step :
    (pre f : Bytes) (fs : List Bytes)
    → fs ≢ []
    → pre ++ comma ∷ glue comma (f ∷ fs) ≡ (pre ++ comma ∷ f) ++ comma ∷ glue comma fs
unfolding glue
glue_step pre f [] h = absurd (h refl)
glue_step pre f (g ∷ fs) h = sym (append_assoc pre (comma ∷ f) (comma ∷ glue comma (g ∷ fs)))

offset_step : (pre f : Bytes) → length pre + 1 + length f + 1 ≡ length (pre ++ comma ∷ f) + 1
offset_step pre f = omega (arith, length-append pre (comma ∷ f))

pub hop_of-offset : (f : Bytes) (o : ℕ) → (hop_of f o).offset ≡ o
unfolding hop_of
hop_of-offset f o = ground arith

abbrev pub kept_hops : ℕ → List Bytes → List Hop
kept_hops o fs = keep is_named (fields_at o fs)

middle-ne_nil : (hs ts : List Hop) (h : Hop) → hs ++ h ∷ ts ≢ []
middle-ne_nil [] ts h e = cc
middle-ne_nil (x ∷ hs) ts h e = cc

pub kept_hops-ne_nil :
    (o : ℕ) (fs : List Bytes) (hs ts : List Hop) (h : Hop) → kept_hops o fs ≡ hs ++ h ∷ ts → fs ≢ []
unfolding fields_at
kept_hops-ne_nil o [] hs ts h e _ = middle-ne_nil hs ts h (sym e)
kept_hops-ne_nil o (f ∷ fs) hs ts h e n = cc

pub kept_hops-drop :
    (o : ℕ) (f : Bytes) (fs : List Bytes)
    → is_named (hop_of f o) ≡ false
    → kept_hops o (f ∷ fs) ≡ kept_hops (o + length f + 1) fs
unfolding fields_at
kept_hops-drop o f fs e = ground arith

pub kept_hops-keep :
    (o : ℕ) (f : Bytes) (fs : List Bytes)
    → is_named (hop_of f o) ≡ true
    → kept_hops o (f ∷ fs) ≡ hop_of f o ∷ kept_hops (o + length f + 1) fs
unfolding fields_at
kept_hops-keep o f fs e = ground arith

-- From a cut in the text behind a dropped field, or behind a kept one.
cut_past :
    (pre f : Bytes) (fs : List Bytes) (hs gs : List Hop) (h : Hop)
    → fs ≢ []
    → calls (pre ++ comma ∷ f) ++ map call_of hs ≡ calls pre ++ map call_of gs
    → CutAt ((pre ++ comma ∷ f) ++ comma ∷ glue comma fs) (pre ++ comma ∷ f) hs h
    → CutAt (pre ++ comma ∷ glue comma (f ∷ fs)) pre gs h
cut_past pre f fs hs gs h ne same (head, tail, e, o, c) =
    (head, tail, glue_step pre f fs ne ∙ e, o, c ∙ same)

cut_kept :
    (f : Bytes) (fs : List Bytes) (pre : Bytes) (hs ts : List Hop) (h : Hop)
    → Lacks comma f
    → is_named (hop_of f (length pre + 1)) ≡ true
    → hop_of f (length pre + 1) ∷ kept_hops (length pre + 1 + length f + 1) fs ≡ hs ++ h ∷ ts
    → ((gs : List Hop)
        → kept_hops (length pre + 1 + length f + 1) fs ≡ gs ++ h ∷ ts
        → CutAt ((pre ++ comma ∷ f) ++ comma ∷ glue comma fs) (pre ++ comma ∷ f) gs h)
    → CutAt (pre ++ comma ∷ glue comma (f ∷ fs)) pre hs h
cut_kept f fs pre [] ts h lacks named e ih =
    let same : hop_of f (length pre + 1) ≡ h = cc in
    (
      pre,
      glue comma (f ∷ fs),
      refl,
      ap (λ (k : Hop). k.offset) (sym same) ∙ hop_of-offset f (length pre + 1),
      sym (append-nil (calls pre)),
    )
cut_kept f fs pre (g ∷ gs) ts h lacks named e ih =
    let same : hop_of f (length pre + 1) ≡ g = cc in
    let rest : kept_hops (length pre + 1 + length f + 1) fs ≡ gs ++ h ∷ ts = cc in
    cut_past pre f fs gs (g ∷ gs) h
      (kept_hops-ne_nil (length pre + 1 + length f + 1) fs gs ts h rest)
      (ap (λ xs. xs ++ map call_of gs) (field_keep pre f lacks named)
        ∙ append_assoc (calls pre) (call_of (hop_of f (length pre + 1)) ∷ []) (map call_of gs)
        ∙ ap (λ k. calls pre ++ call_of k ∷ map call_of gs) same)
      (ih gs rest)

cut_fields :
    (fs : List Bytes) (pre : Bytes) (hs ts : List Hop) (h : Hop)
    → All (Lacks comma) fs
    → kept_hops (length pre + 1) fs ≡ hs ++ h ∷ ts
    → CutAt (pre ++ comma ∷ glue comma fs) pre hs h
cut_fields [] pre hs ts h lacks e = absurd (kept_hops-ne_nil (length pre + 1) [] hs ts h e refl)
cut_fields (f ∷ fs) pre hs ts h (lacks, more) e =
    elim (Bool-cases (is_named (hop_of f (length pre + 1)))) [
      | inl named ↦
          cut_kept f fs pre hs ts h lacks named
            (sym (kept_hops-keep (length pre + 1) f fs named) ∙ e)
            (λ gs rest.
              cut_fields fs (pre ++ comma ∷ f) gs ts h more (rw (← offset_step pre f) rest))
      | inr nameless ↦
          let e' : kept_hops (length pre + 1 + length f + 1) fs ≡ hs ++ h ∷ ts =
            sym (kept_hops-drop (length pre + 1) f fs nameless) ∙ e in
          let rest = cut_fields fs (pre ++ comma ∷ f) hs ts h more (rw (← offset_step pre f) e') in
          cut_past pre f fs hs hs h (kept_hops-ne_nil (length pre + 1 + length f + 1) fs hs ts h e')
            (ap (λ xs. xs ++ map call_of hs) (field_drop pre f lacks nameless)) rest
    ]

-- The first field stands at the start of the path.
abbrev CutPath : Bytes → List Hop → Hop → Type 0
CutPath raw hs h =
    (head : Bytes) × (((h.offset ≡ 0) × (head ≡ []))
      ⊎ ((tail : Bytes) × (raw ≡ head ++ comma ∷ tail) × (h.offset ≡ length head + 1)))
    × (calls head ≡ map call_of hs)

glue-cons :
    (f : Bytes) (fs : List Bytes) → fs ≢ [] → glue comma (f ∷ fs) ≡ f ++ comma ∷ glue comma fs
unfolding glue
glue-cons f [] h = absurd (h refl)
glue-cons f (g ∷ fs) h = refl

cut_rest :
    (f : Bytes) (fs : List Bytes) (hs gs ts : List Hop) (h : Hop)
    → All (Lacks comma) fs
    → kept_hops (0 + length f + 1) fs ≡ hs ++ h ∷ ts
    → calls f ++ map call_of hs ≡ map call_of gs
    → CutPath (glue comma (f ∷ fs)) gs h
cut_rest f fs hs gs ts h more e same =
    let n : 0 + length f + 1 ≡ length f + 1 = omega arith in
    let (head, tail, r, o, c) =
      cut_fields fs f hs ts h more (subst (λ k. kept_hops k fs ≡ hs ++ h ∷ ts) n e) in
    (
      head,
      inr (tail, glue-cons f fs (kept_hops-ne_nil (0 + length f + 1) fs hs ts h e) ∙ r, o),
      c ∙ same,
    )

first_calls :
    (f : Bytes) → Lacks comma f → is_named (hop_of f 0) ≡ true → calls f ≡ call_of (hop_of f 0) ∷ []
first_calls f lacks named = rw (calls-field f lacks) (ground arith)

no_calls : (f : Bytes) → Lacks comma f → is_named (hop_of f 0) ≡ false → calls f ≡ []
no_calls f lacks nameless = rw (calls-field f lacks) (ground arith)

cut_first :
    (f : Bytes) (fs : List Bytes) (hs ts : List Hop) (h : Hop)
    → Lacks comma f
    → All (Lacks comma) fs
    → is_named (hop_of f 0) ≡ true
    → hop_of f 0 ∷ kept_hops (0 + length f + 1) fs ≡ hs ++ h ∷ ts
    → CutPath (glue comma (f ∷ fs)) hs h
cut_first f fs [] ts h lacks more named e =
    let same : hop_of f 0 ≡ h = cc in
    ([], inl (ap (λ (k : Hop). k.offset) (sym same) ∙ hop_of-offset f 0, refl), calls-nil)
cut_first f fs (g ∷ gs) ts h lacks more named e =
    let same : hop_of f 0 ≡ g = cc in
    let rest : kept_hops (0 + length f + 1) fs ≡ gs ++ h ∷ ts = cc in
    cut_rest f fs gs (g ∷ gs) ts h more rest (
      ap (λ xs. xs ++ map call_of gs) (first_calls f lacks named)
      ∙ ap (λ k. call_of k ∷ map call_of gs) same)

cut_path :
    (fs : List Bytes) (hs ts : List Hop) (h : Hop)
    → All (Lacks comma) fs
    → kept_hops 0 fs ≡ hs ++ h ∷ ts
    → CutPath (glue comma fs) hs h
cut_path [] hs ts h lacks e = absurd (kept_hops-ne_nil 0 [] hs ts h e refl)
cut_path (f ∷ fs) hs ts h (lacks, more) e = elim (Bool-cases (is_named (hop_of f 0))) [
  | inl named ↦ cut_first f fs hs ts h lacks more named (sym (kept_hops-keep 0 f fs named) ∙ e)
  | inr nameless ↦
      cut_rest f fs hs hs ts h more (sym (kept_hops-drop 0 f fs nameless) ∙ e)
        (ap (λ xs. xs ++ map call_of hs) (no_calls f lacks nameless))
]

truncated_at :
    (raw : Bytes) (hs : List Hop) (h : Hop)
    → (c : CutPath raw hs h) → truncated_to (new raw) h.offset ≡ c.0
unfolding truncated_to
truncated_at raw hs h (head, inl (z, n), c) =
    let m : min (h.offset - 1) (length raw) ≡ length {A = ℕ} [] = omega arith in
    ap (λ k. unwrap_or (get_to k raw) []) m
    ∙ ap (λ o. unwrap_or o []) (get_to-append [] raw)
    ∙ sym n
truncated_at raw hs h (head, inr (tail, e, o), c) =
    let n : length raw ≡ length head + suc (length tail) =
      ap length e ∙ length-append head (comma ∷ tail) in
    let m : min (h.offset - 1) (length raw) ≡ length head = omega arith in
    ap₂ (λ k r. unwrap_or (get_to k r) []) m e
    ∙ ap (λ o. unwrap_or o []) (get_to-append head (comma ∷ tail))

pub calls-truncated_to :
    (raw : Bytes) (hs ts : List Hop) (h : Hop)
    → hops (new raw) ≡ hs ++ h ∷ ts
    → calls (truncated_to (new raw) h.offset) ≡ map call_of hs
calls-truncated_to raw hs ts h e =
    let cut : CutPath raw hs h =
      subst (λ r. CutPath r hs h) (glue-split comma raw)
        (cut_path (split comma raw) hs ts h (split-parts_Lack comma raw)
          (sym (hops-fields raw) ∙ e)) in
    ap calls (truncated_at raw hs h cut) ∙ cut.2
