-- ===== src/Digipath/Hops.antt =====
-- The hop iterator lists the non-empty fields between commas, each with its place in the path.
use aprsr.Prelude.{
  ℕ, zero, suc, ◌+◌, ◌<◌, List, [], ◌∷◌, ◌++◌, none, some, false, length, keep, if◌then◌else◌, ◌≡◌,
  refl, sym, ap, ◌∙◌, arith, inl, inr, Option-cases, append_assoc, length-append,
}
use aprsr.Bytes.{
  Bytes, find, find-none, find-some, find-Lacks_append, get_from-length, get_to-append, split,
  split-Lacks, split-Lacks_append, Lacks, strip_suffix,
}
use aprsr.Digipath.{Hop, new, comma, hop_of, next_field, next_hop, iterate, is_named, hops}

-- Fields as hops, the first of them at the given offset.
unfoldable pub fields_at : ℕ → List Bytes → List Hop
fields_at o [] = []
fields_at o (f ∷ fs) = hop_of f o ∷ fields_at (o + length f + 1) fs

next_hop-append :
    (pre rest : Bytes)
    → next_hop (pre ++ rest) (length pre) ≡ next_field (pre ++ rest) rest (length pre)
unfolding next_hop
next_hop-append pre rest = ground (arith, get_from-length pre rest, length-append pre rest)

next_hop_at :
    (raw pre rest : Bytes) (o : ℕ)
    → raw ≡ pre ++ rest
    → o ≡ length pre
    → next_hop raw o ≡ next_field raw rest o
next_hop_at raw pre rest o e n = rw (e, n) (next_hop-append pre rest)

next_hop_past : (raw : Bytes) → next_hop raw (length raw + 1) ≡ none
unfolding next_hop
next_hop_past raw = ground arith

iterate_past : (n : ℕ) (raw : Bytes) → iterate n raw (length raw + 1) ≡ []
unfolding iterate
iterate_past zero raw = refl
iterate_past (suc n) raw = rw (next_hop_past raw, iterate)

iterate-cons :
    (n : ℕ) (raw : Bytes) (o o' : ℕ) (h : Hop)
    → next_hop raw o ≡ some (h, o')
    → iterate (suc n) raw o ≡ h ∷ iterate n raw o'
unfolding iterate
iterate-cons n raw o o' h e = rw (e, iterate)

iterate-stop : (n : ℕ) (raw : Bytes) (o : ℕ) → next_hop raw o ≡ none → iterate (suc n) raw o ≡ []
unfolding iterate
iterate-stop n raw o e = rw (e, iterate)

next_field-comma :
    (raw p r : Bytes) (o : ℕ)
    → Lacks comma p
    → next_field raw (p ++ comma ∷ r) o ≡ some (hop_of p o, o + length p + 1)
unfolding next_field
next_field-comma raw [] r o h =
    ground (arith, find-Lacks_append comma [] r tt, get_to-append [] (comma ∷ r))
next_field-comma raw (c ∷ p) r o h =
    ground (arith, find-Lacks_append comma (c ∷ p) r h, get_to-append (c ∷ p) (comma ∷ r))

hop_of-nil : (o : ℕ) → is_named (hop_of [] o) ≡ false
unfolding hop_of strip_suffix
hop_of-nil o = refl

-- The last field: an empty one ends the iteration, or is dropped for its empty name.
iterate_last :
    (n : ℕ) (raw rest : Bytes) (o : ℕ)
    → next_hop raw o ≡ next_field raw rest o
    → find comma rest ≡ none
    → keep is_named (iterate (suc n) raw o) ≡ keep is_named (hop_of rest o ∷ [])
unfolding next_field
iterate_last n raw [] zero e f =
    ground
      (arith, hop_of-nil 0, iterate-cons n raw 0 (length raw + 1) (hop_of [] 0), iterate_past n raw)
iterate_last n raw [] (suc o) e f = ground (arith, hop_of-nil (suc o), iterate-stop n raw (suc o))
iterate_last n raw (c ∷ rest) o e f =
    ground (arith, iterate-cons n raw o (length raw + 1) (hop_of (c ∷ rest) o), iterate_past n raw)

keep_cons :
    (h : Hop) (xs ys : List Hop)
    → keep is_named xs ≡ keep is_named ys
    → keep is_named (h ∷ xs) ≡ keep is_named (h ∷ ys)
keep_cons h xs ys e = ap (λ (t : List Hop). if is_named h then h ∷ t else t) e

fields-comma :
    (p r : Bytes) (o : ℕ)
    → Lacks comma p
    → fields_at o (split comma (p ++ comma ∷ r))
      ≡ hop_of p o ∷ fields_at (o + length p + 1) (split comma r)
unfolding fields_at
fields-comma p r o h = rw (split-Lacks_append comma p r h)

fields-Lacks : (p : Bytes) (o : ℕ) → Lacks comma p → fields_at o (split comma p) ≡ hop_of p o ∷ []
unfolding fields_at
fields-Lacks p o h = rw (split-Lacks comma p h)

-- The iterator from an offset, with fuel for every byte that is left, lists the fields from there.
iterate-fields :
    (n : ℕ) (raw pre rest : Bytes) (o : ℕ)
    → raw ≡ pre ++ rest
    → o ≡ length pre
    → length rest < n
    → keep is_named (iterate n raw o) ≡ keep is_named (fields_at o (split comma rest))
iterate-fields zero raw pre rest o e eo lt = absurd (omega arith)
iterate-fields (suc n) raw pre rest o e eo lt = elim (Option-cases (find comma rest)) [
  | inl f ↦
      iterate_last n raw rest o (next_hop_at raw pre rest o e eo) f
      ∙ ap (keep is_named) (sym (fields-Lacks rest o (find-none comma rest f)))
  | inr (i, f) ↦
      let (p, r, er, lacks, ei) = find-some comma rest i f in
      let n_rest : length rest ≡ length p + suc (length r) =
        ap length er ∙ length-append p (comma ∷ r) in
      let e' : raw ≡ ((pre ++ p) ++ comma ∷ []) ++ r =
        e ∙ ap (λ t. pre ++ t) er ∙ simp append_assoc in
      let eo' : o + length p + 1 ≡ length ((pre ++ p) ++ comma ∷ []) =
        omega (arith, length-append pre p, length-append (pre ++ p) (comma ∷ [])) in
      let more =
        iterate-fields n raw ((pre ++ p) ++ comma ∷ []) r (o + length p + 1) e' eo' (omega arith) in
      let step : next_hop raw o ≡ some (hop_of p o, o + length p + 1) =
        next_hop_at raw pre rest o e eo
        ∙ ap (λ t. next_field raw t o) er
        ∙ next_field-comma raw p r o lacks in
      ap (keep is_named) (iterate-cons n raw o (o + length p + 1) (hop_of p o) step)
      ∙ keep_cons (hop_of p o) (iterate n raw (o + length p + 1))
          (fields_at (o + length p + 1) (split comma r)) more
      ∙ ap (keep is_named) (sym (fields-comma p r o lacks))
      ∙ ap (λ t. keep is_named (fields_at o (split comma t))) (sym er)
]

-- The iterator lists exactly the named fields between commas, in order, each with the byte offset
-- of its field: its fuel is enough for every path.
pub hops-fields : (raw : Bytes) → hops (new raw) ≡ keep is_named (fields_at 0 (split comma raw))
unfolding hops
hops-fields raw = iterate-fields (length raw + 2) raw [] raw 0 refl refl (omega arith)
