-- ===== src/Digipath/Calls.antt =====
-- The callsigns along a path, under concatenation and under truncation at a hop.
use mathlib.Core.Path.{ap₂}
use aprsr.Prelude.{
  ℕ, ◌+◌, List, [], ◌∷◌, ◌++◌, length, map, keep, ◌≡◌, refl, sym, ap, ◌∙◌, arith, append_assoc,
  append-nil,
}
use aprsr.Bytes.{Bytes, split, split-append, split-Lacks, Lacks, strip_suffix}
use aprsr.Digipath.{Hop, new, comma, hop_of, is_named, hops}
use aprsr.Digipath.Hops.{fields_at, hops-fields}

abbrev pub call_of : Hop → Bytes
call_of h = h.call

-- The callsigns of the hops, in order.
unfoldable pub calls : Bytes → List Bytes
calls raw = map call_of (hops (new raw))

pub calls-hops : (raw : Bytes) → calls raw ≡ map call_of (hops (new raw))
unfolding calls
calls-hops raw = refl

-- A field's callsign, as a list of none or one.
field_calls : Bytes → List Bytes
field_calls f = map call_of (keep is_named (hop_of f 0 ∷ []))

fields_calls : List Bytes → List Bytes
fields_calls [] = []
fields_calls (f ∷ fs) = field_calls f ++ fields_calls fs

hop_of-call : (f : Bytes) (o : ℕ) → call_of (hop_of f o) ≡ call_of (hop_of f 0)
unfolding hop_of
hop_of-call f o = ground arith

map-fields_at :
    (fs : List Bytes) (o : ℕ) → map call_of (keep is_named (fields_at o fs)) ≡ fields_calls fs
unfolding fields_at fields_calls field_calls
map-fields_at [] o = refl
map-fields_at (f ∷ fs) o = ground (arith, hop_of-call f o, map-fields_at fs (o + length f + 1))

calls-fields : (raw : Bytes) → calls raw ≡ fields_calls (split comma raw)
unfolding calls
calls-fields raw = ap (map call_of) (hops-fields raw) ∙ map-fields_at (split comma raw) 0

fields_calls-append :
    (xs ys : List Bytes) → fields_calls (xs ++ ys) ≡ fields_calls xs ++ fields_calls ys
unfolding fields_calls
fields_calls-append [] ys = refl
fields_calls-append (x ∷ xs) ys = simp (fields_calls-append xs ys, append_assoc)

-- A comma joins the callsigns of what stands before it and of what stands behind it.
pub calls-comma : (a b : Bytes) → calls (a ++ comma ∷ b) ≡ calls a ++ calls b
calls-comma a b =
    calls-fields (a ++ comma ∷ b)
    ∙ ap fields_calls (split-append comma a b)
    ∙ fields_calls-append (split comma a) (split comma b)
    ∙ ap₂ (λ xs ys. xs ++ ys) (sym (calls-fields a)) (sym (calls-fields b))

pub calls-field :
    (f : Bytes) → Lacks comma f → calls f ≡ map call_of (keep is_named (hop_of f 0 ∷ []))
unfolding fields_calls field_calls
calls-field f h = calls-fields f ∙ ap fields_calls (split-Lacks comma f h) ∙ append-nil _

pub calls-nil : calls [] ≡ []
unfolding hop_of strip_suffix
calls-nil = calls-field [] tt
