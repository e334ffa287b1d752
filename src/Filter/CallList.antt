-- ===== src/Filter/CallList.antt =====
-- The list that a list-valued filter holds.
use aprsr.Prelude.{
  ◌≤◌, List, [], ◌∷◌, true, not, ltb, length, is_empty, any, keep, map, All, ok, ◌≡◌, ◌≢◌, refl,
  subst, arith, Bool-cases, inl, inr,
}
use aprsr.Bytes.{Bytes, upper-upper}
use aprsr.Geo.{Floats}
use aprsr.Filter.{max_list_entries}
use aprsr.Filter.Parse.{upper, list}

-- A list of callsigns: at least one, at most 64, none empty, all in upper case.
abbrev pub IsCallList : List Bytes → Type 0
IsCallList calls =
    (1 ≤ length calls)
    × (length calls ≤ max_list_entries)
    × All (λ c. (c ≢ []) × (upper c ≡ c)) calls

pub upper_idempotent : (s : Bytes) → upper (upper s) ≡ upper s
upper_idempotent [] = refl
upper_idempotent (c ∷ s) = rw (upper-upper c, upper_idempotent s) refl

kept-calls :
    (args : List Bytes)
    → All (λ c. (c ≢ []) × (upper c ≡ c)) (map upper (keep (λ a. not (is_empty a)) args))
kept-calls [] = tt
kept-calls ([] ∷ args) = kept-calls args
kept-calls ((c ∷ s) ∷ args) = ((λ e. cc, upper_idempotent (c ∷ s)), kept-calls args)

length-kept :
    (args : List Bytes) → length (map upper (keep (λ a. not (is_empty a)) args)) ≤ length args
length-kept [] = omega arith
length-kept ([] ∷ args) = omega (arith, length-kept args)
length-kept ((c ∷ s) ∷ args) = omega (arith, length-kept args)

kept-nonempty :
    (args : List Bytes)
    → any (λ (a : Bytes). not (is_empty a)) args ≡ true
    → 1 ≤ length (map upper (keep (λ a. not (is_empty a)) args))
kept-nonempty [] e = cc
kept-nonempty ([] ∷ args) e = kept-nonempty args e
kept-nonempty ((c ∷ s) ∷ args) e = omega arith

module _ (floats : Floats) where
  pub list-IsCallList :
      (code : Bytes) (args calls : List Bytes) → list floats code args ≡ ok calls → IsCallList calls
  unfolding list
  list-IsCallList code args calls e =
      elim (Bool-cases (any (λ (a : Bytes). not (is_empty a)) args)) [
        | inr f ↦ ground arith
        | inl t ↦
            let k = kept-nonempty args t in
            let n = length-kept args in
            elim (Bool-cases (ltb max_list_entries (length args))) [
              | inl big ↦ ground arith
              | inr small ↦
                  let same : map upper (keep (λ a. not (is_empty a)) args) ≡ calls = ground arith in
                  subst IsCallList same (k, ground (arith, n), kept-calls args)
            ]
      ]
