-- ===== src/Qconstruct/Found.antt =====
-- What the search for a construct reports, in terms of the callsigns along a path.
use mathlib.Core.Option
use aprsr.Prelude.{
  List, [], ◌∷◌, ◌++◌, Option, none, some, map, ◌≡◌, refl, ap, arith, Option-cases, inl, inr,
}
use aprsr.Bytes.{Bytes}
use aprsr.Digipath.{Hop, new, hops}
use aprsr.Digipath.Calls.{call_of, calls}
use aprsr.Qconstruct.Code.{QCode, as_str, parse, FoundQ, find, find_in, next_call, parse-as_str}

-- The first code among callsigns.
pub code_in : List Bytes → Option QCode
code_in [] = none
code_in (c ∷ cs) = let later = code_in cs in elim (parse c) [ some code ↦ some code | none ↦ later ]

pub code_in-nil : code_in [] ≡ none
unfolding code_in
code_in-nil = refl

pub code_in-append : (xs ys : List Bytes) → code_in xs ≡ none → code_in (xs ++ ys) ≡ code_in ys
unfolding code_in
code_in-append [] ys h = refl
code_in-append (x ∷ xs) ys h = ground (arith, code_in-append xs ys)

pub code_in-left : (xs ys : List Bytes) → code_in (xs ++ ys) ≡ none → code_in xs ≡ none
unfolding code_in
code_in-left [] ys h = refl
code_in-left (x ∷ xs) ys h = ground (arith, code_in-left xs ys)

pub code_in-cons : (code : QCode) (ys : List Bytes) → code_in (as_str code ∷ ys) ≡ some code
unfolding code_in
code_in-cons code ys = rw (parse-as_str code, code_in)

abbrev pub Names : Hop → QCode → Type 0
Names h code = parse h.call ≡ some code

-- The hops before the construct carry no code, and the report describes the hop and the next one.
pub record FoundIn (hs : List Hop) (q : FoundQ) : Type 0 where
  pub before : List Hop
  pub at : Hop
  pub after : List Hop
  pub spelled : hs ≡ before ++ at ∷ after
  pub none_before : code_in (map call_of before) ≡ none
  pub code_of : parse at.call ≡ some q.code
  pub offset_of : q.offset ≡ at.offset
  pub call_next : q.call ≡ next_call after

pub find_in-some : (hs : List Hop) (q : FoundQ) → find_in hs ≡ some q → FoundIn hs q
unfolding find_in code_in
find_in-some [] q h = cc
find_in-some (h ∷ hs) q e = elim (Option-cases (parse h.call)) [
  | inl n ↦
      let rest = find_in-some hs q (ground arith) in
      record {
        before = h ∷ rest.before;
        at = rest.at;
        after = rest.after;
        spelled = ap (λ t. h ∷ t) rest.spelled;
        none_before = ground (arith, rest.none_before);
        code_of = rest.code_of;
        offset_of = rest.offset_of;
        call_next = rest.call_next;
      }
  | inr (code, n) ↦ record {
    before = [];
    at = h;
    after = hs;
    spelled = refl;
    none_before = refl;
    code_of = ground arith;
    offset_of = ground arith;
    call_next = ground arith;
  }
]

find_in-code :
    (hs : List Hop) → Option.map (λ (q : FoundQ). q.code) (find_in hs) ≡ code_in (map call_of hs)
unfolding find_in code_in
find_in-code [] = refl
find_in-code (h ∷ hs) = ground (arith, find_in-code hs)

pub find-code :
    (raw : Bytes) → Option.map (λ (q : FoundQ). q.code) (find (new raw)) ≡ code_in (calls raw)
unfolding find calls
find-code raw = find_in-code (hops (new raw))
