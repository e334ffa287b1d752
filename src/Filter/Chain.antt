-- ===== src/Filter/Chain.antt =====
-- What a filter chain accepts.
use aprsr.Prelude.{
  List, [], ◌∷◌, Bool, true, false, not, ◌&&◌, ◌||◌, any, All, ◌≡◌, ◌↔◌, refl, arith, Bool-cases,
  inl, inr,
}
use aprsr.Geo.{Floats}
use aprsr.Filter.{FilterEntry, FilterChain}
use aprsr.Filter.Matches.{MatchContext, matches, matches_from, matches_chain}

module _ (floats : Floats) (ctx : MatchContext floats.f64) where
  -- A positive filter that matches, and a negated one.
  abbrev pub adds : FilterEntry floats.f64 → Bool
  adds e = not e.negated && matches floats e.filter ctx

  abbrev pub subtracts : FilterEntry floats.f64 → Bool
  subtracts e = e.negated && matches floats e.filter ctx

  matches_from_eq :
      (es : List (FilterEntry floats.f64)) (passed : Bool)
      → matches_from floats es ctx passed ≡ ((passed || any adds es) && not (any subtracts es))
  unfolding matches_from
  matches_from_eq [] passed = ground arith
  matches_from_eq (e ∷ es) passed =
      ground (arith, matches_from_eq es true, matches_from_eq es passed)

  none-subtract :
      (es : List (FilterEntry floats.f64))
      → any subtracts es ≡ false
      → All
          (λ (e : FilterEntry floats.f64). e.negated ≡ true → matches floats e.filter ctx ≡ false)
          es
  none-subtract [] h = tt
  none-subtract (e ∷ es) h = (λ n. ground arith, none-subtract es (ground arith))

  subtract-none :
      (es : List (FilterEntry floats.f64))
      → All
          (λ (e : FilterEntry floats.f64). e.negated ≡ true → matches floats e.filter ctx ≡ false)
          es
      → any subtracts es ≡ false
  subtract-none [] a = refl
  subtract-none (e ∷ es) (h, a) = elim (Bool-cases e.negated) [
    | inl n ↦ ground (arith, subtract-none es a, h n)
    | inr n ↦ ground (arith, subtract-none es a)
  ]

  -- A chain passes a packet exactly if one of its positive filters matches it and none of its
  -- negated filters does, in whatever order the entries stand.
  pub matches_chain_iff :
      (chain : FilterChain floats.f64)
      → (matches_chain floats chain ctx ≡ true) ↔ (
          (any adds chain.entries ≡ true)
          × All
              (λ (e : FilterEntry floats.f64).
                e.negated ≡ true → matches floats e.filter ctx ≡ false)
              chain.entries)
  unfolding matches_chain
  matches_chain_iff chain =
      let e = matches_from_eq chain.entries false in
      (
        λ m. (ground arith, none-subtract chain.entries (ground arith)),
        λ (p, a). ground (arith, subtract-none chain.entries a),
      )
