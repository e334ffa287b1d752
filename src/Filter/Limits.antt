-- ===== src/Filter/Limits.antt =====
-- The limits of `FilterChain::parse`.
use aprsr.Prelude.{
  ℕ, ◌+◌, ◌≤◌, List, [], ◌∷◌, ◌++◌, Bool, false, ltb, leb, if◌then◌else◌, length, is_empty, keep,
  All, All-append, ok, err, >>=-eq-ok, ◌≡◌, refl, ap, ◌∙◌, subst, arith, length-append, keep-append,
  if-elim,
}
use aprsr.Bytes.{Bytes, split_ascii_whitespace}
use aprsr.Geo.{Floats}
use aprsr.Filter.{
  too_many_area_filters, max_filters, max_area_filters, Filter, FilterEntry, FilterChain,
}
use aprsr.Filter.Parse.{
  negation, Parsed, parse_filter, is_area, parse_token, parse_tokens, parse_chain,
}
use aprsr.Filter.Bounds.{IsBounded, parse_filter-IsBounded}

module _ (floats : Floats) where
  abbrev pub areas_in : List (FilterEntry floats.f64) → ℕ
  areas_in es = length (keep (λ (e : FilterEntry floats.f64). is_area floats e.filter) es)

  areas_in-append :
      (es fs : List (FilterEntry floats.f64)) → areas_in (es ++ fs) ≡ areas_in es + areas_in fs
  areas_in-append es fs =
      ap length (keep-append (λ (e : FilterEntry floats.f64). is_area floats e.filter) es fs)
      ∙ length-append (keep (λ (e : FilterEntry floats.f64). is_area floats e.filter) es)
          (keep (λ (e : FilterEntry floats.f64). is_area floats e.filter) fs)

  -- What the parser has built from `seen` tokens, with `areas` area filters among them.
  abbrev Built : ℕ → ℕ → List (FilterEntry floats.f64) → Type 0
  Built seen areas es =
      (length es ≡ seen)
      × (length es ≤ max_filters)
      × (areas_in es ≡ areas)
      × (areas ≤ max_area_filters)
      × All (λ (e : FilterEntry floats.f64). IsBounded floats e.filter) es

  -- What a token's entry is, and the count behind it.
  Counted : ℕ → Parsed floats (FilterEntry floats.f64 × ℕ) → Type 0
  Counted areas r =
      (e : FilterEntry floats.f64) (areas' : ℕ)
      → r ≡ ok (e, areas')
      → areas ≤ max_area_filters
      → IsBounded floats e.filter
        × (areas' ≡ areas + areas_in (e ∷ []))
        × (areas' ≤ max_area_filters)

  entry-Counted :
      (negated : Bool) (f : Filter floats.f64) (areas : ℕ)
      → IsBounded floats f
      → Counted areas (
          if is_area floats f
          then (if ltb max_area_filters (areas + 1)
              then err too_many_area_filters
              else ok (record { negated = negated; filter = f }, areas + 1))
          else ok (record { negated = negated; filter = f }, areas))
  unfolding Counted
  entry-Counted negated f areas b e areas' h le =
      let same : f ≡ e.filter = ground arith in
      (subst (IsBounded floats) same b, ground arith, ground arith)

  token-Counted : (token : Bytes) (areas : ℕ) → Counted areas (parse_token floats token areas)
  unfolding parse_token Counted
  token-Counted token areas =
      if-elim (Counted areas) (is_empty (negation token).1) _ _ (λ _ e areas' h. cc)
        (λ _ e areas' h.
          let (f, pf, k) = >>=-eq-ok (parse_filter floats (negation token).1) _ h in
          entry-Counted (negation token).0 f areas
            (parse_filter-IsBounded floats (negation token).1 f pf) e areas' k)

  Built-push :
      (seen areas : ℕ) (es : List (FilterEntry floats.f64)) (token : Bytes)
      (e : FilterEntry floats.f64) (areas' : ℕ)
      → Built seen areas es
      → leb max_filters (length es) ≡ false
      → parse_token floats token areas ≡ ok (e, areas')
      → Built (seen + 1) areas' (es ++ e ∷ [])
  unfolding Counted
  Built-push seen areas es token e areas' (n, le, c, ca, all) room h =
      let (b, grown, bound) = token-Counted token areas e areas' h ca in
      (
        omega (arith, length-append es (e ∷ []), n),
        ground (arith, length-append es (e ∷ [])),
        omega (arith, areas_in-append es (e ∷ []), grown, c),
        bound,
        All-append (λ (e : FilterEntry floats.f64). IsBounded floats e.filter) es (e ∷ []) all
            (b, tt),
      )

  tokens-Built :
      (tokens : List Bytes) (seen areas : ℕ) (es out : List (FilterEntry floats.f64))
      → Built seen areas es
      → parse_tokens floats tokens es areas ≡ ok out
      → (total : ℕ) × Built (seen + length tokens) total out
  unfolding parse_tokens
  tokens-Built [] seen areas es out (n, le, c, ca, all) h =
      let same : es ≡ out = ground arith in
      (areas, subst (Built (seen + 0) areas) same (omega (arith, n), le, c, ca, all))
  tokens-Built (token ∷ tokens) seen areas es out b h =
      if-elim (λ r. r ≡ ok out → (total : ℕ) × Built (seen + length (token ∷ tokens)) total out)
        (leb max_filters (length es)) _ _ (λ _ k. cc)
        (λ room k.
          let ((e, areas'), p, rest) =
            >>=-eq-ok (parse_token floats token areas)
              (λ (e, a'). parse_tokens floats tokens (es ++ e ∷ []) a') k in
          let pushed = Built-push seen areas es token e areas' b room p in
          let (total, built) =
            tokens-Built tokens (seen + 1) areas' (es ++ e ∷ []) out pushed rest in
          let (n, le, c, ca, all) = built in (total, (omega (arith, n), le, c, ca, all)))
        h

  -- A filter expression that the parser accepts has an entry for every token, at most 64 entries
  -- and at most nine area filters among them; the coordinates of every entry lie on the globe, its
  -- distances are above zero, and its lists hold between one and 64 callsigns, none of them empty
  -- and all in upper case.
  pub parse_chain-IsBounded :
      (expression : Bytes) (chain : FilterChain floats.f64)
      → parse_chain floats expression ≡ ok chain
      → (length chain.entries ≡ length (split_ascii_whitespace expression))
        × (length chain.entries ≤ max_filters)
        × (areas_in chain.entries ≤ max_area_filters)
        × All (λ (e : FilterEntry floats.f64). IsBounded floats e.filter) chain.entries
  unfolding parse_chain
  parse_chain-IsBounded expression chain h =
      let (es, p, k) =
        >>=-eq-ok (parse_tokens floats (split_ascii_whitespace expression) [] 0) _ h in
      let same : es ≡ chain.entries = ground arith in
      let empty : Built 0 0 [] = (refl, ground arith, refl, ground arith, tt) in
      let (total, built) = tokens-Built (split_ascii_whitespace expression) 0 0 [] es empty p in
      let (n, le, c, ca, all) = built in
      subst
        (λ (l : List (FilterEntry floats.f64)).
          (length l ≡ length (split_ascii_whitespace expression))
          × (length l ≤ max_filters)
          × (areas_in l ≤ max_area_filters)
          × All (λ (e : FilterEntry floats.f64). IsBounded floats e.filter) l)
        same (omega (arith, n), le, omega (arith, c, ca), all)
