-- ===== src/Filter/Parse.antt =====
-- Reading a filter expression: `Filter::parse`, `FilterChain::parse` and their helpers.
use Prim.Native.Char.{code}
use aprsr.Prelude.{
  ℕ, ◌+◌, List, [], ◌∷◌, ◌++◌, Option, none, some, Bool, true, false, not, ◌&&◌, ◌||◌, ltb, leb,
  ◌==◌, if◌then◌else◌, length, get_elem?, get_or, is_empty, any, keep, map, Result, ok, err, ◌>>=◌,
  is_some_and,
}
use aprsr.Prelude.Int.{ℤ, pos, negsuc}
use aprsr.Bytes.{
  Bytes, codes, str_eq, split, split_ascii_whitespace, to_ascii_uppercase, to_ascii_lowercase,
}
use aprsr.Geo.{Floats}
use aprsr.Aprs.{PacketType, types_none, from_filter_letter, union}
use aprsr.Filter.{
  max_filters, max_list_entries, max_area_filters, FilterError, empty, too_many_filters,
  too_many_area_filters, too_many_entries, unknown_type, empty_argument_list, unknown_type_letter,
  wrong_argument_count, not_a_number, latitude_out_of_range, longitude_out_of_range,
  distance_out_of_range, Filter, range, prefix, budlist, object, of_type, symbol, digipeater, area,
  entry, group, unproto, q_construct, my_range, friend_range, FilterEntry, FilterChain,
}

-- `str::to_ascii_uppercase`
abbrev pub upper : Bytes → Bytes
upper s = map to_ascii_uppercase s

-- `split('/')`, whose first part is the code.
unfoldable pub code_and_args : Bytes → Bytes × List Bytes
code_and_args text = elim (split b'/' text) [ [] ↦ ([], []) | code ∷ args ↦ (code, args) ]

-- `strip_prefix('-')`
unfoldable pub negation : Bytes → Bool × Bytes
negation [] = (false, [])
negation (c ∷ body) = if c == b'-' then (true, body) else (false, c ∷ body)

module _ (floats : Floats) where
  abbrev pub Parsed : Type 0 → Type 0
  Parsed A = Result A (FilterError floats.f64)

  -- `exact`, for one to four arguments.
  unfoldable pub exact_1 : Bytes → List Bytes → Parsed Bytes
  exact_1 code (a ∷ []) = ok a
  exact_1 code args = err (wrong_argument_count code (codes "1") (length args))

  unfoldable pub exact_2 : Bytes → List Bytes → Parsed (Bytes × Bytes)
  exact_2 code (a ∷ b ∷ []) = ok (a, b)
  exact_2 code args = err (wrong_argument_count code (codes "2") (length args))

  unfoldable pub exact_3 : Bytes → List Bytes → Parsed (Bytes × Bytes × Bytes)
  exact_3 code (a ∷ b ∷ c ∷ []) = ok (a, b, c)
  exact_3 code args = err (wrong_argument_count code (codes "3") (length args))

  unfoldable pub exact_4 : Bytes → List Bytes → Parsed (Bytes × Bytes × Bytes × Bytes)
  exact_4 code (a ∷ b ∷ c ∷ d ∷ []) = ok (a, b, c, d)
  exact_4 code args = err (wrong_argument_count code (codes "4") (length args))

  unfoldable pub list : Bytes → List Bytes → Parsed (List Bytes)
  list code args =
      if is_empty args || not (any (λ a. not (is_empty a)) args)
      then err (empty_argument_list code)
      else if ltb max_list_entries (length args)
      then err (too_many_entries code)
      else ok (map upper (keep (λ a. not (is_empty a)) args))

  unfoldable pub number : Bytes → Bytes → Parsed floats.f64
  number what value = elim (floats.parse_f64 value) [
    | some v ↦ if floats.is_finite v then ok v else err (not_a_number what value)
    | none ↦ err (not_a_number what value)
  ]

  unfoldable pub between : ℤ → floats.f64 → ℤ → Bool
  between low v high = floats.le (floats.of_int low) v && floats.le v (floats.of_int high)

  unfoldable pub latitude : Bytes → Parsed floats.f64
  latitude value =
      number (codes "latitude") value
      >>= (λ v. if between (negsuc 89) v (pos 90) then ok v else err (latitude_out_of_range v))

  unfoldable pub longitude : Bytes → Parsed floats.f64
  longitude value =
      number (codes "longitude") value
      >>= (λ v. if between (negsuc 179) v (pos 180) then ok v else err (longitude_out_of_range v))

  unfoldable pub distance : Bytes → Parsed floats.f64
  distance value =
      number (codes "distance") value
      >>= (λ v. if floats.lt (floats.of_int (pos 0)) v then ok v else err (distance_out_of_range v))

  -- The loop over the letters of a `t/` filter.
  unfoldable pub type_letters : Bytes → Bytes → PacketType → Parsed PacketType
  type_letters all [] types = ok types
  type_letters all (letter ∷ rest) types = elim (from_filter_letter (to_ascii_lowercase letter)) [
    | some t ↦ type_letters all rest (union types t)
    | none ↦ err (unknown_type_letter all)
  ]

  -- The station and the radius of a `t/` filter.
  unfoldable pub near_of : ℕ → Option Bytes → Option Bytes → Parsed (Option (Bytes × floats.f64))
  near_of found (some call) (some km) = distance km >>= (λ d. ok (some (upper call, d)))
  near_of found none none = ok none
  near_of found _ _ = err (wrong_argument_count (codes "t") (codes "1 or 3") found)

  unfoldable pub parse_type : List Bytes → Parsed (Filter floats.f64)
  parse_type args =
      let letters = get_or args 0 [] in
      if is_empty letters
      then err (empty_argument_list (codes "t"))
      else type_letters letters letters types_none >>= (λ types.
        near_of (length args) (get_elem? args 1) (get_elem? args 2)
        >>= (λ near. ok (of_type types near)))

  unfoldable pub parse_range : List Bytes → Parsed (Filter floats.f64)
  parse_range args = exact_3 (codes "r") args >>= (λ (lat, lon, dist).
      latitude lat
      >>= (λ la. longitude lon >>= (λ lo. distance dist >>= (λ d. ok (range la lo d)))))

  unfoldable pub parse_symbol : List Bytes → Parsed (Filter floats.f64)
  parse_symbol args =
      if is_empty args || ltb 3 (length args)
      then err (wrong_argument_count (codes "s") (codes "1 to 3") (length args))
      else ok (symbol (get_or args 0 []) (get_or args 1 []) (get_or args 2 []))

  unfoldable pub parse_area : List Bytes → Parsed (Filter floats.f64)
  parse_area args = exact_4 (codes "a") args >>= (λ (n, w, s, e). latitude n >>= (λ n'.
      longitude w >>= (λ w'. latitude s >>= (λ s'. longitude e >>= (λ e'. ok (area n' w' s' e'))))))

  unfoldable pub parse_qconstruct : List Bytes → Parsed (Filter floats.f64)
  parse_qconstruct args =
      if is_empty args || ltb 2 (length args)
      then err (wrong_argument_count (codes "q") (codes "1 or 2") (length args))
      else ok
          (q_construct (get_or args 0 []) (is_some_and (get_elem? args 1) (any (λ c. c == b'I'))))

  unfoldable pub parse_friend : List Bytes → Parsed (Filter floats.f64)
  parse_friend args =
      exact_2 (codes "f") args
      >>= (λ (call, dist). distance dist >>= (λ d. ok (friend_range (upper call) d)))

  -- The `match` on the code.
  unfoldable pub parse_coded : Bytes → List Bytes → Parsed (Filter floats.f64)
  parse_coded code args =
      if str_eq code (codes "r")
      then parse_range args
      else if str_eq code (codes "p")
      then list code args >>= (λ l. ok (prefix l))
      else if str_eq code (codes "b")
      then list code args >>= (λ l. ok (budlist l))
      else if str_eq code (codes "o")
      then list code args >>= (λ l. ok (object l))
      else if str_eq code (codes "d")
      then list code args >>= (λ l. ok (digipeater l))
      else if str_eq code (codes "e")
      then list code args >>= (λ l. ok (entry l))
      else if str_eq code (codes "g")
      then list code args >>= (λ l. ok (group l))
      else if str_eq code (codes "u")
      then list code args >>= (λ l. ok (unproto l))
      else if str_eq code (codes "t")
      then parse_type args
      else if str_eq code (codes "s")
      then parse_symbol args
      else if str_eq code (codes "a")
      then parse_area args
      else if str_eq code (codes "q")
      then parse_qconstruct args
      else if str_eq code (codes "m")
      then exact_1 code args >>= (λ dist. distance dist >>= (λ d. ok (my_range d)))
      else if str_eq code (codes "f")
      then parse_friend args
      else err (unknown_type code)

  -- `Filter::parse`
  unfoldable pub parse_filter : Bytes → Parsed (Filter floats.f64)
  parse_filter text = let (code, args) = code_and_args text in parse_coded code args

  abbrev pub is_area : Filter floats.f64 → Bool
  is_area (area _ _ _ _) = true
  is_area _ = false

  -- A token of the expression, when `areas` area filters stand before it: its entry, and the
  -- number of area filters so far.
  unfoldable pub parse_token : Bytes → ℕ → Parsed (FilterEntry floats.f64 × ℕ)
  parse_token token areas =
      let (negated, body) = negation token in
      if is_empty body
      then err empty
      else parse_filter body >>= (λ filter.
        if is_area filter
        then (if ltb max_area_filters (areas + 1)
            then err too_many_area_filters
            else ok (record { negated = negated; filter = filter }, areas + 1))
        else ok (record { negated = negated; filter = filter }, areas))

  unfoldable pub parse_tokens :
      List Bytes → List (FilterEntry floats.f64) → ℕ → Parsed (List (FilterEntry floats.f64))
  parse_tokens [] entries areas = ok entries
  parse_tokens (token ∷ tokens) entries areas =
      if leb max_filters (length entries)
      then err too_many_filters
      else parse_token token areas
        >>= (λ (e, areas'). parse_tokens tokens (entries ++ e ∷ []) areas')

  -- `FilterChain::parse`
  unfoldable pub parse_chain : Bytes → Parsed (FilterChain floats.f64)
  parse_chain expression =
      parse_tokens (split_ascii_whitespace expression) [] 0 >>= (λ es. ok (record { entries = es }))
