-- ===== src/Filter/Bounds.antt =====
-- What `FilterChain::parse` promises of a chain that it accepts.
use aprsr.Prelude.{
  ℕ, List, [], Option, none, some, true, ◌||◌, ltb, if◌then◌else◌, length, is_empty, ok, ◌>>=◌,
  >>=-eq-ok, ◌≡◌, subst, arith, if-elim, get_or, get_elem?,
}
use aprsr.Prelude.Int.{ℤ, pos, negsuc}
use aprsr.Aprs.{types_none}
use aprsr.Bytes.{Bytes, codes, str_eq}
use aprsr.Geo.{Floats}
use aprsr.Filter.{
  Filter, range, prefix, budlist, object, of_type, symbol, digipeater, area, entry, group, unproto,
  q_construct, my_range, friend_range,
}
use aprsr.Filter.Parse.{
  upper, code_and_args, Parsed, exact_1, exact_2, exact_3, exact_4, list, number, between, latitude,
  longitude, distance, type_letters, near_of, parse_type, parse_range, parse_symbol, parse_area,
  parse_qconstruct, parse_friend, parse_coded, parse_filter,
}
use aprsr.Filter.CallList.{IsCallList, upper_idempotent, list-IsCallList}

module _ (floats : Floats) where
  abbrev pub InRange : ℤ → floats.f64 → ℤ → Type 0
  InRange low v high = between floats low v high ≡ true

  abbrev pub IsDistance : floats.f64 → Type 0
  IsDistance km = floats.lt (floats.of_int (pos 0)) km ≡ true

  abbrev NearBounded : Option (Bytes × floats.f64) → Type 0
  NearBounded none = Unit
  NearBounded (some (call, km)) = (upper call ≡ call) × IsDistance km

  -- Coordinates on the globe, distances above zero, lists of callsigns within their bounds.
  abbrev pub IsBounded : Filter floats.f64 → Type 0
  IsBounded (range lat lon km) =
      InRange (negsuc 89) lat (pos 90) × InRange (negsuc 179) lon (pos 180) × IsDistance km
  IsBounded (prefix calls) = IsCallList calls
  IsBounded (budlist calls) = IsCallList calls
  IsBounded (object names) = IsCallList names
  IsBounded (of_type types near) = NearBounded near
  IsBounded (symbol primary alternate overlay) = Unit
  IsBounded (digipeater calls) = IsCallList calls
  IsBounded (area n w s e) =
      InRange (negsuc 89) n (pos 90)
      × InRange (negsuc 179) w (pos 180)
      × InRange (negsuc 89) s (pos 90)
      × InRange (negsuc 179) e (pos 180)
  IsBounded (entry calls) = IsCallList calls
  IsBounded (group calls) = IsCallList calls
  IsBounded (unproto dests) = IsCallList dests
  IsBounded (q_construct constructs igate_positions) = Unit
  IsBounded (my_range km) = IsDistance km
  IsBounded (friend_range callsign km) = (upper callsign ≡ callsign) × IsDistance km

  latitude-InRange :
      (s : Bytes) (v : floats.f64) → latitude floats s ≡ ok v → InRange (negsuc 89) v (pos 90)
  unfolding latitude
  latitude-InRange s v e =
      let (w, _, h) = >>=-eq-ok (number floats (codes "latitude") s) _ e in ground arith

  longitude-InRange :
      (s : Bytes) (v : floats.f64) → longitude floats s ≡ ok v → InRange (negsuc 179) v (pos 180)
  unfolding longitude
  longitude-InRange s v e =
      let (w, _, h) = >>=-eq-ok (number floats (codes "longitude") s) _ e in ground arith

  distance-IsDistance : (s : Bytes) (v : floats.f64) → distance floats s ≡ ok v → IsDistance v
  unfolding distance
  distance-IsDistance s v e =
      let (w, _, h) = >>=-eq-ok (number floats (codes "distance") s) _ e in ground arith

  -- What a successful parse yields is bounded.
  abbrev Bounded : Parsed floats (Filter floats.f64) → Type 0
  Bounded r = (f : Filter floats.f64) → r ≡ ok f → IsBounded f

  ok-Bounded : (g : Filter floats.f64) → IsBounded g → Bounded (ok g)
  ok-Bounded g b f e = subst IsBounded (ground arith) b

  bind-Bounded :
      {A : Type 0} (m : Parsed floats A) (k : A → Parsed floats (Filter floats.f64))
      → ((a : A) → m ≡ ok a → Bounded (k a))
      → Bounded (m >>= k)
  bind-Bounded m k h f e = let (a, ma, ka) = >>=-eq-ok m k e in h a ma f ka

  range-Bounded : (args : List Bytes) → Bounded (parse_range floats args)
  unfolding parse_range
  range-Bounded args = bind-Bounded (exact_3 floats (codes "r") args) _ (λ (lat, lon, dist) _.
      bind-Bounded (latitude floats lat) _ (λ la ea. bind-Bounded (longitude floats lon) _ (λ lo eo.
        bind-Bounded (distance floats dist) _ (λ d ed. ok-Bounded (range la lo d) (
          latitude-InRange lat la ea,
          longitude-InRange lon lo eo,
          distance-IsDistance dist d ed,
        )))))

  area-Bounded : (args : List Bytes) → Bounded (parse_area floats args)
  unfolding parse_area
  area-Bounded args = bind-Bounded (exact_4 floats (codes "a") args) _ (λ (n, w, s, e) _.
      bind-Bounded (latitude floats n) _ (λ n' en. bind-Bounded (longitude floats w) _ (λ w' ew.
        bind-Bounded (latitude floats s) _ (λ s' es. bind-Bounded (longitude floats e) _ (λ e' ee.
          ok-Bounded (area n' w' s' e') (
            latitude-InRange n n' en,
            longitude-InRange w w' ew,
            latitude-InRange s s' es,
            longitude-InRange e e' ee,
          ))))))

  my_range-Bounded :
      (code : Bytes) (args : List Bytes)
      → Bounded
          (exact_1 floats code args >>= (λ dist. distance floats dist >>= (λ d. ok (my_range d))))
  my_range-Bounded code args = bind-Bounded (exact_1 floats code args) _ (λ dist _.
      bind-Bounded (distance floats dist) _
        (λ d ed. ok-Bounded (my_range d) (distance-IsDistance dist d ed)))

  friend-Bounded : (args : List Bytes) → Bounded (parse_friend floats args)
  unfolding parse_friend
  friend-Bounded args = bind-Bounded (exact_2 floats (codes "f") args) _ (λ (call, dist) _.
      bind-Bounded (distance floats dist) _ (λ d ed.
        ok-Bounded (friend_range (upper call) d)
          (upper_idempotent call, distance-IsDistance dist d ed)))

  near-NearBounded :
      (n : ℕ) (call km : Option Bytes) (near : Option (Bytes × floats.f64))
      → near_of floats n call km ≡ ok near
      → NearBounded near
  unfolding near_of
  near-NearBounded n (some call) (some km) near e =
      let (d, ed, h) = >>=-eq-ok (distance floats km) _ e in
      let same : some (upper call, d) ≡ near = ground arith in
      subst NearBounded same (upper_idempotent call, distance-IsDistance km d ed)
  near-NearBounded n none none near e =
      let same : none ≡ near = ground arith in subst NearBounded same tt
  near-NearBounded n none (some km) near e = cc
  near-NearBounded n (some call) none near e = cc

  type-Bounded : (args : List Bytes) → Bounded (parse_type floats args)
  unfolding parse_type
  type-Bounded args =
      if-elim Bounded (is_empty (get_or args 0 [])) _ _ (λ _ f e. cc)
        (λ _.
          bind-Bounded (type_letters floats (get_or args 0 []) (get_or args 0 []) types_none) _
            (λ types _.
              bind-Bounded (near_of floats (length args) (get_elem? args 1) (get_elem? args 2)) _
                (λ near en.
                  ok-Bounded (of_type types near) (
                    near-NearBounded (length args) (get_elem? args 1) (get_elem? args 2) near en))))

  symbol-Bounded : (args : List Bytes) → Bounded (parse_symbol floats args)
  unfolding parse_symbol
  symbol-Bounded args =
      if-elim Bounded (is_empty args || ltb 3 (length args)) _ _ (λ _ f e. cc)
        (λ _. ok-Bounded (symbol (get_or args 0 []) (get_or args 1 []) (get_or args 2 [])) tt)

  qconstruct-Bounded : (args : List Bytes) → Bounded (parse_qconstruct floats args)
  unfolding parse_qconstruct
  qconstruct-Bounded args =
      if-elim Bounded (is_empty args || ltb 2 (length args)) _ _ (λ _ f e. cc)
        (λ _. ok-Bounded (q_construct (get_or args 0 []) _) tt)

  calls-Bounded :
      (code : Bytes) (args : List Bytes) (make : List Bytes → Filter floats.f64)
      → ((l : List Bytes) → IsCallList l → IsBounded (make l))
      → Bounded (list floats code args >>= (λ l. ok (make l)))
  calls-Bounded code args make h =
      bind-Bounded (list floats code args) _
        (λ l el. ok-Bounded (make l) (h l (list-IsCallList floats code args l el)))

  -- One code of the `match`.
  case-Bounded :
      (code : Bytes) (name : Bytes) (x y : Parsed floats (Filter floats.f64))
      → Bounded x
      → Bounded y
      → Bounded (if str_eq code name then x else y)
  case-Bounded code name x y bx by = if-elim Bounded (str_eq code name) x y (λ _. bx) (λ _. by)

  coded-Bounded : (code : Bytes) (args : List Bytes) → Bounded (parse_coded floats code args)
  unfolding parse_coded
  coded-Bounded code args = case-Bounded code (codes "r") _ _ (range-Bounded args) (
      case-Bounded code (codes "p") _ _ (calls-Bounded code args prefix (λ l c. c)) (
        case-Bounded code (codes "b") _ _ (calls-Bounded code args budlist (λ l c. c)) (
          case-Bounded code (codes "o") _ _ (calls-Bounded code args object (λ l c. c)) (
            case-Bounded code (codes "d") _ _ (calls-Bounded code args digipeater (λ l c. c)) (
              case-Bounded code (codes "e") _ _ (calls-Bounded code args entry (λ l c. c)) (
                case-Bounded code (codes "g") _ _ (calls-Bounded code args group (λ l c. c)) (
                  case-Bounded code (codes "u") _ _ (calls-Bounded code args unproto (λ l c. c)) (
                    case-Bounded code (codes "t") _ _ (type-Bounded args) (
                      case-Bounded code (codes "s") _ _ (symbol-Bounded args) (
                        case-Bounded code (codes "a") _ _ (area-Bounded args) (
                          case-Bounded code (codes "q") _ _ (qconstruct-Bounded args) (
                            case-Bounded code (codes "m") _ _ (my_range-Bounded code args) (
                              case-Bounded code (codes "f") _ _ (friend-Bounded args)
                                (λ f e. cc))))))))))))))

  -- A filter that `Filter::parse` accepts is bounded.
  pub parse_filter-IsBounded :
      (text : Bytes) (f : Filter floats.f64) → parse_filter floats text ≡ ok f → IsBounded f
  unfolding parse_filter
  parse_filter-IsBounded text = coded-Bounded (code_and_args text).0 (code_and_args text).1
