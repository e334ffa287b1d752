-- ===== src/Tests/Filters.antt =====
-- Filter chains and intervals at concrete inputs.
use mathlib.Core.Option
use aprsr.Prelude.{
  ℕ, ◌+◌, ◌*◌, ◌/◌, ◌-◌, ◌≤◌, [], ◌∷◌, none, some, true, false, any, leb, ltb, length, All, ◌≡◌,
  ◌↔◌, refl, arith, ok,
}
use aprsr.Prelude.Int.{ℤ, pos, negsuc}
use aprsr.Bytes
use aprsr.Bytes.{Bytes, codes, split_ascii_whitespace}
use aprsr.Digipath
use aprsr.Numbers.{parse_digits, digits_onto, show_u64}
use aprsr.Geo.{Floats}
use aprsr.Filter.{max_filters, max_area_filters, range, prefix, FilterEntry, FilterChain}
use aprsr.Filter.Parse
use aprsr.Filter.Parse.{parse_chain}
use aprsr.Filter.Matches.{MatchContext, matches, matches_chain}
use aprsr.Filter.Chain.{adds, matches_chain_iff}
use aprsr.Filter.Bounds.{IsBounded}
use aprsr.Filter.Limits.{areas_in, parse_chain-IsBounded}
use aprsr.Interval.{parse_interval, show_interval}
use aprsr.Interval.Display.{parse-show_interval}

abbrev shifted : ℤ → ℕ
shifted (pos n) = 1000 + n
shifted (negsuc n) = 999 - n

-- Whole degrees, a thousand added, with products and quotients of numbers that are not negative; the
-- distance of two points is the sum of their differences.
abbrev pub whole : Floats
whole = record {
  f64 = ℕ;
  of_int = shifted;
  parse_f64 = λ s. Option.map (λ n. 1000 + n) (parse_digits 999 s);
  show_f64 = λ n. show_u64 (n - 1000);
  is_finite = λ _. true;
  le = leb;
  lt = ltb;
  add = λ a b. a + b - 1000;
  sub = λ a b. a + 1000 - b;
  mul = λ a b. 1000 + (a - 1000) * (b - 1000);
  div = λ a b. 1000 + (a - 1000) / (b - 1000);
  neg = λ a. 2000 - a;
  great_circle_distance_km = λ a b c d. 1000 + ((a - c) + (c - a)) + ((b - d) + (d - b));
}

abbrev expression : Bytes
expression = codes "r/33/96/25 -p/n0"

abbrev chain : FilterChain ℕ
chain = record {
  entries =
      record { negated = false; filter = range 1033 1096 1025 }
      ∷ record { negated = true; filter = prefix (codes "N0" ∷ []) }
      ∷ [];
}

expression-parses : parse_chain whole expression ≡ ok chain
unfolding Parse.code_and_args Parse.negation Parse.exact_1 Parse.exact_2 Parse.exact_3 Parse.exact_4
    Parse.list Parse.number Parse.between Parse.latitude Parse.longitude Parse.distance
    Parse.type_letters Parse.near_of Parse.parse_type Parse.parse_range Parse.parse_symbol
    Parse.parse_area Parse.parse_qconstruct Parse.parse_friend Parse.parse_coded Parse.parse_filter
    Parse.parse_token Parse.parse_tokens Parse.parse_chain Bytes.split Bytes.split_ascii_whitespace
    Bytes.str_eq parse_digits digits_onto
expression-parses = refl

parse_chain-IsBounded_example :
    (length chain.entries ≡ length (split_ascii_whitespace expression))
    × (length chain.entries ≤ max_filters)
    × (areas_in whole chain.entries ≤ max_area_filters)
    × All (λ (e : FilterEntry ℕ). IsBounded whole e.filter) chain.entries
parse_chain-IsBounded_example = parse_chain-IsBounded whole expression chain expression-parses

abbrev context : MatchContext ℕ
context = record {
  packet = record {
    raw = [];
    source = codes "K1ABC";
    destination = codes "APRS";
    path = Digipath.new [];
    payload = codes "!";
    colon = 0;
  };
  parsed = record {
    types = 1;
    position = some (record { latitude = 1034; longitude = 1090 });
    symbol = none;
    object_name = none;
    addressee = none;
  };
  client = none;
  positions = λ _. none;
}

matches_chain_iff_example : (matches_chain whole chain context ≡ true) ↔ (
    (any (adds whole context) chain.entries ≡ true)
    × All
        (λ (e : FilterEntry ℕ). e.negated ≡ true → matches whole e.filter context ≡ false)
        chain.entries)
matches_chain_iff_example = matches_chain_iff whole context chain

parse-show_interval_example : parse_interval (show_interval 97524) ≡ ok 97524
parse-show_interval_example = parse-show_interval 97524 (omega arith)
