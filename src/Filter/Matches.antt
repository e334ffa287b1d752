-- ===== src/Filter/Matches.antt =====
-- Deciding about a packet: `Filter::matches`, `FilterChain::matches` and their helpers.
use aprsr.Prelude.{
  List, [], ◌∷◌, Option, none, some, Bool, true, false, ◌&&◌, ◌||◌, leb, ◌==◌, if◌then◌else◌,
  length, is_empty, any, get_elem?, is_some_and,
}
use aprsr.Bytes.{Bytes, codes, str_eq, get_to, eq_ignore_ascii_case}
use aprsr.Callsign.{matches_pattern}
use aprsr.Digipath.{Hop, hops}
use aprsr.Packet.{Packet}
use aprsr.Qconstruct.Code.{QCode, remote_igate, verified_igate, as_str, find}
use aprsr.Geo.{Floats, Position, within_area}
use aprsr.Aprs.{position_type, intersects, ParsedPayload}
use aprsr.Aprs.Symbols.{Symbol}
use aprsr.Filter.{
  Filter, range, prefix, budlist, object, of_type, symbol, digipeater, area, entry, group, unproto,
  q_construct, my_range, friend_range, FilterEntry, FilterChain,
}

-- `str::contains` of a text, which for the encoding of a character is that of the character.
unfoldable pub starts_with : Bytes → Bytes → Bool
starts_with [] s = true
starts_with (c ∷ p) [] = false
starts_with (c ∷ p) (d ∷ s) = (c == d) && starts_with p s

unfoldable pub contains_text : Bytes → Bytes → Bool
contains_text [] p = starts_with p []
contains_text (c ∷ s) p = starts_with p (c ∷ s) || contains_text s p

pub record MatchContext (f64 : Type 0) : Type 0 where
  pub packet : Packet
  pub parsed : ParsedPayload f64
  pub client : Option Bytes
  pub positions : Bytes → Option (Position f64)

unfoldable pub matches_prefix : Bytes → Bytes → Bool
matches_prefix source p =
    leb (length p) (length source)
    && is_some_and (get_to (length p) source) (λ head. eq_ignore_ascii_case head p)

unfoldable pub matches_any : List Bytes → Bytes → Bool
matches_any patterns call = any (λ p. matches_pattern p call) patterns

unfoldable pub entry_station : Packet → Option Bytes
entry_station packet = elim (find packet.path) [ none ↦ none | some found ↦ found.call ]

unfoldable pub symbol_wanted : Symbol → (primary alternate overlay : Bytes) → Bool
symbol_wanted s primary alternate overlay =
    if str_eq s.table (codes "/")
    then contains_text primary s.code
    else if str_eq s.table (codes "\\")
    then contains_text alternate s.code
    else contains_text overlay s.table && (is_empty alternate || contains_text alternate s.code)

abbrev pub is_igate_code : QCode → Bool
is_igate_code verified_igate = true
is_igate_code remote_igate = true
is_igate_code _ = false

-- `code.as_str().chars().nth(2)`, one of the wanted characters.
unfoldable pub letter_wanted : QCode → Bytes → Bool
letter_wanted code constructs =
    is_some_and (get_elem? (as_str code) 2) (λ c. any (λ d. c == d) constructs)

module _ (floats : Floats) where
  unfoldable pub within : Option (Position floats.f64) → (lat lon km : floats.f64) → Bool
  within position lat lon km =
      is_some_and position
        (λ p. floats.le (floats.great_circle_distance_km lat lon p.latitude p.longitude) km)

  unfoldable pub near_station : MatchContext floats.f64 → Bytes → floats.f64 → Bool
  near_station ctx callsign km =
      is_some_and (ctx.positions callsign)
        (λ centre. within ctx.parsed.position centre.latitude centre.longitude km)

  unfoldable pub near_or_anywhere : MatchContext floats.f64 → Option (Bytes × floats.f64) → Bool
  near_or_anywhere ctx none = true
  near_or_anywhere ctx (some (call, km)) = near_station ctx call km

  unfoldable pub matches_symbol :
      MatchContext floats.f64 → (primary alternate overlay : Bytes) → Bool
  matches_symbol ctx primary alternate overlay =
      is_some_and ctx.parsed.symbol (λ s. symbol_wanted s primary alternate overlay)

  unfoldable pub matches_qconstruct : MatchContext floats.f64 → Bytes → Bool → Bool
  matches_qconstruct ctx constructs igate_positions = elim (find ctx.packet.path) [
    | none ↦ false
    | some found ↦
        if letter_wanted found.code constructs
        then true
        else igate_positions
          && intersects ctx.parsed.types position_type
          && is_igate_code found.code
  ]

  -- `Filter::matches`
  unfoldable pub matches : Filter floats.f64 → MatchContext floats.f64 → Bool
  matches (range lat lon km) ctx = within ctx.parsed.position lat lon km
  matches (prefix prefixes) ctx = any (matches_prefix ctx.packet.source) prefixes
  matches (budlist calls) ctx = matches_any calls ctx.packet.source
  matches (object names) ctx = is_some_and ctx.parsed.object_name (matches_any names)
  matches (digipeater calls) ctx =
      any (λ (hop : Hop). hop.used && matches_any calls hop.call) (hops ctx.packet.path)
  matches (entry calls) ctx = is_some_and (entry_station ctx.packet) (matches_any calls)
  matches (group calls) ctx = is_some_and ctx.parsed.addressee (matches_any calls)
  matches (unproto dests) ctx = matches_any dests ctx.packet.destination
  matches (of_type types near) ctx = intersects ctx.parsed.types types && near_or_anywhere ctx near
  matches (symbol primary alternate overlay) ctx = matches_symbol ctx primary alternate overlay
  matches (area n w s e) ctx =
      is_some_and ctx.parsed.position (λ p. within_area floats p.latitude p.longitude n w s e)
  matches (q_construct constructs igate_positions) ctx =
      matches_qconstruct ctx constructs igate_positions
  matches (my_range km) ctx = is_some_and ctx.client (λ call. near_station ctx call km)
  matches (friend_range callsign km) ctx = near_station ctx callsign km

  -- The loop of `FilterChain::matches`: `passed` is whether a positive filter has matched.
  unfoldable pub matches_from :
      List (FilterEntry floats.f64) → MatchContext floats.f64 → Bool → Bool
  matches_from [] ctx passed = passed
  matches_from (e ∷ es) ctx passed = elim (matches e.filter ctx) [
    | true ↦ elim e.negated [ true ↦ false | false ↦ matches_from es ctx true ]
    | false ↦ matches_from es ctx passed
  ]

  -- `FilterChain::matches`
  unfoldable pub matches_chain : FilterChain floats.f64 → MatchContext floats.f64 → Bool
  matches_chain chain ctx = matches_from chain.entries ctx false
