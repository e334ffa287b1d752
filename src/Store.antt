-- ===== src/Store.antt =====
-- The cache of station positions in front of the database (`PositionCache` of
-- crates/aprsr-store/src/lib.rs). The hash map is an association list with one entry for each key; the
-- lock around it is never poisoned. The database behind the cache is outside the development: its rows
-- are a list.
pub mod Newest
use mathlib.Core.Option
use aprsr.Prelude.{
  ℕ, ◌-◌, List, [], ◌∷◌, Option, none, some, Bool, true, false, not, if◌then◌else◌, length, keep,
  map, is_empty, get_elem?,
}
use aprsr.Prelude.Int.{ℤ, pos, less}
use aprsr.Prelude.Options.{◌>>=◌}
use aprsr.Bytes.{Bytes, str_eq, to_ascii_uppercase, chars}
use aprsr.Geo.{Floats, Position}
use aprsr.Aprs.Symbols.{Symbol}
use aprsr.Aprs.Encodings.{new}
use aprsr.Server.Dispatch.{PositionStore}

-- The time of a report, in seconds: a 64-bit signed integer.
pub record CachedPosition (f64 : Type 0) : Type 0 where
  pub position : Position f64
  pub symbol : Option Symbol
  pub heard_at : ℤ

pub record PositionEntry (f64 : Type 0) : Type 0 where
  pub callsign : Bytes
  pub position : Position f64
  pub symbol : Option Symbol
  pub heard_at : ℤ

abbrev pub PositionCache : Type 0 → Type 0
PositionCache f64 = List (Bytes × CachedPosition f64)

-- `str::to_ascii_uppercase`
abbrev pub uppercase : Bytes → Bytes
uppercase callsign = map to_ascii_uppercase callsign

-- A row of the table of station positions.
pub record StationPosition (f64 : Type 0) : Type 0 where
  pub callsign : Bytes
  pub latitude : f64
  pub longitude : f64
  pub symbol_table : Option Bytes
  pub symbol_code : Option Bytes
  pub heard_at : ℤ

module _ {f64 : Type 0} where
  unfoldable pub get : Bytes → PositionCache f64 → Option (CachedPosition f64)
  get key [] = none
  get key ((k, v) ∷ rest) = if str_eq k key then some v else get key rest

  unfoldable pub insert : Bytes → CachedPosition f64 → PositionCache f64 → PositionCache f64
  insert key v [] = (key, v) ∷ []
  insert key v ((k, w) ∷ rest) =
      let later = insert key v rest in if str_eq k key then (k, v) ∷ rest else (k, w) ∷ later

  -- A newer entry stays.
  unfoldable pub is_newer : Option (CachedPosition f64) → ℤ → Bool
  is_newer none heard_at = false
  is_newer (some existing) heard_at = less heard_at existing.heard_at

  unfoldable pub record_position :
      Bytes → Position f64 → Option Symbol → ℤ → PositionCache f64 → PositionCache f64
  record_position callsign position symbol heard_at cache =
      if is_newer (get (uppercase callsign) cache) heard_at
      then cache
      else insert (uppercase callsign)
          (record { position = position; symbol = symbol; heard_at = heard_at }) cache

  unfoldable pub snapshot : PositionCache f64 → List (PositionEntry f64)
  snapshot cache =
      map
        (λ (e : Bytes × CachedPosition f64). record {
          callsign = e.0;
          position = e.1.position;
          symbol = e.1.symbol;
          heard_at = e.1.heard_at;
        })
        cache

  unfoldable pub len : PositionCache f64 → ℕ
  len cache = length cache

  unfoldable pub evict_older_than : ℤ → PositionCache f64 → PositionCache f64 × ℕ
  evict_older_than before cache =
      let kept = keep (λ (e : Bytes × CachedPosition f64). not (less e.1.heard_at before)) cache in
      (kept, length cache - length kept)

  unfoldable pub position_of : PositionCache f64 → Bytes → Option (Position f64)
  position_of cache callsign =
      Option.map (λ (c : CachedPosition f64). c.position) (get (uppercase callsign) cache)

-- The first character of each text of a row.
unfoldable pub symbol_from : {f64 : Type 0} → StationPosition f64 → Option Symbol
symbol_from row = do
  table ← row.symbol_table >>= λ text. get_elem? (chars text) 0
  code ← row.symbol_code >>= λ text. get_elem? (chars text) 0
  some (record { table = table; code = code })

module _ (floats : Floats) where
  -- The loop of `load_positions`: a row out of range is left out.
  unfoldable pub load_rows :
      List (StationPosition floats.f64) → PositionCache floats.f64 → PositionCache floats.f64
  load_rows [] cache = cache
  load_rows (row ∷ rest) cache = load_rows rest (elim (new floats row.latitude row.longitude) [
    | none ↦ cache
    | some position ↦ record_position row.callsign position (symbol_from row) row.heard_at cache
  ])

  unfoldable pub load_positions : List (StationPosition floats.f64) → PositionCache floats.f64
  load_positions rows = load_rows rows []

  -- What the ingest path asks of a position store.
  abbrev pub position_cache : PositionStore floats.f64
  position_cache = record {
    store = PositionCache floats.f64;
    record_position = λ callsign position symbol heard_at cache.
        record_position callsign position symbol (pos heard_at) cache;
    position_of = position_of;
  }
