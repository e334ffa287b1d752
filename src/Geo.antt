-- ===== src/Geo.antt =====
-- Positions and the area test of the filters (crates/aprsr-core/src/geo.rs and the type of
-- crates/aprsr-core/src/aprs/position.rs). The 64-bit floats are an interface: a carrier with the
-- comparisons and the arithmetic of IEEE 754, Rust's reading and printing of them, and the haversine
-- distance of geo.rs, whose trigonometry is outside the development.
use aprsr.Prelude.{Option, Bool, false, ◌&&◌, ◌||◌, if◌then◌else◌}
use aprsr.Prelude.Int.{ℤ}
use aprsr.Bytes.{Bytes}

pub record Floats : Type 1 where
  pub f64 : Type 0
  pub of_int : ℤ → f64
  pub parse_f64 : Bytes → Option f64
  pub show_f64 : f64 → Bytes
  pub is_finite : f64 → Bool
  pub le : f64 → f64 → Bool
  pub lt : f64 → f64 → Bool
  pub add : f64 → f64 → f64
  pub sub : f64 → f64 → f64
  pub mul : f64 → f64 → f64
  pub div : f64 → f64 → f64
  pub neg : f64 → f64
  pub great_circle_distance_km : f64 → f64 → f64 → f64 → f64

pub record Position (f64 : Type 0) : Type 0 where
  pub latitude : f64
  pub longitude : f64

module _ (floats : Floats) where
  -- The comparisons `>` and `>=` are `<` and `<=` turned around.
  unfoldable pub within_area : (lat lon lat_north lon_west lat_south lon_east : floats.f64) → Bool
  within_area lat lon lat_north lon_west lat_south lon_east =
      if floats.lt lat_north lat || floats.lt lat lat_south
      then false
      else if floats.le lon_west lon_east
      then floats.le lon_west lon && floats.le lon lon_east
      else floats.le lon_west lon || floats.le lon lon_east
