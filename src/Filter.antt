-- ===== src/Filter.antt =====
-- The filter language of the server's client ports (crates/aprsr-core/src/filter/mod.rs): the types.
pub mod Parse
pub mod Matches
pub mod Render
pub mod Chain
pub mod CallList
pub mod Bounds
pub mod Limits
use aprsr.Prelude.{ℕ, List, Option, Bool}
use aprsr.Bytes.{Bytes}
use aprsr.Aprs.{PacketType}

abbrev pub max_filters : ℕ
max_filters = 64

abbrev pub max_list_entries : ℕ
max_list_entries = 64

abbrev pub max_area_filters : ℕ
max_area_filters = 9

pub data FilterError (f64 : Type 0) : Type 0 where
  empty too_many_filters too_many_area_filters : FilterError f64
  too_many_entries unknown_type empty_argument_list unknown_type_letter : Bytes → FilterError f64
  wrong_argument_count : Bytes → Bytes → ℕ → FilterError f64
  not_a_number : Bytes → Bytes → FilterError f64
  latitude_out_of_range longitude_out_of_range distance_out_of_range : f64 → FilterError f64

pub data Filter (f64 : Type 0) : Type 0 where
  range : f64 → f64 → f64 → Filter f64
  prefix budlist object : List Bytes → Filter f64
  of_type : PacketType → Option (Bytes × f64) → Filter f64
  symbol : Bytes → Bytes → Bytes → Filter f64
  digipeater : List Bytes → Filter f64
  area : f64 → f64 → f64 → f64 → Filter f64
  entry group unproto : List Bytes → Filter f64
  q_construct : Bytes → Bool → Filter f64
  my_range : f64 → Filter f64
  friend_range : Bytes → f64 → Filter f64

pub record FilterEntry (f64 : Type 0) : Type 0 where
  pub negated : Bool
  pub filter : Filter f64

pub record FilterChain (f64 : Type 0) : Type 0 where
  pub entries : List (FilterEntry f64)
