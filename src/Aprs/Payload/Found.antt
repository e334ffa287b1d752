-- ===== src/Aprs/Payload/Found.antt =====
-- Every position that a parser of crates/aprsr-core/src/aprs/position.rs finds went through
-- `Position::new`.
use aprsr.Prelude.{Option, none, some, Bool, true, false, if◌then◌else◌, ◌≡◌, refl, arith}
use aprsr.Prelude.Options.{◌>>=◌}
use aprsr.Bytes.{Bytes}
use aprsr.Geo.{Floats, Position}
use aprsr.Aprs.Symbols.{Symbol}
use aprsr.Aprs.Encodings.{
  within, new, with_symbol, parse_uncompressed, parse_compressed, mice_rest, parse_mice,
}

module _ (floats : Floats) where
  -- A finite latitude of at most 90 degrees and a finite longitude of at most 180.
  abbrev pub IsOnEarth : Option (Position floats.f64) → Type 0
  IsOnEarth none = Unit {0}
  IsOnEarth (some p) =
      (floats.is_finite p.latitude ≡ true)
      × (floats.is_finite p.longitude ≡ true)
      × (within floats 90 p.latitude ≡ true)
      × (within floats 180 p.longitude ≡ true)

  -- The result of a position parser: nothing, or a position on earth.
  pub data Found : Option (Position floats.f64 × Symbol) → Type 0 where
    nothing : Found none
    located : (p : Position floats.f64) (s : Symbol) → IsOnEarth (some p) → Found (some (p, s))

  if-Found :
      (b : Bool) (p : Position floats.f64) (s : Symbol)
      → (b ≡ true → IsOnEarth (some p))
      → Found (with_symbol floats s (if b then some p else none))
  unfolding with_symbol
  if-Found true p s h = located p s (h refl)
  if-Found false p s h = nothing

  with_symbol-Found :
      (symbol : Symbol) (lat lon : floats.f64)
      → Found (with_symbol floats symbol (new floats lat lon))
  unfolding new
  with_symbol-Found symbol lat lon = if-Found _ _ symbol (λ h. ground arith)

  bind-Found {ℓ} :
      {A : Type ℓ} (m : Option A) (next : A → Option (Position floats.f64 × Symbol))
      → ((a : A) → Found (next a))
      → Found (m >>= next)
  bind-Found none next h = nothing
  bind-Found (some a) next h = h a

  pub parse_compressed-Found : (b : Bytes) → Found (parse_compressed floats b)
  unfolding parse_compressed
  parse_compressed-Found b = search (bind-Found, with_symbol-Found) depth 24 fits 4000

  pub parse_uncompressed-Found : (b : Bytes) → Found (parse_uncompressed floats b)
  unfolding parse_uncompressed
  parse_uncompressed-Found b = search (bind-Found, with_symbol-Found) depth 24 fits 4000

  mice_rest-Found :
      (north offset west : Bool) (lat : floats.f64) (b : Bytes)
      → Found (mice_rest floats north offset west lat b)
  unfolding mice_rest
  mice_rest-Found north offset west lat b =
      search (bind-Found, with_symbol-Found) depth 24 fits 4000

  pub parse_mice-Found : (d b : Bytes) → Found (parse_mice floats d b)
  unfolding parse_mice
  parse_mice-Found d b = search (bind-Found, mice_rest-Found) depth 16
