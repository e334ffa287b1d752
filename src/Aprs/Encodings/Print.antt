-- ===== src/Aprs/Encodings/Print.antt =====
-- A report written as the protocol reference has it is read back (`parse_uncompressed` of
-- crates/aprsr-core/src/aprs/position.rs).
use aprsr.Prelude.{
  ℕ, ◌&&◌, ◌↔◌, ◌⊎◌, Option, none, inl, inr, Bool-cases, ◌≤◌, ◌<◌, [], ◌∷◌, some, Bool, true, false,
  ◌≡◌, refl, arith,
}
use aprsr.Bytes.{Bytes}
use aprsr.Prelude.Int.{pos}
use aprsr.Geo.{Floats, Position}
use aprsr.Aprs.Symbols.{Symbol, is_table, has_valid_table}
use aprsr.Aprs.Encodings.{
  slice, char_of, new, decimal_degrees, signed, within, with_symbol, parse_uncompressed,
}
use aprsr.Aprs.Encodings.Written.{
  minutes_value, IsAngle, written, Angle, Report, two_digits-written, three_digits-written,
  two_digits_ambiguous-written, either_of-written, leb-written,
}

-- The tables of symbols: the primary one, the alternate one, and the overlays.
abbrev pub IsTable : ℕ → Type 0
IsTable t = (t ≡ b'/') ⊎ (t ≡ b'\\') ⊎ ((b'0' ≤ t) × (t ≤ b'9')) ⊎ ((b'A' ≤ t) × (t ≤ b'Z'))

pub ascii_char : (c : ℕ) → c < 128 → char_of c ≡ c ∷ []
unfolding char_of
ascii_char c h = ground arith

pub table_char : (t : ℕ) → IsTable t → (char_of t ≡ t ∷ []) × (is_table (char_of t) ≡ true)
unfolding is_table char_of
table_char t h = (ground (arith, h), ground (arith, h))

module _ (floats : Floats) where
  open floats use {f64, of_int, add, div, neg, is_finite, le}

  -- The fraction of a degree, and the degrees of an angle: sixty minutes, of a hundred parts each.
  abbrev pub angle_of : Angle → f64
  angle_of a = add (of_int (pos a.degrees)) (
      div
        (add (of_int (pos (minutes_value a.minutes)))
          (div (of_int (pos (minutes_value a.hundredths))) (of_int (pos 100))))
        (of_int (pos 60)))

  -- North and east are positive, south and west negative.
  pub data Hemisphere : Bool → f64 → f64 → Type 0 where
    positive : {x : f64} → Hemisphere true x x
    negative : {x : f64} → Hemisphere false x (neg x)

  -- A pair of coordinates that is a place on earth.
  pub record IsPlace (latitude longitude : f64) : Type 0 where
    pub finite_latitude : is_finite latitude ≡ true
    pub finite_longitude : is_finite longitude ≡ true
    pub south_bound : le (neg (of_int (pos 90))) latitude ≡ true
    pub north_bound : le latitude (of_int (pos 90)) ≡ true
    pub west_bound : le (neg (of_int (pos 180))) longitude ≡ true
    pub east_bound : le longitude (of_int (pos 180)) ≡ true

  -- The answer to a report: where it is a place, that place under its symbol, and nothing elsewhere.
  pub record Reported (r : Report) (answer : Option (Position f64 × Symbol)) : Type 0 where
    pub latitude : f64
    pub longitude : f64
    pub latitude_of : Hemisphere r.north (angle_of r.latitude) latitude
    pub longitude_of : Hemisphere r.east (angle_of r.longitude) longitude
    pub answers :
        (answer
          ≡ some (
            record { latitude = latitude; longitude = longitude },
            record { table = r.table ∷ []; code = r.code ∷ [] },
          ))
        ↔ IsPlace latitude longitude
    pub refuses : (answer ≡ none) ↔ ¬ IsPlace latitude longitude

  parse_uncompressed_read :
      (r : Report) (rest : Bytes)
      → IsAngle 100 r.latitude
      → IsAngle 1000 r.longitude
      → is_table (char_of r.table) ≡ true
      → parse_uncompressed floats (written r rest)
        ≡ with_symbol floats
            (record { table = char_of r.table; code = char_of r.code })
            (new floats
              (signed floats r.north (angle_of r.latitude))
              (signed floats r.east (angle_of r.longitude)))
  unfolding parse_uncompressed slice has_valid_table decimal_degrees
  parse_uncompressed_read r rest a b t =
      rw
        (
          leb-written 19 r rest (omega arith),
          leb-written 2 r rest (omega arith),
          two_digits-written r.latitude.degrees a.0,
          leb-written 4 r rest (omega arith),
          two_digits_ambiguous-written r.latitude.minutes a.1,
          leb-written 7 r rest (omega arith),
          two_digits_ambiguous-written r.latitude.hundredths a.2,
          either_of-written b'N' b'S' r.north refl,
          leb-written 12 r rest (omega arith),
          three_digits-written r.longitude.degrees b.0,
          leb-written 14 r rest (omega arith),
          two_digits_ambiguous-written r.longitude.minutes b.1,
          leb-written 17 r rest (omega arith),
          two_digits_ambiguous-written r.longitude.hundredths b.2,
          either_of-written b'E' b'W' r.east refl,
          t,
        )
        refl

  signed-Hemisphere : (first : Bool) (x : f64) → Hemisphere first x (signed floats first x)
  unfolding signed
  signed-Hemisphere true x = positive
  signed-Hemisphere false x = negative

  place_iff :
      (lat lon : f64)
      → ((is_finite lat && is_finite lon && within floats 90 lat && within floats 180 lon) ≡ true)
        ↔ IsPlace lat lon
  place_iff lat lon = (
    λ h. record {
      finite_latitude = ground (arith, h);
      finite_longitude = ground (arith, h);
      south_bound = ground (arith, h);
      north_bound = ground (arith, h);
      west_bound = ground (arith, h);
      east_bound = ground (arith, h);
    },
    λ p.
        rw
          (
            p.finite_latitude, p.finite_longitude, p.south_bound, p.north_bound, p.west_bound,
            p.east_bound,
          )
          refl,
  )

  -- What is made of two coordinates.
  pub new-IsPlace :
      (symbol : Symbol) (lat lon : f64)
      → let answer = with_symbol floats symbol (new floats lat lon) in
        ((answer ≡ some (record { latitude = lat; longitude = lon }, symbol)) ↔ IsPlace lat lon)
        × ((answer ≡ none) ↔ ¬ IsPlace lat lon)
  unfolding new with_symbol
  new-IsPlace symbol lat lon =
      elim (Bool-cases
        (is_finite lat && is_finite lon && within floats 90 lat && within floats 180 lon)) [
          | inl there ↦
              let place = (place_iff lat lon).0 there in
              rw there ((λ _. place, λ _. refl), (λ e. absurd (cc e), λ no. absurd (no place)))
          | inr elsewhere ↦
              let no : ¬ IsPlace lat lon = λ p. cc ((place_iff lat lon).1 p, elsewhere) in
              rw elsewhere ((λ e. absurd (cc e), λ p. absurd (no p)), (λ _. no, λ _. refl))
        ]

  -- A report is read from its text, whatever follows: its latitude has fewer than 100 degrees and its
  -- longitude fewer than 1000, its minutes and hundredths of a minute are digits or blanks, its symbol
  -- table is `/`, a backslash, a digit or a capital letter, and its symbol code is an ASCII byte. The
  -- coordinates are degrees + (minutes + hundredths / 100) / 60 in the order of these operations, with a
  -- blank counted as 0, negated in the south and in the west. The answer is the place there under that
  -- symbol, exactly if both coordinates are finite and lie in -90..90 and -180..180, and else nothing.
  pub parse_uncompressed-written :
      (r : Report) (rest : Bytes)
      → IsAngle 100 r.latitude
      → IsAngle 1000 r.longitude
      → IsTable r.table
      → r.code < 128
      → Reported r (parse_uncompressed floats (written r rest))
  parse_uncompressed-written r rest a b t c =
      let lat = signed floats r.north (angle_of r.latitude) in
      let lon = signed floats r.east (angle_of r.longitude) in
      let place = new-IsPlace (record { table = r.table ∷ []; code = r.code ∷ [] }) lat lon in
      let read = parse_uncompressed_read r rest a b (table_char r.table t).1 in
      rw (read, (table_char r.table t).0, ascii_char r.code c)
        (record {
          latitude = lat;
          longitude = lon;
          latitude_of = signed-Hemisphere r.north (angle_of r.latitude);
          longitude_of = signed-Hemisphere r.east (angle_of r.longitude);
          answers = place.0;
          refuses = place.1;
        })
