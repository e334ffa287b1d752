-- ===== src/Aprs/Encodings/Compressed.antt =====
-- A compressed report is read back (`parse_compressed` and `base91` of
-- crates/aprsr-core/src/aprs/position.rs).
use aprsr.Prelude.{
  ℕ, ◌↔◌, none, ◌+◌, ◌*◌, ◌/◌, ◌%◌, ◌^◌, ◌≤◌, ◌<◌, [], ◌∷◌, ◌++◌, some, true, ◌≡◌, refl, ◌∙◌, arith,
  leb, length,
}
use aprsr.Bytes.{Bytes}
use aprsr.Prelude.Int.{pos}
use aprsr.Geo.{Floats}
use aprsr.Aprs.Encodings.Print.{IsTable, IsPlace, ascii_char, table_char, new-IsPlace}
use aprsr.Aprs.Symbols.{is_table, has_valid_table}
use aprsr.Aprs.Encodings.{
  slice, base91, base91_onto, char_of, number, new, with_symbol, parse_compressed,
}

-- Four digits in base 91, most significant first.
abbrev pub in_base91 : ℕ → Bytes
in_base91 n = (33 + n / 753571) ∷ (33 + n / 8281 % 91) ∷ (33 + n / 91 % 91) ∷ (33 + n % 91) ∷ []

-- One digit that does not overflow.
base91_onto-digit :
    (value d next : ℕ) (rest : Bytes)
    → d ≤ 91
    → value * 91 + d ≡ next
    → next < 2 ^ 32
    → base91_onto value ((33 + d) ∷ rest) ≡ base91_onto next rest
unfolding base91_onto
base91_onto-digit value d next rest h e k = ground arith

pub base91-in_base91 : (n : ℕ) → n < 91 ^ 4 → base91 (in_base91 n) ≡ some n
unfolding base91 base91_onto
base91-in_base91 n h =
    let last : Bytes = (33 + n % 91) ∷ [] in
    let third : Bytes = (33 + n / 91 % 91) ∷ last in
    let second : Bytes = (33 + n / 8281 % 91) ∷ third in
    base91_onto-digit 0 (n / 753571) (n / 753571) second (omega arith) (omega arith) (omega arith)
    ∙ base91_onto-digit (n / 753571) (n / 8281 % 91) (n / 8281) third (omega arith) (omega arith)
        (omega arith)
    ∙ base91_onto-digit (n / 8281) (n / 91 % 91) (n / 91) last (omega arith) (omega arith)
        (omega arith)
    ∙ base91_onto-digit (n / 91) (n % 91) n [] (omega arith) (omega arith) (omega arith)

-- `/YYYYXXXX$`, and the three bytes of course, speed and type that are not read.
abbrev pub compressed : (table code lat lon : ℕ) → Bytes → Bytes
compressed table code lat lon rest = table ∷ (in_base91 lat ++ (in_base91 lon ++ (code ∷ rest)))

module _ (floats : Floats) where
  parse_compressed_read :
      (table code lat lon x y z : ℕ) (rest : Bytes)
      → lat < 91 ^ 4
      → lon < 91 ^ 4
      → is_table (char_of table) ≡ true
      → parse_compressed floats (compressed table code lat lon (x ∷ y ∷ z ∷ rest))
        ≡ with_symbol floats
            (record { table = char_of table; code = char_of code })
            (new floats
              (floats.sub
                (number floats 90)
                (floats.div (number floats lat) (number floats 380926)))
              (floats.add
                (floats.neg (number floats 180))
                (floats.div (number floats lon) (number floats 190463))))
  unfolding parse_compressed slice has_valid_table
  parse_compressed_read table code lat lon x y z rest a b t =
      let fits : (k : ℕ)
          → k ≤ 13
          → leb k (length (compressed table code lat lon (x ∷ y ∷ z ∷ rest))) ≡ true =
        λ k h. ground arith in
      rw
        (
          fits 13 (omega arith),
          t,
          fits 5 (omega arith),
          base91-in_base91 lat a,
          fits 9 (omega arith),
          base91-in_base91 lon b,
        )
        refl

  -- A compressed report is read from its text, whatever follows its thirteen bytes: its two numbers are
  -- below 91 ^ 4 and written as four digits in base 91, its symbol table is `/`, a backslash, a digit or
  -- a capital letter, and its symbol code is an ASCII byte. The latitude is 90 less the first number over
  -- 380926, the longitude -180 and the second over 190463. The answer is the place there under that
  -- symbol, exactly if both coordinates are finite and lie in -90..90 and -180..180, and else nothing.
  pub parse_compressed-compressed :
      (table code lat lon x y z : ℕ) (rest : Bytes)
      → lat < 91 ^ 4
      → lon < 91 ^ 4
      → IsTable table
      → code < 128
      → let answer = parse_compressed floats (compressed table code lat lon (x ∷ y ∷ z ∷ rest)) in
        let latitude =
          floats.sub
            (floats.of_int (pos 90))
            (floats.div (floats.of_int (pos lat)) (floats.of_int (pos 380926))) in
        let longitude =
          floats.add
            (floats.neg (floats.of_int (pos 180)))
            (floats.div (floats.of_int (pos lon)) (floats.of_int (pos 190463))) in
        ((answer
            ≡ some (
              record { latitude = latitude; longitude = longitude },
              record { table = table ∷ []; code = code ∷ [] },
            ))
          ↔ IsPlace floats latitude longitude)
        × ((answer ≡ none) ↔ ¬ IsPlace floats latitude longitude)
  parse_compressed-compressed table code lat lon x y z rest a b t c =
      rw
        (
          parse_compressed_read table code lat lon x y z rest a b (table_char table t).1,
          (table_char table t).0,
          ascii_char code c,
        )
        (new-IsPlace floats (record { table = table ∷ []; code = code ∷ [] }) _ _)
