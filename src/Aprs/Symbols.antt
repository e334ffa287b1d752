-- ===== src/Aprs/Symbols.antt =====
-- The symbol of a report (`Symbol` of crates/aprsr-core/src/aprs/position.rs): its two characters,
-- each as the bytes of its UTF-8 encoding.
use aprsr.Prelude.{[], ◌∷◌, Bool, false, ◌&&◌, ◌||◌, leb, ◌==◌}
use aprsr.Bytes.{Bytes, codes, str_eq}

pub record Symbol : Type 0 where
  pub table : Bytes
  pub code : Bytes

unfoldable pub is_weather : Symbol → Bool
is_weather symbol = str_eq symbol.code (codes "_")

unfoldable pub is_table : Bytes → Bool
is_table (c ∷ []) = c == b'/' || c == b'\\' || leb b'0' c && leb c b'9' || leb b'A' c && leb c b'Z'
is_table _ = false

unfoldable pub has_valid_table : Symbol → Bool
has_valid_table symbol = is_table symbol.table
