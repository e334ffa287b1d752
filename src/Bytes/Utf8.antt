-- ===== src/Bytes/Utf8.antt =====
-- `std::str::from_utf8`, as a test.
use aprsr.Prelude.{ℕ, zero, suc, List, [], ◌∷◌, Bool, false, ◌&&◌, leb, ltb, ◌==◌, if◌then◌else◌}

-- Whether `left` more bytes follow, the first of them between `low` and `high`, and then
-- well-formed characters.
unfoldable pub utf8_from : ℕ → ℕ → ℕ → List ℕ → Bool
utf8_from left low high [] = left == 0
utf8_from (suc left) low high (b ∷ s) =
    let rest = utf8_from left 0x80 0xbf s in leb low b && leb b high && rest
utf8_from zero low high (b ∷ s) =
    let one = utf8_from 0 0 0 s in
    let two = utf8_from 1 0x80 0xbf s in
    let three =
      utf8_from 2 (if b == 0xe0 then 0xa0 else 0x80) (if b == 0xed then 0x9f else 0xbf) s in
    let four =
      utf8_from 3 (if b == 0xf0 then 0x90 else 0x80) (if b == 0xf4 then 0x8f else 0xbf) s in
    if ltb b 0x80
    then one
    else if ltb b 0xc2
    then false
    else if ltb b 0xe0
    then two
    else if ltb b 0xf0
    then three
    else if ltb b 0xf5
    then four
    else false

unfoldable pub is_utf8 : List ℕ → Bool
is_utf8 s = utf8_from 0 0 0 s
