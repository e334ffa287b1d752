-- ===== src/Bytes.antt =====
-- The operations of Rust's `str` and `u8` that the program uses, over the UTF-8 bytes of a text.
-- Every index that the program slices at stands at an ASCII byte or just behind one, which is a
-- character boundary of UTF-8, so a slice by bytes is the slice that `str::get` returns.
mod Case
mod Find
mod Trim
mod Utf8
mod Chars
mod Split
pub use Case.*
unfoldable pub use Case.{eq_ignore_ascii_case}
pub use Find.*
unfoldable pub use Find.{find, strip_suffix, split, glue}
pub use Trim.*
unfoldable pub use Trim.{trim_end, space1, space2, space3, split_ascii_whitespace, join_spaces}
pub use Utf8.*
unfoldable pub use Utf8.{utf8_from, is_utf8}
pub use Chars.*
pub use Split.*
unfoldable pub use Chars.{
  onto_char, chars, is_whitespace, lowercase, without_return, lines_of, lines, skip_whitespace,
  join_chars, trim, strip_prefix,
}
use Prim.Native.Char.{code}
use Prim.Native.String.{String}
use aprsr.Prelude.{
  ℕ, ◌+◌, ◌*◌, ◌%◌, List, [], ◌∷◌, Option, none, some, Bool, true, false, ◌&&◌, ltb, leb, ◌==◌,
  if◌then◌else◌, length, take, drop, get_or, ◌≡◌, arith, ◌↔◌, ◌++◌, append_assoc, length-append,
  take-length_append, drop-length_append,
}

abbrev pub Bytes : Type 0
Bytes = List ℕ

-- The code points of a literal, which are its bytes when it is ASCII.
abbrev pub codes : String → Bytes
codes String.[] = []
codes (String.◌∷◌ c s) = code c ∷ codes s

-- `s.get(..i)` and `s.get(i..)`.
unfoldable pub get_to : ℕ → Bytes → Option Bytes
get_to i s = if leb i (length s) then some (take i s) else none

unfoldable pub get_from : ℕ → Bytes → Option Bytes
get_from i s = if leb i (length s) then some (drop i s) else none

abbrev pub unwrap_or {ℓ} : {A : Type ℓ} → Option A → A → A
unwrap_or none d = d
unwrap_or (some a) d = a

pub get_to-append : (p r : Bytes) → get_to (length p) (p ++ r) ≡ some p
unfolding get_to
get_to-append p r = ground (arith, length-append p r, take-length_append p r)

pub get_from-append :
    (p : Bytes) (c : ℕ) (r : Bytes) → get_from (length p + 1) (p ++ c ∷ r) ≡ some r
unfolding get_from
get_from-append p c r =
    let e : (p ++ c ∷ []) ++ r ≡ p ++ c ∷ r = append_assoc p (c ∷ []) r in
    let n : length p + 1 ≡ length (p ++ c ∷ []) = omega (arith, length-append p (c ∷ [])) in
    rw (n, ← e) (ground (arith, length-append (p ++ c ∷ []) r, drop-length_append (p ++ c ∷ []) r))

pub get_from-length : (p r : Bytes) → get_from (length p) (p ++ r) ≡ some r
unfolding get_from
get_from-length p r = ground (arith, length-append p r, drop-length_append p r)

-- The first character of a text in UTF-8.
unfoldable pub first_char : Bytes → ℕ
first_char s =
    let c0 = get_or s 0 0 in
    let c1 = get_or s 1 0 % 64 in
    let c2 = get_or s 2 0 % 64 in
    let c3 = get_or s 3 0 % 64 in
    if ltb c0 0x80
    then c0
    else if ltb c0 0xe0
    then c0 % 32 * 64 + c1
    else if ltb c0 0xf0
    then (c0 % 16 * 64 + c1) * 64 + c2
    else ((c0 % 8 * 64 + c1) * 64 + c2) * 64 + c3

-- `==` on `str`.
unfoldable pub str_eq : Bytes → Bytes → Bool
str_eq [] [] = true
str_eq (a ∷ s) (b ∷ t) = (a == b) && str_eq s t
str_eq _ _ = false

pub str_eq_iff : (s t : Bytes) → (str_eq s t ≡ true) ↔ (s ≡ t)
unfolding str_eq
str_eq_iff [] [] = ground arith
str_eq_iff [] (b ∷ t) = ground arith
str_eq_iff (a ∷ s) [] = ground arith
str_eq_iff (a ∷ s) (b ∷ t) = ground (arith, str_eq_iff s t)
