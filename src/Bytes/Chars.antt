-- ===== src/Bytes/Chars.antt =====
-- `str::chars`, `char::is_whitespace`, `to_ascii_lowercase` of a text, and `str::lines`: a character is
-- the bytes of its UTF-8 encoding.
use aprsr.Prelude.{
  ℕ, List, [], ◌∷◌, ◌++◌, Option, none, some, Bool, false, ◌&&◌, leb, ◌==◌, if◌then◌else◌, map,
}
use aprsr.Bytes.Case.{to_ascii_lowercase}
use aprsr.Bytes.Find.{split, strip_suffix}
use aprsr.Bytes.Trim.{space1, space2, space3, trim_end}

-- The second or a later byte of a character.
abbrev pub is_continuation : ℕ → Bool
is_continuation byte = leb 0x80 byte && leb byte 0xbf

-- A byte before the characters that follow it: it joins bytes that continue a character.
unfoldable pub onto_char : ℕ → List (List ℕ) → List (List ℕ)
onto_char c [] = (c ∷ []) ∷ []
onto_char c ([] ∷ cs) = (c ∷ []) ∷ cs
onto_char c ((d ∷ ds) ∷ cs) =
    if is_continuation d then (c ∷ d ∷ ds) ∷ cs else (c ∷ []) ∷ (d ∷ ds) ∷ cs

unfoldable pub chars : List ℕ → List (List ℕ)
chars [] = []
chars (c ∷ s) = onto_char c (chars s)

unfoldable pub is_whitespace : List ℕ → Bool
unfolding space1 space2 space3
is_whitespace (a ∷ []) = space1 a
is_whitespace (b ∷ a ∷ []) = space2 a b
is_whitespace (c ∷ b ∷ a ∷ []) = space3 a b c
is_whitespace _ = false

unfoldable pub lowercase : List ℕ → List ℕ
lowercase s = map to_ascii_lowercase s

-- A line that ended in a line feed, without the carriage return before it.
unfoldable pub without_return : List ℕ → List ℕ
without_return s = elim (strip_suffix b'\r' s) [ none ↦ s | some t ↦ t ]

-- The pieces between line feeds: the last is a line unless it is empty.
unfoldable pub lines_of : List (List ℕ) → List (List ℕ)
lines_of [] = []
lines_of ([] ∷ []) = []
lines_of ((c ∷ s) ∷ []) = (c ∷ s) ∷ []
lines_of (p ∷ q ∷ ps) = without_return p ∷ lines_of (q ∷ ps)

unfoldable pub lines : List ℕ → List (List ℕ)
lines text = lines_of (split b'\n' text)

-- The characters of a text behind the white space that it begins with.
unfoldable pub skip_whitespace : List (List ℕ) → List (List ℕ)
skip_whitespace [] = []
skip_whitespace (c ∷ cs) = let rest = skip_whitespace cs in if is_whitespace c then rest else c ∷ cs

unfoldable pub join_chars : List (List ℕ) → List ℕ
join_chars [] = []
join_chars (c ∷ cs) = c ++ join_chars cs

-- `str::trim`
unfoldable pub trim : List ℕ → List ℕ
trim s = join_chars (skip_whitespace (chars (trim_end s)))

-- `str::strip_prefix`
unfoldable pub strip_prefix : List ℕ → List ℕ → Option (List ℕ)
strip_prefix [] s = some s
strip_prefix (p ∷ ps) [] = none
strip_prefix (p ∷ ps) (c ∷ s) = let rest = strip_prefix ps s in if c == p then rest else none
