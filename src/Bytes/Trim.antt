-- ===== src/Bytes/Trim.antt =====
-- `trim_end`, `split_ascii_whitespace` and `join(" ")`.
use mathlib.Core.List.{reverse-append, reverse-reverse}
use aprsr.Prelude.{
  ℕ, List, [], ◌∷◌, ◌++◌, Bool, ◌&&◌, ◌||◌, leb, ◌==◌, if◌then◌else◌, reverse, ◌≡◌, refl, ap, ◌∙◌,
  true, arith,
}

-- space, tab, line feed, form feed, carriage return
abbrev pub is_ascii_whitespace : ℕ → Bool
is_ascii_whitespace c = c == 0x20 || c == 0x09 || c == 0x0a || c == 0x0c || c == 0x0d

-- `char::is_whitespace` on the UTF-8 forms of one, two and three bytes, last byte first.
unfoldable pub space1 : ℕ → Bool
space1 a = a == 0x20 || leb 0x09 a && leb a 0x0d

unfoldable pub space2 : ℕ → ℕ → Bool
space2 a b = b == 0xc2 && (a == 0x85 || a == 0xa0)

unfoldable pub space3 : ℕ → ℕ → ℕ → Bool
space3 a b c =
    c == 0xe1 && b == 0x9a && a == 0x80
    || c == 0xe2 && b == 0x80 && (leb 0x80 a && leb a 0x8a || a == 0xa8 || a == 0xa9 || a == 0xaf)
    || c == 0xe2 && b == 0x81 && a == 0x9f
    || c == 0xe3 && b == 0x80 && a == 0x80

-- A text whose bytes are reversed, without the white space that it begins with.
trim_reversed : List ℕ → List ℕ
trim_reversed [] = []
trim_reversed (a ∷ []) = if space1 a then [] else a ∷ []
trim_reversed (a ∷ b ∷ []) =
    let rest = trim_reversed (b ∷ []) in
    if space1 a then rest else if space2 a b then [] else a ∷ b ∷ []
trim_reversed (a ∷ b ∷ c ∷ s) =
    let rest1 = trim_reversed (b ∷ c ∷ s) in
    let rest2 = trim_reversed (c ∷ s) in
    let rest3 = trim_reversed s in
    if space1 a
    then rest1
    else if space2 a b
    then rest2
    else if space3 a b c
    then rest3
    else a ∷ b ∷ c ∷ s

unfoldable pub trim_end : List ℕ → List ℕ
unfolding trim_reversed space1 space2 space3
trim_end s = reverse (trim_reversed (reverse s))

trim_reversed-space : (s : List ℕ) → trim_reversed (0x20 ∷ s) ≡ trim_reversed s
unfolding trim_reversed space1
trim_reversed-space [] = refl
trim_reversed-space (b ∷ []) = refl
trim_reversed-space (b ∷ c ∷ s) = refl

-- One space more at the end is trimmed.
pub trim_end-space : (s : List ℕ) → trim_end (s ++ 0x20 ∷ []) ≡ trim_end s
unfolding trim_end
trim_end-space s = rw (reverse-append, trim_reversed-space)

-- A visible ASCII character, or DEL.
abbrev pub ends_text : ℕ → Bool
ends_text c = leb 0x21 c && leb c 0x7f

trim_reversed-kept : (c : ℕ) (t : List ℕ) → ends_text c ≡ true → trim_reversed (c ∷ t) ≡ c ∷ t
unfolding trim_reversed space1 space2 space3
trim_reversed-kept c [] h = ground arith
trim_reversed-kept c (b ∷ []) h = ground arith
trim_reversed-kept c (b ∷ d ∷ t) h = ground arith

pub trim_end-kept : (s : List ℕ) (c : ℕ) → ends_text c ≡ true → trim_end (s ++ c ∷ []) ≡ s ++ c ∷ []
unfolding trim_end
trim_end-kept s c h =
    rw (reverse-append s (c ∷ []), trim_reversed-kept c (reverse s) h)
      (reverse-append (c ∷ []) (reverse s) ∙ ap (λ t. t ++ c ∷ []) (reverse-reverse s))

abbrev word_done : List ℕ → List (List ℕ) → List (List ℕ)
word_done [] ws = ws
word_done (c ∷ w) ws = reverse (c ∷ w) ∷ ws

-- `word` holds the bytes of the current word, last byte first.
words : List ℕ → List ℕ → List (List ℕ)
words word [] = word_done word []
words word (c ∷ s) =
    let ended = word_done word (words [] s) in
    let longer = words (c ∷ word) s in if is_ascii_whitespace c then ended else longer

unfoldable pub split_ascii_whitespace : List ℕ → List (List ℕ)
unfolding words
split_ascii_whitespace s = words [] s

unfoldable pub join_spaces : List (List ℕ) → List ℕ
join_spaces [] = []
join_spaces (w ∷ []) = w
join_spaces (w ∷ v ∷ ws) = w ++ 0x20 ∷ join_spaces (v ∷ ws)
