-- ===== src/Bytes/Case.antt =====
-- ASCII case of bytes and texts: `to_ascii_uppercase`, `to_ascii_lowercase`,
-- `eq_ignore_ascii_case`.
use aprsr.Prelude.{
  ℕ, ◌+◌, ◌-◌, List, [], ◌∷◌, Bool, true, false, ◌&&◌, leb, ◌==◌, if◌then◌else◌, length, map, ◌≡◌,
  refl, ap, arith, sym, ◌∙◌, drop, get_or, length-map,
}

abbrev pub to_ascii_uppercase : ℕ → ℕ
to_ascii_uppercase c = if leb b'a' c && leb c b'z' then c - 32 else c

abbrev pub to_ascii_lowercase : ℕ → ℕ
to_ascii_lowercase c = if leb b'A' c && leb c b'Z' then c + 32 else c

pub lower-upper : (c : ℕ) → to_ascii_lowercase (to_ascii_uppercase c) ≡ to_ascii_lowercase c
lower-upper c = ground arith

pub upper-upper : (c : ℕ) → to_ascii_uppercase (to_ascii_uppercase c) ≡ to_ascii_uppercase c
upper-upper c = ground arith

unfoldable pub eq_ignore_ascii_case : List ℕ → List ℕ → Bool
eq_ignore_ascii_case [] [] = true
eq_ignore_ascii_case (a ∷ s) (b ∷ t) =
    (to_ascii_lowercase a == to_ascii_lowercase b) && eq_ignore_ascii_case s t
eq_ignore_ascii_case _ _ = false

-- The texts agree once both are in lower case.
abbrev pub SameIgnoringCase : List ℕ → List ℕ → Type 0
SameIgnoringCase s t = map to_ascii_lowercase s ≡ map to_ascii_lowercase t

eq_byte : (a b : ℕ) → (a == b) ≡ true → a ≡ b
eq_byte a b h = ground arith

byte_eq : (a b : ℕ) → a ≡ b → (a == b) ≡ true
byte_eq a b h = ground arith

pub eq_ignore_ascii_case_sound :
    (s t : List ℕ) → eq_ignore_ascii_case s t ≡ true → SameIgnoringCase s t
unfolding eq_ignore_ascii_case
eq_ignore_ascii_case_sound [] [] h = refl
eq_ignore_ascii_case_sound [] (b ∷ t) h = ground arith
eq_ignore_ascii_case_sound (a ∷ s) [] h = ground arith
eq_ignore_ascii_case_sound (a ∷ s) (b ∷ t) h =
    ground
      (arith, eq_byte (to_ascii_lowercase a) (to_ascii_lowercase b), eq_ignore_ascii_case_sound s t)

pub eq_ignore_ascii_case_refl : (s : List ℕ) → eq_ignore_ascii_case s s ≡ true
unfolding eq_ignore_ascii_case
eq_ignore_ascii_case_refl [] = refl
eq_ignore_ascii_case_refl (a ∷ s) =
    ground
      (arith, byte_eq (to_ascii_lowercase a) (to_ascii_lowercase a), eq_ignore_ascii_case_refl s)

pub eq_ignore_ascii_case_complete :
    (s t : List ℕ) → SameIgnoringCase s t → eq_ignore_ascii_case s t ≡ true
unfolding eq_ignore_ascii_case
eq_ignore_ascii_case_complete [] [] h = refl
eq_ignore_ascii_case_complete [] (b ∷ t) h = ground arith
eq_ignore_ascii_case_complete (a ∷ s) [] h = ground arith
eq_ignore_ascii_case_complete (a ∷ s) (b ∷ t) h =
    let heads : to_ascii_lowercase a ≡ to_ascii_lowercase b = ap (λ l. get_or l 0 0) h in
    let tails : SameIgnoringCase s t = ap (λ l. drop 1 l) h in
    ground (
      arith,
      byte_eq (to_ascii_lowercase a) (to_ascii_lowercase b) heads,
      eq_ignore_ascii_case_complete s t tails,
    )

pub SameIgnoringCase-length : (s t : List ℕ) → SameIgnoringCase s t → length s ≡ length t
SameIgnoringCase-length s t h =
    sym (length-map s to_ascii_lowercase) ∙ ap length h ∙ length-map t to_ascii_lowercase

pub SameIgnoringCase-upper : (s : List ℕ) → SameIgnoringCase (map to_ascii_uppercase s) s
SameIgnoringCase-upper [] = refl
SameIgnoringCase-upper (c ∷ s) = simp (lower-upper, SameIgnoringCase-upper s)
