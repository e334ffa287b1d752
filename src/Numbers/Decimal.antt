-- ===== src/Numbers/Decimal.antt =====
-- The decimal digits of a number, and the number that digits spell.
use aprsr.Prelude.{
  ℕ, zero, suc, ◌+◌, ◌-◌, ◌*◌, ◌/◌, ◌%◌, ◌^◌, ◌≤◌, ◌<◌, [], ◌∷◌, ◌++◌, none, true, false, ltb,
  if-elim, All, All-append, ◌≡◌, refl, ap, ◌∙◌, arith,
}
use aprsr.Bytes.{Bytes}
use aprsr.Numbers.{is_digit, decimal, digits_onto, show_u64}

abbrev pub IsDigits : Bytes → Type 0
IsDigits = All (λ c. is_digit c ≡ true)

-- The number that digits spell behind `acc`.
abbrev pub value : ℕ → Bytes → ℕ
value acc [] = acc
value acc (c ∷ s) = value (acc * 10 + (c - b'0')) s

pub value-append : (acc : ℕ) (s t : Bytes) → value acc (s ++ t) ≡ value (value acc s) t
value-append acc [] t = refl
value-append acc (c ∷ s) t = value-append (acc * 10 + (c - b'0')) s t

pub value-grows : (acc : ℕ) (s : Bytes) → acc ≤ value acc s
value-grows acc [] = omega arith
value-grows acc (c ∷ s) = omega (arith, value-grows (acc * 10 + (c - b'0')) s)

decimal-IsDigits : (fuel n : ℕ) → IsDigits (decimal fuel n)
unfolding decimal
decimal-IsDigits zero n = tt
decimal-IsDigits (suc fuel) n =
    if-elim IsDigits (ltb n 10) ((b'0' + n) ∷ []) (decimal fuel (n / 10) ++ (b'0' + n % 10) ∷ [])
      (λ h. (ground arith, tt))
      (λ h.
        All-append (λ c. is_digit c ≡ true) (decimal fuel (n / 10)) ((b'0' + n % 10) ∷ [])
          (decimal-IsDigits fuel (n / 10)) (ground arith, tt))

front : (s : Bytes) (c : ℕ) → (d : ℕ) × (t : Bytes) × (s ++ c ∷ [] ≡ d ∷ t)
front [] c = (c, [], refl)
front (d ∷ s) c = (d, s ++ c ∷ [], refl)

-- 10 ^ k
abbrev ten_to : ℕ → ℕ
ten_to zero = 1
ten_to (suc k) = 10 * ten_to k

two-parts : (n : ℕ) → (n / 10) * 10 + (b'0' + n % 10 - b'0') ≡ n
two-parts n = omega arith

decimal-value : (fuel n : ℕ) → n < ten_to (suc fuel) → value 0 (decimal (suc fuel) n) ≡ n
unfolding decimal
decimal-value zero n h =
    if-elim (λ s. value 0 s ≡ n) (ltb n 10) ((b'0' + n) ∷ [])
      (decimal 0 (n / 10) ++ (b'0' + n % 10) ∷ []) (λ _. omega arith)
      (λ big. absurd (ground (arith, h)))
decimal-value (suc fuel) n h =
    if-elim (λ s. value 0 s ≡ n) (ltb n 10) ((b'0' + n) ∷ [])
      (decimal (suc fuel) (n / 10) ++ (b'0' + n % 10) ∷ []) (λ _. omega arith)
      (λ _.
        value-append 0 (decimal (suc fuel) (n / 10)) ((b'0' + n % 10) ∷ [])
        ∙ ap (λ v. v * 10 + (b'0' + n % 10 - b'0')) (decimal-value fuel (n / 10) (omega (arith, h)))
        ∙ two-parts n)

-- Every number of 64 bits is read back from the digits that are printed for it.
pub value-show_u64 : (n : ℕ) → n < 2 ^ 64 → value 0 (show_u64 n) ≡ n
unfolding show_u64
value-show_u64 n h = decimal-value 19 n (omega (arith, h))

pub show_u64-IsDigits : (n : ℕ) → IsDigits (show_u64 n)
unfolding show_u64
show_u64-IsDigits n = decimal-IsDigits 20 n

-- A number's text has a first digit.
pub show_u64-head : (n : ℕ) → (c : ℕ) × (s : Bytes) × (show_u64 n ≡ c ∷ s)
unfolding show_u64 decimal
show_u64-head n =
    if-elim (λ t. (c : ℕ) × (s : Bytes) × (t ≡ c ∷ s)) (ltb n 10) ((b'0' + n) ∷ [])
      (decimal 19 (n / 10) ++ (b'0' + n % 10) ∷ []) (λ _. (b'0' + n, [], refl))
      (λ _. front (decimal 19 (n / 10)) (b'0' + n % 10))

-- Digits that end in another character are no number.
pub digits_onto-unit :
    (acc : ℕ) (s : Bytes) (u : ℕ) (t : Bytes)
    → is_digit u ≡ false
    → digits_onto acc (s ++ u ∷ t) ≡ none
unfolding digits_onto
digits_onto-unit acc [] u t h = ground (arith, h)
digits_onto-unit acc (c ∷ s) u t h =
    ground (arith, digits_onto-unit (acc * 10 + (c - b'0')) s u t h)
