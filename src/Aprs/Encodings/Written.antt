-- ===== src/Aprs/Encodings/Written.antt =====
-- The text of an uncompressed report, and what the readers of its digits make of it
-- (crates/aprsr-core/src/aprs/position.rs).
use aprsr.Prelude.{
  ℕ, ◌+◌, ◌*◌, ◌/◌, ◌%◌, ◌≤◌, ◌<◌, [], ◌∷◌, some, Bool, true, false, ◌≡◌, refl, arith,
  if◌then◌else◌, leb, length,
}
use aprsr.Bytes.{Bytes}
use aprsr.Aprs.Encodings.{
  digit, digit_or_space, two_digits, three_digits, two_digits_ambiguous, either_of,
}

-- A digit of the minutes, or the blank that hides it.
pub data Figure : Type 0 where
  shown : ℕ → Figure
  blank : Figure

abbrev pub figure_byte : Figure → ℕ
figure_byte (shown d) = b'0' + d
figure_byte blank = b' '

abbrev pub figure_value : Figure → ℕ
figure_value (shown d) = d
figure_value blank = 0

abbrev pub IsFigure : Figure → Type 0
IsFigure (shown d) = d < 10
IsFigure blank = Unit {0}

-- Minutes or hundredths: two figures.
pub record Minutes : Type 0 where
  pub tens : Figure
  pub ones : Figure

abbrev pub minutes_value : Minutes → ℕ
minutes_value m = figure_value m.tens * 10 + figure_value m.ones

abbrev pub IsMinutes : Minutes → Type 0
IsMinutes m = IsFigure m.tens × IsFigure m.ones

pub record Angle : Type 0 where
  pub degrees : ℕ
  pub minutes : Minutes
  pub hundredths : Minutes

abbrev pub IsAngle : ℕ → Angle → Type 0
IsAngle limit a = (a.degrees < limit) × IsMinutes a.minutes × IsMinutes a.hundredths

-- What a report says, whatever its encoding.
pub record Report : Type 0 where
  pub latitude : Angle
  pub north : Bool
  pub longitude : Angle
  pub east : Bool
  pub table : ℕ
  pub code : ℕ

-- `DDMM.hhN/DDDMM.hhW$`
abbrev pub written : Report → Bytes → Bytes
written r rest =
    let lat = r.latitude in
    let lon = r.longitude in
    (b'0' + lat.degrees / 10)
    ∷ (b'0' + lat.degrees % 10)
    ∷ figure_byte lat.minutes.tens
    ∷ figure_byte lat.minutes.ones
    ∷ b'.'
    ∷ figure_byte lat.hundredths.tens
    ∷ figure_byte lat.hundredths.ones
    ∷ (if r.north then b'N' else b'S')
    ∷ r.table
    ∷ (b'0' + lon.degrees / 100)
    ∷ (b'0' + lon.degrees / 10 % 10)
    ∷ (b'0' + lon.degrees % 10)
    ∷ figure_byte lon.minutes.tens
    ∷ figure_byte lon.minutes.ones
    ∷ b'.'
    ∷ figure_byte lon.hundredths.tens
    ∷ figure_byte lon.hundredths.ones
    ∷ (if r.east then b'E' else b'W')
    ∷ r.code
    ∷ rest

pub two_digits-written :
    (n : ℕ) → n < 100 → two_digits ((b'0' + n / 10) ∷ (b'0' + n % 10) ∷ []) ≡ some n
unfolding two_digits digit
two_digits-written n h = ground arith

pub three_digits-written :
    (n : ℕ)
    → n < 1000
    → three_digits ((b'0' + n / 100) ∷ (b'0' + n / 10 % 10) ∷ (b'0' + n % 10) ∷ []) ≡ some n
unfolding three_digits digit
three_digits-written n h = ground arith

pub digit_or_space-figure :
    (f : Figure) → IsFigure f → digit_or_space (figure_byte f) ≡ some (figure_value f)
unfolding digit_or_space
digit_or_space-figure (shown d) h = ground arith
digit_or_space-figure blank h = refl

pub two_digits_ambiguous-written :
    (m : Minutes)
    → IsMinutes m
    → two_digits_ambiguous (figure_byte m.tens ∷ figure_byte m.ones ∷ []) ≡ some (minutes_value m)
unfolding two_digits_ambiguous
two_digits_ambiguous-written m h =
    rw (digit_or_space-figure m.tens h.0, digit_or_space-figure m.ones h.1) refl

pub either_of-written :
    (a b : ℕ) (first : Bool)
    → (if leb a b then leb b a else false) ≡ false
    → either_of a b (some (if first then a else b)) ≡ some first
unfolding either_of
either_of-written a b true h = ground arith
either_of-written a b false h = ground arith

pub leb-written :
    (k : ℕ) (r : Report) (rest : Bytes) → k ≤ 19 → leb k (length (written r rest)) ≡ true
leb-written k r rest h = ground arith
