-- ===== src/Interval/Display.antt =====
-- An interval that is printed is read back.
use mathlib.Core.List.{reverse-append, reverse-reverse}
use aprsr.Prelude.{
  ℕ, ◌+◌, ◌-◌, ◌*◌, ◌/◌, ◌^◌, ◌≤◌, ◌<◌, List, [], ◌∷◌, ◌++◌, Option, none, some, true, false, ltb,
  ◌==◌, if-elim, if◌then◌else◌, is_empty, reverse, Result, ok, err, All, ◌≡◌, ◌≢◌, refl, sym, ap,
  ◌∙◌, subst, arith, Bool-cases, inl, inr, ◌⊎◌, append_assoc,
}
use aprsr.Bytes.{Bytes, unwrap_or, ends_text, trim_end, trim_end-kept}
use aprsr.Numbers.{is_digit, parse_u64, show_u64, digits_onto, parse_unsigned, parse_digits}
use aprsr.Numbers.Decimal.{
  IsDigits, value, value-grows, value-show_u64, show_u64-IsDigits, show_u64-head, digits_onto-unit,
}
use aprsr.Interval.{
  IntervalError, empty, checked, trim, push_digit, multiplier, add_units, close_group, scan_units,
  parse_interval, show_units, units, show_interval, seconds_per_hour, seconds_per_minute,
}

scan-digit :
    (input : Bytes) (c : ℕ) (rest : Bytes) (total : ℕ) (current : Option ℕ)
    → is_digit c ≡ true
    → unwrap_or current 0 * 10 + (c - b'0') < 2 ^ 64
    → scan_units input (c ∷ rest) total current
      ≡ scan_units input rest total (some (unwrap_or current 0 * 10 + (c - b'0')))
unfolding scan_units push_digit checked
scan-digit input c rest total current d fits = ground (arith, d, fits)

scan-more :
    (input s t : Bytes) (total v : ℕ)
    → IsDigits s
    → value v s < 2 ^ 64
    → scan_units input (s ++ t) total (some v) ≡ scan_units input t total (some (value v s))
scan-more input [] t total v d fits = refl
scan-more input (c ∷ s) t total v (d, ds) fits =
    let low = value-grows (v * 10 + (c - b'0')) s in
    scan-digit input c (s ++ t) total (some v) d (omega (arith, low, fits))
    ∙ scan-more input s t total (v * 10 + (c - b'0')) ds fits

scan-number :
    (input s t : Bytes) (total c : ℕ) (r : Bytes)
    → s ≡ c ∷ r
    → IsDigits s
    → value 0 s < 2 ^ 64
    → scan_units input (s ++ t) total none ≡ scan_units input t total (some (value 0 s))
scan-number input [] t total c r e d fits = cc
scan-number input (a ∷ s) t total c r e (d, ds) fits =
    let low = value-grows (0 * 10 + (a - b'0')) s in
    scan-digit input a (s ++ t) total none d (omega (arith, low, fits))
    ∙ scan-more input s t total (0 * 10 + (a - b'0')) ds fits

scan-unit :
    (input : Bytes) (u size : ℕ) (t : Bytes) (total n : ℕ)
    → is_digit u ≡ false
    → multiplier input u ≡ ok size
    → total + n * size < 2 ^ 64
    → scan_units input (u ∷ t) total (some n) ≡ scan_units input t (total + n * size) none
unfolding scan_units close_group add_units checked
scan-unit input u size t total n d m fits = ground (arith, d, m, fits)

zero-of : (n : ℕ) → ltb 0 n ≡ false → n ≡ 0
zero-of n h = ground arith

zero_mul : (n : ℕ) → 0 * n ≡ 0
zero_mul n = omega arith

show-unit :
    (input : Bytes) (u size : ℕ) (smaller : List (ℕ × ℕ)) (secs total : ℕ)
    → is_digit u ≡ false
    → multiplier input u ≡ ok size
    → secs / size * size ≤ secs
    → secs / size ≤ secs
    → total + secs < 2 ^ 64
    → scan_units input (show_units ((u, size) ∷ smaller) secs) total none
      ≡ scan_units input
          (show_units smaller (secs - secs / size * size))
          (total + secs / size * size)
          none
unfolding show_units
show-unit input u size smaller secs total d m low less fits =
    let n = secs / size in
    let left = secs - n * size in
    if-elim
      (λ s.
        scan_units input s total none
        ≡ scan_units input (show_units smaller left) (total + n * size) none)
      (ltb 0 n) (show_u64 n ++ u ∷ show_units smaller left) (show_units smaller secs)
      (λ _.
        let (c, r, e) = show_u64-head n in
        let v = value-show_u64 n (omega (arith, less, fits)) in
        scan-number input (show_u64 n) (u ∷ show_units smaller left) total c r e
          (show_u64-IsDigits n) (omega (arith, v, less, fits))
        ∙ ap (λ k. scan_units input (u ∷ show_units smaller left) total (some k)) v
        ∙ scan-unit input u size (show_units smaller left) total n d m (omega (arith, low, fits)))
      (λ h.
        let none_of : n * size ≡ 0 = ap (λ k. k * size) (zero-of n h) ∙ zero_mul size in
        ap (λ k. scan_units input (show_units smaller k) total none) (omega (arith, none_of))
        ∙ ap (λ k. scan_units input (show_units smaller left) k none) (omega (arith, none_of)))

scan-shown :
    (input : Bytes) (secs : ℕ)
    → secs < 2 ^ 64
    → scan_units input (show_units units secs) 0 none ≡ ok secs
unfolding show_units multiplier scan_units
scan-shown input secs h =
    let s1 = secs - secs / 86400 * 86400 in
    let t1 = 0 + secs / 86400 * 86400 in
    let s2 = s1 - s1 / 3600 * 3600 in
    let t2 = t1 + s1 / 3600 * 3600 in
    let s3 = s2 - s2 / 60 * 60 in
    let t3 = t2 + s2 / 60 * 60 in
    let s4 = s3 - s3 / 1 * 1 in
    show-unit input b'd' 86400
      ((b'h', seconds_per_hour) ∷ (b'm', seconds_per_minute) ∷ (b's', 1) ∷ []) secs 0 refl refl
      (omega arith) (omega arith) (omega arith)
    ∙ show-unit input b'h' 3600 ((b'm', seconds_per_minute) ∷ (b's', 1) ∷ []) s1 t1 refl refl
        (omega arith) (omega arith) (omega arith)
    ∙ show-unit input b'm' 60 ((b's', 1) ∷ []) s2 t2 refl refl (omega arith) (omega arith)
        (omega arith)
    ∙ show-unit input b's' 1 [] s3 t3 refl refl (omega arith) (omega arith) (omega arith)
    ∙ ap ok (omega arith)

-- A text that begins with a number and its unit, and ends in a visible character.
record Shown (s : Bytes) : Type 0 where
  count : ℕ
  unit : ℕ
  behind : Bytes
  begins : s ≡ show_u64 count ++ unit ∷ behind
  no_digit : is_digit unit ≡ false
  before : Bytes
  end : ℕ
  ends : s ≡ before ++ end ∷ []
  visible : ends_text end ≡ true

IsUnit : ℕ × ℕ → Type 0
IsUnit (u, size) = (is_digit u ≡ false) × (ends_text u ≡ true)

show_units-Shown :
    (us : List (ℕ × ℕ)) (secs : ℕ)
    → All IsUnit us
    → (show_units us secs ≡ []) ⊎ Shown (show_units us secs)
unfolding show_units IsUnit
show_units-Shown [] secs a = inl refl
show_units-Shown ((u, size) ∷ us) secs ((d, v), a) =
    let n = secs / size in
    let left = secs - n * size in
    if-elim (λ s. (s ≡ []) ⊎ Shown s) (ltb 0 n) (show_u64 n ++ u ∷ show_units us left)
      (show_units us secs)
      (λ _. inr (elim (show_units-Shown us left a) [
        | inl e ↦ record {
          count = n;
          unit = u;
          behind = show_units us left;
          begins = refl;
          no_digit = d;
          before = show_u64 n;
          end = u;
          ends = ap (λ t. show_u64 n ++ u ∷ t) e;
          visible = v;
        }
        | inr r ↦ record {
          count = n;
          unit = u;
          behind = show_units us left;
          begins = refl;
          no_digit = d;
          before = show_u64 n ++ u ∷ r.before;
          end = r.end;
          ends =
              ap (λ t. show_u64 n ++ u ∷ t) r.ends
              ∙ sym (append_assoc (show_u64 n) (u ∷ r.before) (r.end ∷ []));
          visible = r.visible;
        }
      ]))
      (λ _. show_units-Shown us secs a)

-- `trim` takes nothing away.
trim-Shown : (s : Bytes) → Shown s → trim s ≡ s
unfolding trim
trim-Shown s r =
    let (c, t, e) = show_u64-head r.count in
    let first : s ≡ c ∷ (t ++ r.unit ∷ r.behind) = r.begins ∙ ap (λ x. x ++ r.unit ∷ r.behind) e in
    let digit : is_digit c ≡ true = (subst IsDigits e (show_u64-IsDigits r.count)).0 in
    let visible : ends_text c ≡ true = ground (arith, digit) in
    let rest = t ++ r.unit ∷ r.behind in
    let turned : reverse s ≡ reverse rest ++ c ∷ [] =
      ap reverse first ∙ reverse-append (c ∷ []) rest in
    let kept : trim_end (reverse s) ≡ reverse s =
      ap trim_end turned ∙ trim_end-kept (reverse rest) c visible ∙ sym turned in
    ap (λ x. trim_end (reverse x)) kept
    ∙ ap trim_end (reverse-reverse s ∙ r.ends)
    ∙ trim_end-kept r.before r.end r.visible
    ∙ sym r.ends

-- It is no bare number.
parse_u64-Shown : (s : Bytes) → Shown s → (parse_u64 s ≡ none) × (is_empty s ≡ false)
unfolding parse_u64 parse_unsigned parse_digits
parse_u64-Shown s r =
    let (c, t, e) = show_u64-head r.count in
    let first : s ≡ c ∷ (t ++ r.unit ∷ r.behind) = r.begins ∙ ap (λ x. x ++ r.unit ∷ r.behind) e in
    let digit : is_digit c ≡ true = (subst IsDigits e (show_u64-IsDigits r.count)).0 in
    let bad : digits_onto 0 (c ∷ (t ++ r.unit ∷ r.behind)) ≡ none =
      digits_onto-unit 0 (c ∷ t) r.unit r.behind r.no_digit in
    rw (first) (ground (arith, digit, bad), refl)

units-IsUnit : All IsUnit units
unfolding IsUnit
units-IsUnit = ((refl, refl), ((refl, refl), ((refl, refl), ((refl, refl), tt))))

ok-injective : {m n : ℕ} → ◌≡◌ {A = Result ℕ IntervalError} (ok m) (ok n) → m ≡ n
ok-injective e = ground arith

-- Only nothing is printed as nothing.
printed : (secs : ℕ) → secs < 2 ^ 64 → secs ≢ 0 → Shown (show_units units secs)
unfolding scan_units
printed secs h n = elim (show_units-Shown units secs units-IsUnit) [
  | inr r ↦ r
  | inl e ↦
      absurd (n (ok-injective (sym (scan-shown [] secs h) ∙ ap (λ s. scan_units [] s 0 none) e)))
]

parse-text :
    (s : Bytes)
    → trim s ≡ s
    → is_empty s ≡ false
    → parse_u64 s ≡ none
    → parse_interval s ≡ scan_units s s 0 none
unfolding parse_interval
parse-text s t e n =
    ap
      (λ x.
        if is_empty x
        then err empty
        else elim (parse_u64 x) [ some secs ↦ ok secs | none ↦ scan_units s x 0 none ])
      t
    ∙ ground (arith, e, n)

show-text :
    (secs : ℕ)
    → (secs == 0) ≡ false
    → is_empty (show_units units secs) ≡ false
    → show_interval secs ≡ show_units units secs
unfolding show_interval
show-text secs n e = ground (arith, n, e)

parse-show_zero : parse_interval (show_interval 0) ≡ ok 0
unfolding parse_interval show_interval trim trim_end parse_u64 parse_unsigned parse_digits
    digits_onto scan_units push_digit checked close_group multiplier add_units
parse-show_zero = refl

-- `Interval::parse` reads back what `Display` prints, for every number of seconds of 64 bits.
pub parse-show_interval : (secs : ℕ) → secs < 2 ^ 64 → parse_interval (show_interval secs) ≡ ok secs
parse-show_interval secs h = elim (Bool-cases (secs == 0)) [
  | inl z ↦
      let zero : 0 ≡ secs = ground (arith, z) in
      subst (λ n. parse_interval (show_interval n) ≡ ok n) zero parse-show_zero
  | inr n ↦
      let text = show_units units secs in
      let shown : Shown text = printed secs h (λ e. ground (arith, n)) in
      let (number, some_text) = parse_u64-Shown text shown in
      ap parse_interval (show-text secs n some_text)
      ∙ parse-text text (trim-Shown text shown) some_text number
      ∙ scan-shown text secs h
]
