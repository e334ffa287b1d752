-- ===== src/Callsign/Grammar.antt =====
-- What `validate` accepts: an independent grammar, and the parts of a callsign.
use aprsr.Prelude.{
  ℕ, suc, ◌+◌, ◌-◌, ◌%◌, ◌≤◌, ◌<◌, [], ◌∷◌, ◌++◌, Option, none, some, true, length, All, ok, ◌>>=◌,
  ◌≡◌, ◌⊎◌, ◌↔◌, inl, inr, refl, ap, arith, Bool-cases, ◌∙◌, subst, sym, length-append, >>=-eq-ok,
}
use aprsr.Bytes.{Bytes, get_to-append, get_from-append}
use aprsr.Callsign.{Callsign, is_callsign_byte, separator_byte, scan, check_ssid}
use aprsr.Callsign.{validate, parse, as_str, base, ssid}

abbrev pub Plain : Bytes → Type 0
Plain = All (λ c. is_callsign_byte c ≡ true)

scan-Plain :
    (p r : Bytes) (i : ℕ) (sep : Option ℕ)
    → Plain p
    → scan i sep (p ++ r) ≡ scan (i + length p) sep r
unfolding scan
scan-Plain [] r i sep h = ap (λ (n : ℕ). scan n sep r) (omega arith)
scan-Plain (c ∷ p) r i sep h =
    let e : i + 1 + length p ≡ i + suc (length p) = omega arith in
    rw (h.0) (scan-Plain p r (i + 1) sep h.1 ∙ ap (λ (n : ℕ). scan n sep r) e)

-- Once the separator is found only plain bytes may follow.
scan-some :
    (s : Bytes) (i j : ℕ) (sep : Option ℕ) → scan i (some j) s ≡ ok sep → Plain s × (sep ≡ some j)
unfolding scan
scan-some [] i j sep h = ground arith
scan-some (c ∷ s) i j sep h = ground (arith, scan-some s (i + 1) j sep)

abbrev Split : Bytes → ℕ → Option ℕ → Type 0
Split s i sep =
    (p : Bytes) × (q : Bytes) × (s ≡ p ++ separator_byte ∷ q)
    × Plain p
    × Plain q
    × (0 < i + length p)
    × (sep ≡ some ((i + length p) % 256))

scan-none :
    (s : Bytes) (i : ℕ) (sep : Option ℕ)
    → scan i none s ≡ ok sep
    → (Plain s × (sep ≡ none)) ⊎ Split s i sep
unfolding scan
scan-none [] i sep h = ground arith
scan-none (c ∷ s) i sep h = elim (Bool-cases (is_callsign_byte c)) [
  | inl e ↦ elim (scan-none s (i + 1) sep (rw e at h)) [
    | inl (ps, n) ↦ inl ((e, ps), n)
    | inr (p, q, sq, pp, pq, pos, n) ↦ inr (
      c ∷ p,
      q,
      ap (λ t. c ∷ t) sq,
      (e, pp),
      pq,
      omega arith,
      n ∙ ap (λ (m : ℕ). some (m % 256)) (omega arith),
    )
  ]
  | inr e ↦
      let rest : scan (i + 1) (some (i % 256)) s ≡ ok sep = ground arith in
      let (ps, n) = scan-some s (i + 1) (i % 256) sep rest in
      inr (
        [],
        s,
        ground arith,
        tt,
        ps,
        ground arith,
        n ∙ ap (λ (m : ℕ). some (m % 256)) (omega arith),
      )
]

scan_end : (s : Bytes) (i : ℕ) (sep : Option ℕ) → Plain s → scan i sep s ≡ ok sep
unfolding scan
scan_end [] i sep h = refl
scan_end (c ∷ s) i sep h = rw (h.0) (scan_end s (i + 1) sep h.1)

scan_separated :
    (p q : Bytes)
    → 0 < length p
    → Plain p
    → Plain q
    → scan 0 none (p ++ separator_byte ∷ q) ≡ ok (some (length p % 256))
unfolding scan
scan_separated p q pos hp hq =
    scan-Plain p (separator_byte ∷ q) 0 none hp
    ∙ (let e : 0 + length p ≡ length p = omega arith in
        rw e (ground (arith, scan_end q (length p + 1) (some (length p % 256)) hq)))

-- The callsigns of APRS-IS: upper-case letters and digits, and one optional SSID.
pub data IsCallsign (s : Bytes) : Type 0 where
  bare : 0 < length s → length s ≤ 9 → Plain s → IsCallsign s
  with_ssid :
      (b x : Bytes)
      → s ≡ b ++ separator_byte ∷ x
      → 0 < length b
      → Plain b
      → 0 < length x
      → length x ≤ 2
      → Plain x
      → length s ≤ 9
      → IsCallsign s

validate_bare : (s : Bytes) → 0 < length s → length s ≤ 9 → Plain s → validate s ≡ ok none
unfolding validate check_ssid
validate_bare [] pos le h = absurd (omega arith)
validate_bare (c ∷ s) pos le h = ground (arith, scan_end (c ∷ s) 0 none h)

validate_separated :
    (b x : Bytes)
    → 0 < length b
    → Plain b
    → 0 < length x
    → length x ≤ 2
    → Plain x
    → length (b ++ separator_byte ∷ x) ≤ 9
    → validate (b ++ separator_byte ∷ x) ≡ ok (some (length b))
unfolding validate check_ssid
validate_separated [] x pos hb posx lx hx le = absurd (omega arith)
validate_separated (c ∷ b) x pos hb posx lx hx le =
    let n : length (c ∷ b) % 256 ≡ length (c ∷ b) =
      omega (arith, length-append (c ∷ b) (separator_byte ∷ x)) in
    ground (arith, scan_separated (c ∷ b) x pos hb hx, length-append (c ∷ b) (separator_byte ∷ x))

check_ssid-ok :
    (s : Bytes) (a b : Option ℕ)
    → check_ssid s a ≡ ok b
    → (a ≡ b) × ((i : ℕ) → b ≡ some i → (0 < length s - i - 1) × (length s - i - 1 ≤ 2))
unfolding check_ssid
check_ssid-ok s none b h = (ground arith, λ i e. ground arith)
check_ssid-ok s (some j) b h = (ground arith, λ i e. ground arith)

-- Whatever `validate` accepts: the text and the separator that it reports.
validate-ok :
    (s : Bytes) (sep : Option ℕ)
    → validate s ≡ ok sep
    → (0 < length s) × (length s ≤ 9) × (scan 0 none s ≡ ok sep) × (check_ssid s sep ≡ ok sep)
unfolding validate
validate-ok [] sep h = ground arith
validate-ok (c ∷ s) sep h =
    let chain : (scan 0 none (c ∷ s) >>= check_ssid (c ∷ s)) ≡ ok sep = ground arith in
    let (a, scanned, checked) = >>=-eq-ok (scan 0 none (c ∷ s)) (check_ssid (c ∷ s)) chain in
    let same : a ≡ sep = (check_ssid-ok (c ∷ s) a sep checked).0 in
    (
      omega arith,
      ground arith,
      scanned ∙ ap ok same,
      subst (λ t. check_ssid (c ∷ s) t ≡ ok sep) same checked,
    )

pub IsCallsign-validate : (s : Bytes) → IsCallsign s → (sep : Option ℕ) × (validate s ≡ ok sep)
IsCallsign-validate s (bare pos le h) = (none, validate_bare s pos le h)
IsCallsign-validate s (with_ssid b x e pos hb posx lx hx le) = (
  some (length b),
  rw e (validate_separated b x pos hb posx lx hx (subst (λ t. length t ≤ 9) e le)),
)

-- What `validate` reports: no separator and plain bytes, or the separator's place.
pub Reported : Bytes → Option ℕ → Type 0
Reported s sep =
    ((sep ≡ none) × Plain s)
    ⊎ ((b : Bytes) × (x : Bytes) × (s ≡ b ++ separator_byte ∷ x)
        × (sep ≡ some (length b))
        × (0 < length b)
        × Plain b
        × (0 < length x)
        × (length x ≤ 2)
        × Plain x)

validate-Reported : (s : Bytes) (sep : Option ℕ) → validate s ≡ ok sep → Reported s sep
unfolding Reported
validate-Reported s sep h =
    let (pos, le, scanned, checked) = validate-ok s sep h in
    elim (scan-none s 0 sep scanned) [
      | inl (ps, n) ↦ inl (n, ps)
      | inr (b, x, e, pb, px, posb, n) ↦
          let len : length s ≡ length b + suc (length x) =
            ap length e ∙ length-append b (separator_byte ∷ x) in
          let at : sep ≡ some (length b) = n ∙ ap (λ (m : ℕ). some m) (omega arith) in
          let (lo, hi) = (check_ssid-ok s sep sep checked).1 (length b) at in
          inr (b, x, e, at, omega arith, pb, omega arith, omega arith, px)
    ]

pub validate-IsCallsign : (s : Bytes) (sep : Option ℕ) → validate s ≡ ok sep → IsCallsign s
unfolding Reported
validate-IsCallsign s sep h =
    let (pos, le, _, _) = validate-ok s sep h in
    elim (validate-Reported s sep h) [
      | inl (_, ps) ↦ bare pos le ps
      | inr (b, x, e, _, posb, pb, posx, lx, px) ↦ with_ssid b x e posb pb posx lx px le
    ]

-- `Callsign::parse` succeeds exactly on the texts of the grammar `IsCallsign`.
pub parse_iff : (s : Bytes) → ((c : Callsign) × (parse s ≡ ok c)) ↔ IsCallsign s
unfolding parse
parse_iff s = (
  λ (c, h).
      let (sep, v, _) =
        >>=-eq-ok (validate s) (λ sep. ok (record { raw = s; separator = sep })) h in
      validate-IsCallsign s sep v,
  λ g. let (sep, v) = IsCallsign-validate s g in (record { raw = s; separator = sep }, rw v),
)

abbrev Reassembles : Bytes → Callsign → Type 0
Reassembles s c =
    ((ssid c ≡ none) × (base c ≡ s))
    ⊎ ((x : Bytes) × (ssid c ≡ some x) × (s ≡ base c ++ separator_byte ∷ x))

Reported-Reassembles :
    (s : Bytes) (sep : Option ℕ)
    → Reported s sep
    → Reassembles s (record { raw = s; separator = sep })
unfolding Reported ssid base
Reported-Reassembles s sep (inl (n, _)) = rw n (inl (refl, refl))
Reported-Reassembles s sep (inr (b, x, e, at, _, _, _, _, _)) =
    rw (at, e) (inr (x, rw get_from-append, rw get_to-append))

-- A parsed callsign is stored as it was written, and reassembles from its parts: there is no
-- SSID and the base is the whole text, or the text is the base, a dash and the SSID.
pub parse-parts :
    (s : Bytes) (c : Callsign)
    → parse s ≡ ok c
    → (as_str c ≡ s)
      × (((ssid c ≡ none) × (base c ≡ s))
          ⊎ ((x : Bytes) × (ssid c ≡ some x) × (s ≡ base c ++ separator_byte ∷ x)))
unfolding parse as_str
parse-parts s c h =
    let (sep, v, e) = >>=-eq-ok (validate s) (λ sep. ok (record { raw = s; separator = sep })) h in
    let built : record { raw = s; separator = sep } ≡ c = cc in
    (
      ap (λ (d : Callsign). d.raw) (sym built),
      subst (Reassembles s) built (Reported-Reassembles s sep (validate-Reported s sep v)),
    )
