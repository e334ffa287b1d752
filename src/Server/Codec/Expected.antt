-- ===== src/Server/Codec/Expected.antt =====
-- What a call of `decode` (crates/aprsr-server/src/codec.rs) is to answer, by the reference framing.
use aprsr.Prelude.{
  ℕ, zero, suc, ◌+◌, ◌*◌, ◌≤◌, ◌<◌, List, [], ◌∷◌, ◌++◌, Option, none, some, Bool, true, false, ltb,
  length, take, drop, is_empty, ◌≡◌, refl, sym, ap, ◌∙◌, arith, append_assoc, length-append,
  drop-length_append, Bool-cases, inl, inr, ◌⊎◌,
}
use aprsr.Bytes.{Bytes}
use aprsr.Server.Codec.{Line, LineCodec, newline}
use aprsr.Server.Codec.Framing.{Reading, waiting, skipping, yields, feed}
use aprsr.Server.Codec.Window.{Ready}

-- Where a buffer's first byte stands.
abbrev pub start : Bool → Reading
start true = skipping
start false = waiting []

-- What is left when no line is complete.
abbrev pub rest_of : Bool → Bytes → Reading
rest_of true buf = skipping
rest_of false buf = waiting buf

-- It falls with every item.
abbrev pub rank : Bool → Bytes → ℕ
rank true buf = 2 * length buf
rank false buf = 2 * length buf + 1

-- Nothing that `decode` would still yield.
abbrev pub Settled : ℕ → LineCodec → Bytes → Type 0
Settled limit codec buf =
    feed limit (start codec.discarding) buf ≡ (rest_of codec.discarding buf, [])

-- The result of a call on a buffer whose lines are `lines` and whose rank is `n`.
abbrev pub Outcome : ℕ → Reading × List Line → ℕ → LineCodec × Bytes × Option Line → Type 0
Outcome limit lines n (codec, buf, some line) =
    Ready codec buf
    × (codec.max_length ≡ limit)
    × (lines ≡ yields line (feed limit (start codec.discarding) buf))
    × (rank codec.discarding buf < n)
Outcome limit lines n (codec, buf, none) =
    Ready codec buf
    × (codec.max_length ≡ limit)
    × (lines ≡ (rest_of codec.discarding buf, []))
    × (codec.discarding ≡ true → buf ≡ [])
    × Settled limit codec buf

pub Outcome-grow :
    (limit : ℕ) (lines more : Reading × List Line) (n m : ℕ) (x : LineCodec × Bytes × Option Line)
    → more ≡ lines
    → n ≤ m
    → Outcome limit lines n x
    → Outcome limit more m x
Outcome-grow limit lines more n m (codec, buf, some line) e le (r, l, f, k) =
    (r, l, e ∙ f, omega arith)
Outcome-grow limit lines more n m (codec, buf, none) e le (r, l, f, k, q) = (r, l, e ∙ f, k, q)

pub Ready-fresh :
    (codec : LineCodec) (d : Bool) (buf s : Bytes)
    → Ready codec buf
    → Ready (record codec { discarding = d; next_index = 0 }) s
Ready-fresh codec d buf s r = record {
  limit_fits = r.limit_fits;
  scanned_in = omega arith;
  scanned_below = omega arith;
  scanned_lacks = tt;
}

-- What `decode` drops with a line.
pub drop-line : (w rest : Bytes) (n : ℕ) → n ≡ length w → drop (n + 1) (w ++ newline ∷ rest) ≡ rest
drop-line w rest n e =
    let l : n + 1 ≡ length (w ++ newline ∷ []) = omega (arith, length-append w (newline ∷ []), e) in
    rw (l) (
      ap (drop (length (w ++ newline ∷ []))) (sym (append_assoc w (newline ∷ []) rest))
      ∙ drop-length_append (w ++ newline ∷ []) rest)

-- The byte past the limit.
pub over-limit :
    (n : ℕ) (s : Bytes)
    → n < length s
    → (w : Bytes) × (b : ℕ) × (r : Bytes) × (s ≡ w ++ b ∷ r)
      × (length w ≡ n)
      × (take (suc n) s ≡ w ++ b ∷ [])
over-limit n [] h = absurd (omega arith)
over-limit zero (b ∷ s) h = ([], b, s, refl, refl, refl)
over-limit (suc n) (a ∷ s) h =
    let (w, b, r, e, l, t) = over-limit n s (omega arith) in
    (a ∷ w, b, r, ap (λ x. a ∷ x) e, omega (arith, l), ap (λ x. a ∷ x) t)

pub empty-nil : (s : Bytes) → is_empty s ≡ true → s ≡ []
empty-nil [] h = refl
empty-nil (b ∷ s) h = cc

pub nonempty-length : (s : Bytes) → is_empty s ≡ false → 0 < length s
nonempty-length [] h = cc
nonempty-length (b ∷ s) h = omega arith

pub le-or-lt : (a b : ℕ) → (a ≤ b) ⊎ (b < a)
le-or-lt a b = elim (Bool-cases (ltb b a)) [
  | inl h ↦ inr (ground arith)
  | inr h ↦ inl (ground arith)
]
