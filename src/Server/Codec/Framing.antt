-- ===== src/Server/Codec/Framing.antt =====
-- The lines of a stream of bytes, read one byte at a time: what the codec is to yield.
use aprsr.Prelude.{
  ℕ, ◌+◌, ◌≤◌, List, [], ◌∷◌, ◌++◌, true, false, ltb, ◌==◌, length, ◌≡◌, refl, sym, ap, ◌∙◌, arith,
  append-nil, append_assoc, length-append, ◌≢◌, All-left, All-right,
}
use aprsr.Bytes.{Bytes, Lacks}
use aprsr.Server.Codec.{Line, oversized, decode_line, strip_carriage_return, newline}

-- Inside a line, with what has been read of it, or inside the rest of a line that is too long.
pub data Reading : Type 0 where
  waiting : Bytes → Reading
  skipping : Reading

abbrev pub line_of : Bytes → Line
line_of bytes = decode_line (strip_carriage_return bytes)

abbrev pub yields : Line → Reading × List Line → Reading × List Line
yields line (r, lines) = (r, line ∷ lines)

-- At a newline the line is yielded; the byte that makes it longer than `limit` yields `oversized`,
-- and the bytes up to the next newline are skipped.
unfoldable pub feed : ℕ → Reading → Bytes → Reading × List Line
feed limit r [] = (r, [])
feed limit (waiting p) (b ∷ s) = elim (b == newline) [
  | true ↦ yields (line_of p) (feed limit (waiting []) s)
  | false ↦ elim (ltb (length p) limit) [
    | true ↦ feed limit (waiting (p ++ b ∷ [])) s
    | false ↦ yields oversized (feed limit skipping s)
  ]
]
feed limit skipping (b ∷ s) = elim (b == newline) [
  | true ↦ feed limit (waiting []) s
  | false ↦ feed limit skipping s
]

pub feed-nothing : (limit : ℕ) (r : Reading) → feed limit r [] ≡ (r, [])
unfolding feed
feed-nothing limit (waiting p) = refl
feed-nothing limit skipping = refl

pub feed-waiting :
    (limit : ℕ) (p w r : Bytes)
    → Lacks newline w
    → length p + length w ≤ limit
    → feed limit (waiting p) (w ++ r) ≡ feed limit (waiting (p ++ w)) r
unfolding feed
feed-waiting limit p [] r lacks fits = rw (append-nil p) refl
feed-waiting limit p (b ∷ w) r (nb, lacks) fits =
    let more =
      feed-waiting limit (p ++ b ∷ []) w r lacks (omega (arith, length-append p (b ∷ []))) in
    ground (arith, more, append_assoc p (b ∷ []) w)

pub feed-skipping :
    (limit : ℕ) (w r : Bytes)
    → Lacks newline w
    → feed limit skipping (w ++ r) ≡ feed limit skipping r
unfolding feed
feed-skipping limit [] r lacks = refl
feed-skipping limit (b ∷ w) r (nb, lacks) = ground (arith, feed-skipping limit w r lacks)

pub feed-line :
    (limit : ℕ) (w r : Bytes)
    → Lacks newline w
    → length w ≤ limit
    → feed limit (waiting []) (w ++ newline ∷ r) ≡ yields (line_of w) (feed limit (waiting []) r)
unfolding feed
feed-line limit w r lacks fits = feed-waiting limit [] w (newline ∷ r) lacks (omega arith)

pub feed-skipped :
    (limit : ℕ) (w r : Bytes)
    → Lacks newline w
    → feed limit skipping (w ++ newline ∷ r) ≡ feed limit (waiting []) r
unfolding feed
feed-skipped limit w r lacks = feed-skipping limit w (newline ∷ r) lacks

feed-full :
    (limit : ℕ) (w : Bytes) (b : ℕ) (r : Bytes)
    → b ≢ newline
    → length w ≡ limit
    → feed limit (waiting w) (b ∷ r) ≡ yields oversized (feed limit skipping r)
unfolding feed
feed-full limit w b r nb full = ground arith

-- A line that is too long, and where it is read on.
pub feed-oversized :
    (limit : ℕ) (w : Bytes) (b : ℕ) (r : Bytes)
    → Lacks newline (w ++ b ∷ [])
    → length w ≡ limit
    → feed limit (waiting []) (w ++ b ∷ r) ≡ yields oversized (feed limit skipping (w ++ b ∷ r))
feed-oversized limit w b r lacks full =
    let lw = All-left (λ c. c ≢ newline) w (b ∷ []) lacks in
    let (nb, _) = All-right (λ c. c ≢ newline) w (b ∷ []) lacks in
    let skip : feed limit skipping (w ++ b ∷ r) ≡ feed limit skipping r =
      ap (feed limit skipping) (sym (append_assoc w (b ∷ []) r))
      ∙ feed-skipping limit (w ++ b ∷ []) r lacks in
    feed-waiting limit [] w (b ∷ r) lw (omega (arith, full))
    ∙ feed-full limit w b r nb full
    ∙ ap (yields oversized) (sym skip)
