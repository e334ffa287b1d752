-- ===== src/Server/Codec/Window.antt =====
-- The window that `decode` scans: with the bytes before it, it covers the buffer up to one byte
-- past the limit.
use aprsr.Prelude.{
  ℕ, zero, suc, ◌+◌, ◌^◌, ◌≤◌, ◌<◌, min, [], ◌∷◌, ◌++◌, none, some, length, take, drop, All-append,
  ◌≡◌, ◌≢◌, refl, sym, ap, ◌∙◌, subst, arith, append_assoc, length-append, take-append-drop,
}
use aprsr.Bytes.{Bytes, Lacks, find, find-some, find-none}
use aprsr.Server.Codec.{LineCodec, newline, read_to, newline_in}

-- The bytes that a call has scanned hold no newline, and are at most the limit.
pub record Ready (codec : LineCodec) (buf : Bytes) : Type 0 where
  pub limit_fits : codec.max_length + 1 < 2 ^ 64
  pub scanned_in : codec.next_index ≤ length buf
  pub scanned_below : codec.next_index ≤ codec.max_length
  pub scanned_lacks : Lacks newline (take codec.next_index buf)

pub length-take : (n : ℕ) (s : Bytes) → n ≤ length s → length (take n s) ≡ n
length-take zero s h = refl
length-take (suc n) [] h = omega arith
length-take (suc n) (b ∷ s) h = omega (arith, length-take n s (omega arith))

take-take : (m n : ℕ) (s : Bytes) → m ≤ n → take m (take n s) ≡ take m s
take-take zero n s h = refl
take-take (suc m) zero s h = absurd (omega arith)
take-take (suc m) (suc n) [] h = refl
take-take (suc m) (suc n) (b ∷ s) h = ap (λ t. b ∷ t) (take-take m n s (omega arith))

pub read_to-le :
    (codec : LineCodec) (buf : Bytes) → Ready codec buf → read_to codec buf ≤ length buf
unfolding read_to
read_to-le codec buf r = omega arith

pub read_to_eq :
    (codec : LineCodec) (buf : Bytes)
    → Ready codec buf
    → read_to codec buf ≡ min (codec.max_length + 1) (length buf)
unfolding read_to
read_to_eq codec buf r = let f = r.limit_fits in omega arith

-- What has been scanned, and the window.
window :
    (codec : LineCodec) (buf : Bytes)
    → Ready codec buf
    → take codec.next_index buf ++ drop codec.next_index (take (read_to codec buf) buf)
      ≡ take (read_to codec buf) buf
window codec buf r =
    let e = read_to_eq codec buf r in
    let a = r.scanned_in in
    let b = r.scanned_below in
    ap (λ t. t ++ drop codec.next_index (take (read_to codec buf) buf))
      (sym (take-take codec.next_index (read_to codec buf) buf (omega (arith, e, a, b))))
    ∙ take-append-drop codec.next_index (take (read_to codec buf) buf)

find_in_window :
    (codec : LineCodec) (buf : Bytes)
    → Ready codec buf
    → newline_in codec buf ≡ find newline (drop codec.next_index (take (read_to codec buf) buf))
unfolding newline_in
find_in_window codec buf r =
    let e = read_to_eq codec buf r in
    let a = r.scanned_in in let b = r.scanned_below in ground (arith, e, a, b)

-- No newline in the window: none up to its end.
pub newline_in-none :
    (codec : LineCodec) (buf : Bytes)
    → Ready codec buf
    → newline_in codec buf ≡ none
    → Lacks newline (take (read_to codec buf) buf)
newline_in-none codec buf r h = subst (Lacks newline) (window codec buf r) (
    All-append (λ c. c ≢ newline) (take codec.next_index buf)
      (drop codec.next_index (take (read_to codec buf) buf)) r.scanned_lacks
      (find-none newline (drop codec.next_index (take (read_to codec buf) buf))
        (sym (find_in_window codec buf r) ∙ h)))

-- A newline in the window is the first of the buffer, and the line before it is within the limit.
pub newline_in-some :
    (codec : LineCodec) (buf : Bytes) (offset : ℕ)
    → Ready codec buf
    → newline_in codec buf ≡ some offset
    → (w : Bytes) × (rest : Bytes) × (buf ≡ w ++ newline ∷ rest)
      × Lacks newline w
      × (offset + codec.next_index ≡ length w)
      × (length w ≤ codec.max_length)
newline_in-some codec buf offset r h =
    let seen = take codec.next_index buf in
    let cut = take (read_to codec buf) buf in
    let (p, rest, e, lacks, at) =
      find-some newline (drop codec.next_index cut) offset (sym (find_in_window codec buf r) ∙ h) in
    let line : cut ≡ (seen ++ p) ++ newline ∷ rest =
      sym (window codec buf r)
      ∙ ap (λ t. seen ++ t) e
      ∙ sym (append_assoc seen p (newline ∷ rest)) in
    let whole : buf ≡ (seen ++ p) ++ newline ∷ (rest ++ drop (read_to codec buf) buf) =
      sym (take-append-drop (read_to codec buf) buf)
      ∙ ap (λ t. t ++ drop (read_to codec buf) buf) line
      ∙ append_assoc (seen ++ p) (newline ∷ rest) (drop (read_to codec buf) buf) in
    let ns = length-take codec.next_index buf r.scanned_in in
    let nc = length-take (read_to codec buf) buf (read_to-le codec buf r) in
    let nl = ap length line ∙ length-append (seen ++ p) (newline ∷ rest) in
    let np = length-append seen p in
    let top = read_to_eq codec buf r in
    (
      seen ++ p,
      rest ++ drop (read_to codec buf) buf,
      whole,
      All-append (λ c. c ≢ newline) seen p r.scanned_lacks lacks,
      omega (arith, at, np, ns),
      omega (arith, nl, nc, top, np),
    )
