-- ===== src/Server/Codec/Decode.antt =====
-- One call of `decode`: with more fuel than the buffer has bytes it returns, and what it returns is
-- the next of the lines of the buffer.
use aprsr.Prelude.{
  ℕ, zero, suc, ◌+◌, ◌≤◌, ◌<◌, [], ◌∷◌, Option, none, some, Bool, true, false, length, take, drop,
  is_empty, ◌≡◌, refl, sym, ap, ◌∙◌, subst, arith, append-nil, length-append, length-drop,
  take-append-drop, take-length_append, Bool-cases, Option-cases, inl, inr,
}
use aprsr.Bytes.{Bytes, Lacks}
use aprsr.Server.Codec.{Line, oversized, LineCodec, newline, read_to, newline_in, decode}
use aprsr.Server.Codec.Framing.{
  waiting, skipping, line_of, yields, feed, feed-waiting, feed-skipping, feed-line, feed-skipped,
  feed-oversized, feed-nothing,
}
use aprsr.Server.Codec.Window.{Ready, read_to_eq, newline_in-none, newline_in-some}
use aprsr.Server.Codec.Expected.{
  start, rest_of, rank, Outcome, Outcome-grow, Ready-fresh, drop-line, over-limit, empty-nil,
  nonempty-length, le-or-lt,
}

module _ (codec : LineCodec) (buf : Bytes) (r : Ready codec buf) where
  abbrev pub Returns : ℕ → Bool → Type 0
  Returns fuel d =
      (x : LineCodec × Bytes × Option Line) × (decode fuel codec buf ≡ some x)
      × Outcome codec.max_length (feed codec.max_length (start d) buf) (rank d buf) x

  Ready-behind : (s : Bytes) → Ready (record codec { next_index = 0 }) s
  Ready-behind s = record {
    limit_fits = r.limit_fits;
    scanned_in = omega arith;
    scanned_below = omega arith;
    scanned_lacks = tt;
  }

  decode-line :
      (fuel offset : ℕ)
      → codec.discarding ≡ false
      → newline_in codec buf ≡ some offset
      → Returns (suc fuel) false
  unfolding decode
  decode-line fuel offset d e =
      let (w, rest, split, lacks, at, fits) = newline_in-some codec buf offset r e in
      let dropped : drop (offset + codec.next_index + 1) buf ≡ rest =
        ap (drop (offset + codec.next_index + 1)) split
        ∙ drop-line w rest (offset + codec.next_index) at in
      let taken : take (offset + codec.next_index) buf ≡ w =
        ap (λ n. take n buf) at
        ∙ ap (take (length w)) split
        ∙ take-length_append w (newline ∷ rest) in
      let n = ap length split ∙ length-append w (newline ∷ rest) in
      let lines : feed codec.max_length (waiting []) buf
          ≡ yields (line_of w) (feed codec.max_length (waiting []) rest) =
        ap (feed codec.max_length (waiting [])) split
        ∙ feed-line codec.max_length w rest lacks fits in
      (
        (record codec { next_index = 0 }, rest, some (line_of w)),
        ground (arith, d, e, dropped, taken),
        (
          Ready-behind rest,
          refl,
          subst
              (λ q.
                feed codec.max_length (waiting []) buf
                ≡ yields (line_of w) (feed codec.max_length (start q) rest))
              (sym d) lines,
          subst (λ q. rank q rest < rank false buf) (sym d) (omega (arith, n)),
        ),
      )

  decode-oversized :
      (fuel : ℕ)
      → codec.discarding ≡ false
      → newline_in codec buf ≡ none
      → codec.max_length < length buf
      → Returns (suc fuel) false
  unfolding decode
  decode-oversized fuel d e long =
      let (w, b, rest, split, n, taken) = over-limit codec.max_length buf long in
      let reach : read_to codec buf ≡ suc codec.max_length =
        omega (arith, read_to_eq codec buf r, long) in
      let lacks =
        subst (Lacks newline) (ap (λ k. take k buf) reach ∙ taken)
          (newline_in-none codec buf r e) in
      let lines : feed codec.max_length (waiting []) buf
          ≡ yields oversized (feed codec.max_length skipping buf) =
        subst
          (λ t.
            feed codec.max_length (waiting []) t
            ≡ yields oversized (feed codec.max_length skipping t))
          (sym split) (feed-oversized codec.max_length w b rest lacks n) in
      (
        (record codec { discarding = true }, buf, some oversized),
        ground (arith, d, e, long),
        (
          record {
            limit_fits = r.limit_fits;
            scanned_in = r.scanned_in;
            scanned_below = r.scanned_below;
            scanned_lacks = r.scanned_lacks;
          },
          refl,
          lines,
          omega arith,
        ),
      )

  decode-short :
      (fuel : ℕ)
      → codec.discarding ≡ false
      → newline_in codec buf ≡ none
      → length buf ≤ codec.max_length
      → Returns (suc fuel) false
  unfolding decode
  decode-short fuel d e short =
      let reach : read_to codec buf ≡ length buf = omega (arith, read_to_eq codec buf r, short) in
      let all : take (length buf) buf ≡ buf =
        ap (take (length buf)) (sym (append-nil buf)) ∙ take-length_append buf [] in
      let lacks = subst (λ k. Lacks newline (take k buf)) reach (newline_in-none codec buf r e) in
      let lines : feed codec.max_length (waiting []) buf ≡ (waiting buf, []) =
        ap (feed codec.max_length (waiting [])) (sym (append-nil buf))
        ∙ feed-waiting codec.max_length [] buf [] (subst (Lacks newline) all lacks)
            (omega (arith, short))
        ∙ feed-nothing codec.max_length (waiting buf) in
      (
        (record codec { next_index = length buf }, buf, none),
        ground (arith, d, e, short),
        (
          record {
            limit_fits = r.limit_fits;
            scanned_in = omega arith;
            scanned_below = short;
            scanned_lacks = lacks;
          },
          refl,
          subst (λ q. feed codec.max_length (waiting []) buf ≡ (rest_of q buf, [])) (sym d) lines,
          (λ t. absurd (cc (d, t))),
          subst (λ q. feed codec.max_length (start q) buf ≡ (rest_of q buf, [])) (sym d) lines,
        ),
      )

  decode-resync :
      (fuel offset : ℕ)
      → codec.discarding ≡ true
      → newline_in codec buf ≡ some offset
      → length buf < suc fuel
      → ((s : Bytes) (fresh : Ready (record codec { discarding = false; next_index = 0 }) s)
          → length s < fuel
          → (x : LineCodec × Bytes × Option Line) × (decode fuel
                (record codec { discarding = false; next_index = 0 })
                s
              ≡ some x)
            × Outcome codec.max_length (feed codec.max_length (waiting []) s) (rank false s) x)
      → Returns (suc fuel) true
  unfolding decode
  decode-resync fuel offset d e enough go =
      let (w, rest, split, lacks, at, fits) = newline_in-some codec buf offset r e in
      let dropped : drop (offset + codec.next_index + 1) buf ≡ rest =
        ap (drop (offset + codec.next_index + 1)) split
        ∙ drop-line w rest (offset + codec.next_index) at in
      let n = ap length split ∙ length-append w (newline ∷ rest) in
      let (x, returns, outcome) = go rest (Ready-fresh codec false buf rest r) (omega (arith, n)) in
      let lines : feed codec.max_length skipping buf ≡ feed codec.max_length (waiting []) rest =
        ap (feed codec.max_length skipping) split ∙ feed-skipped codec.max_length w rest lacks in
      (
        x,
        ground (arith, d, e, dropped, returns),
        Outcome-grow codec.max_length (feed codec.max_length (waiting []) rest)
            (feed codec.max_length skipping buf) (rank false rest) (rank true buf) x lines
            (omega (arith, n)) outcome,
      )

  decode-discarded :
      (fuel : ℕ)
      → codec.discarding ≡ true
      → newline_in codec buf ≡ none
      → length buf < suc fuel
      → ((s : Bytes) (fresh : Ready (record codec { next_index = 0 }) s)
          → length s < fuel
          → (x : LineCodec × Bytes × Option Line) × (decode fuel (record codec { next_index = 0 }) s
              ≡ some x)
            × Outcome codec.max_length (feed codec.max_length skipping s) (rank true s) x)
      → Returns (suc fuel) true
  unfolding decode
  decode-discarded fuel d e enough go =
      let left = drop (read_to codec buf) buf in
      let lines : feed codec.max_length skipping buf ≡ feed codec.max_length skipping left =
        ap (feed codec.max_length skipping) (sym (take-append-drop (read_to codec buf) buf))
        ∙ feed-skipping codec.max_length (take (read_to codec buf) buf) left
            (newline_in-none codec buf r e) in
      let n = length-drop (read_to codec buf) buf in
      let reach = read_to_eq codec buf r in
      elim (Bool-cases (is_empty left)) [
        | inl gone ↦
            let nil = empty-nil left gone in
            (
              (record codec { next_index = 0 }, left, none),
              ground (arith, d, e, gone),
              (
                Ready-behind left,
                refl,
                subst (λ q. feed codec.max_length skipping buf ≡ (rest_of q left, [])) (sym d)
                    (lines
                      ∙ ap (feed codec.max_length skipping) nil
                      ∙ feed-nothing codec.max_length skipping),
                (λ t. nil),
                subst (λ q. feed codec.max_length (start q) left ≡ (rest_of q left, [])) (sym d)
                    (ap (feed codec.max_length skipping) nil
                      ∙ feed-nothing codec.max_length skipping),
              ),
            )
        | inr more ↦
            let some_left = nonempty-length left more in
            let (x, returns, outcome) =
              go left (Ready-behind left) (omega (arith, n, reach, some_left)) in
            (
              x,
              ground (arith, d, e, more, returns),
              Outcome-grow codec.max_length (feed codec.max_length skipping left)
                  (feed codec.max_length skipping buf) (rank true left) (rank true buf) x lines
                  (omega (arith, n)) outcome,
            )
      ]

-- A call of `decode` returns with more fuel than the buffer has bytes, from every state whose scan
-- position fits the buffer. It returns the next line that the reference framing has for the buffer,
-- with a state and a buffer of a smaller rank, so that the calls on one buffer come to an end; or
-- nothing, where the framing has no further line, and then the buffer that is left is what the framing
-- leaves, and it is empty while an over-long line is discarded.
pub decode-Returns :
    (fuel : ℕ) (codec : LineCodec) (buf : Bytes) (r : Ready codec buf)
    → length buf < fuel
    → Returns codec buf r fuel codec.discarding
decode-Returns zero codec buf r h = absurd (omega arith)
decode-Returns (suc fuel) codec buf r h = elim (Bool-cases codec.discarding) [
  | inr d ↦
      subst (Returns codec buf r (suc fuel)) (sym d) (elim (Option-cases (newline_in codec buf)) [
        | inr (offset, e) ↦ decode-line codec buf r fuel offset d e
        | inl e ↦ elim (le-or-lt (length buf) codec.max_length) [
          | inl short ↦ decode-short codec buf r fuel d e short
          | inr long ↦ decode-oversized codec buf r fuel d e long
        ]
      ])
  | inl d ↦
      subst (Returns codec buf r (suc fuel)) (sym d) (elim (Option-cases (newline_in codec buf)) [
        | inr (offset, e) ↦ decode-resync codec buf r fuel offset d e h (λ s fresh less.
            decode-Returns fuel (record codec { discarding = false; next_index = 0 }) s fresh less)
        | inl e ↦ decode-discarded codec buf r fuel d e h (λ s fresh less.
            let (x, returns, outcome) =
              decode-Returns fuel (record codec { next_index = 0 }) s fresh less in
            (
              x,
              returns,
              subst (λ q. Outcome codec.max_length (feed codec.max_length (start q) s) (rank q s) x)
                  d outcome,
            ))
      ])
]
