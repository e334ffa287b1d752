-- ===== src/Server/Codec/Stream.antt =====
-- A connection: the bytes arrive in chunks, and after each the reader takes the lines that are
-- complete. What it takes does not depend on where the chunks end.
use aprsr.Prelude.{
  ℕ, zero, suc, ◌+◌, ◌*◌, ◌≤◌, ◌<◌, List, [], ◌∷◌, ◌++◌, Option, none, some, Bool, true, false,
  length, take, All, ◌≢◌, ◌≡◌, refl, sym, ap, ◌∙◌, subst, arith, length-append,
}
use aprsr.Bytes.{Bytes}
use aprsr.Server.Codec.{Line, LineCodec, newline, decode, drain}
use aprsr.Server.Codec.Framing.{Reading, waiting, skipping, yields, feed, feed-nothing}
use aprsr.Server.Codec.Window.{Ready}
use aprsr.Server.Codec.Expected.{start, rest_of, rank, Settled, Outcome}
use aprsr.Server.Codec.Decode.{decode-Returns}

-- What a reader stands with after it took every complete line.
abbrev pub Rest : ℕ → Reading × List Line → LineCodec × Bytes × List Line → Type 0
Rest limit lines (codec, buf, taken) =
    Ready codec buf
    × (codec.max_length ≡ limit)
    × (lines ≡ (rest_of codec.discarding buf, taken))
    × (codec.discarding ≡ true → buf ≡ [])
    × Settled limit codec buf

abbrev Drained : ℕ → LineCodec → Bytes → Type 0
Drained fuel codec buf =
    (x : LineCodec × Bytes × List Line) × (drain fuel codec buf ≡ some x)
    × Rest codec.max_length (feed codec.max_length (start codec.discarding) buf) x

Rest-yields :
    (limit : ℕ) (line : Line) (lines rest : Reading × List Line) (codec : LineCodec) (buf : Bytes)
    (taken : List Line)
    → lines ≡ yields line rest
    → Rest limit rest (codec, buf, taken)
    → Rest limit lines (codec, buf, line ∷ taken)
Rest-yields limit line lines rest codec buf taken e (ready, same, f, gone, settled) =
    (ready, same, e ∙ ap (yields line) f, gone, settled)

drain-next :
    (fuel : ℕ) (codec : LineCodec) (buf : Bytes) (x : LineCodec × Bytes × Option Line)
    → rank codec.discarding buf < suc fuel
    → decode (length buf + 1) codec buf ≡ some x
    → Outcome codec.max_length
        (feed codec.max_length (start codec.discarding) buf)
        (rank codec.discarding buf)
        x
    → ((c : LineCodec) (b : Bytes) → Ready c b → rank c.discarding b < fuel → Drained fuel c b)
    → Drained (suc fuel) codec buf
unfolding drain
drain-next fuel codec buf (codec', buf', none) h returns outcome go =
    ((codec', buf', []), ground (arith, returns), outcome)
drain-next fuel codec buf (codec', buf', some line) h returns (ready, limit, lines, falls) go =
    let ((codec'', buf'', taken), rest_returns, rest) = go codec' buf' ready (omega arith) in
    let at : Rest codec.max_length (feed codec.max_length (start codec'.discarding) buf')
        (codec'', buf'', taken) =
      subst (λ n. Rest n (feed n (start codec'.discarding) buf') (codec'', buf'', taken)) limit
        rest in
    (
      (codec'', buf'', line ∷ taken),
      ground (arith, returns, rest_returns),
      Rest-yields codec.max_length line (feed codec.max_length (start codec.discarding) buf)
          (feed codec.max_length (start codec'.discarding) buf') codec'' buf'' taken lines at,
    )

drain-returns :
    (fuel : ℕ) (codec : LineCodec) (buf : Bytes)
    → Ready codec buf
    → rank codec.discarding buf < fuel
    → Drained fuel codec buf
drain-returns zero codec buf r h = absurd (omega arith)
drain-returns (suc fuel) codec buf r h =
    let (x, returns, outcome) = decode-Returns (length buf + 1) codec buf r (omega arith) in
    drain-next fuel codec buf x h returns outcome
      (λ c b ready less. drain-returns fuel c b ready less)

feed-append :
    (limit : ℕ) (r : Reading) (s t : Bytes)
    → feed limit r (s ++ t) ≡ (
      (feed limit (feed limit r s).0 t).0,
      (feed limit r s).1 ++ (feed limit (feed limit r s).0 t).1,
    )
unfolding feed
feed-append limit (waiting p) [] t = refl
feed-append limit skipping [] t = refl
feed-append limit (waiting p) (b ∷ s) t =
    let a = feed-append limit (waiting []) s t in
    let c = feed-append limit (waiting (p ++ b ∷ [])) s t in
    let d = feed-append limit skipping s t in ground arith
feed-append limit skipping (b ∷ s) t =
    let a = feed-append limit (waiting []) s t in
    let d = feed-append limit skipping s t in ground arith

-- The chunks that a connection receives: the lines that are taken after each.
unfoldable pub receive : List Bytes → LineCodec → Bytes → Option (LineCodec × Bytes × List Line)
receive [] codec buf = some (codec, buf, [])
receive (chunk ∷ chunks) codec buf =
    elim (drain (2 * length (buf ++ chunk) + 2) codec (buf ++ chunk)) [
      | none ↦ none
      | some (codec', buf', lines) ↦ elim (receive chunks codec' buf') [
        | none ↦ none
        | some (codec'', buf'', more) ↦ some (codec'', buf'', lines ++ more)
      ]
    ]

abbrev pub concat : List Bytes → Bytes
concat [] = []
concat (chunk ∷ chunks) = chunk ++ concat chunks

take-within : (n : ℕ) (s t : Bytes) → n ≤ length s → take n (s ++ t) ≡ take n s
take-within zero s t h = refl
take-within (suc n) [] t h = absurd (omega arith)
take-within (suc n) (b ∷ s) t h = ap (λ r. b ∷ r) (take-within n s t (omega arith))

Ready-append :
    (codec : LineCodec) (buf chunk : Bytes) → Ready codec buf → Ready codec (buf ++ chunk)
Ready-append codec buf chunk r =
    let n = r.scanned_in in
    record {
      limit_fits = r.limit_fits;
      scanned_in = omega (arith, n, length-append buf chunk);
      scanned_below = r.scanned_below;
      scanned_lacks =
          subst (All (λ c. c ≢ newline)) (sym (take-within codec.next_index buf chunk n))
            r.scanned_lacks;
    }

rank-bound : (d : Bool) (s : Bytes) → rank d s < 2 * length s + 2
rank-bound true s = omega arith
rank-bound false s = omega arith

-- A settled reader reads on where the chunk before ended.
Settled-append :
    (limit : ℕ) (codec : LineCodec) (buf chunk : Bytes)
    → Settled limit codec buf
    → feed limit (start codec.discarding) (buf ++ chunk)
      ≡ feed limit (rest_of codec.discarding buf) chunk
Settled-append limit codec buf chunk s =
    feed-append limit (start codec.discarding) buf chunk
    ∙ ap (λ (p : Reading × List Line). ((feed limit p.0 chunk).0, p.1 ++ (feed limit p.0 chunk).1))
        s

abbrev pub Received : List Bytes → LineCodec → Bytes → Type 0
Received chunks codec buf =
    (x : LineCodec × Bytes × List Line) × (receive chunks codec buf ≡ some x)
    × Rest codec.max_length (feed codec.max_length (rest_of codec.discarding buf) (concat chunks)) x

Rest-then :
    (limit : ℕ) (r : Reading) (chunk more : Bytes) (mid : Reading) (lines : List Line)
    (codec : LineCodec) (buf : Bytes) (taken : List Line)
    → feed limit r chunk ≡ (mid, lines)
    → Rest limit (feed limit mid more) (codec, buf, taken)
    → Rest limit (feed limit r (chunk ++ more)) (codec, buf, lines ++ taken)
Rest-then limit r chunk more mid lines codec buf taken e (ready, same, f, gone, settled) = (
  ready,
  same,
  feed-append limit r chunk more
      ∙ ap (λ (p : Reading × List Line). ((feed limit p.0 more).0, p.1 ++ (feed limit p.0 more).1))
          e
      ∙ ap (λ (p : Reading × List Line). (p.0, lines ++ p.1)) f,
  gone,
  settled,
)

pub receive-Rest :
    (chunks : List Bytes) (codec : LineCodec) (buf : Bytes)
    → Ready codec buf
    → (codec.discarding ≡ true → buf ≡ [])
    → Settled codec.max_length codec buf
    → Received chunks codec buf
unfolding receive
receive-Rest [] codec buf r gone s = (
  (codec, buf, []),
  refl,
  (r, refl, feed-nothing codec.max_length (rest_of codec.discarding buf), gone, s),
)
receive-Rest (chunk ∷ chunks) codec buf r gone s =
    let L = codec.max_length in
    let ((c, b, lines), drained, (ready, limit, fed, gone', settled)) =
      drain-returns (2 * length (buf ++ chunk) + 2) codec (buf ++ chunk)
        (Ready-append codec buf chunk r) (rank-bound codec.discarding (buf ++ chunk)) in
    let ((c', b', more), received, rest) =
      receive-Rest chunks c b ready gone' (subst (λ n. Settled n c b) (sym limit) settled) in
    let at : Rest L (feed L (rest_of c.discarding b) (concat chunks)) (c', b', more) =
      subst (λ n. Rest n (feed n (rest_of c.discarding b) (concat chunks)) (c', b', more)) limit
        rest in
    (
      (c', b', lines ++ more),
      ground (arith, drained, received),
      Rest-then L (rest_of codec.discarding buf) chunk (concat chunks) (rest_of c.discarding b)
          lines c' b' more (sym (Settled-append L codec buf chunk s) ∙ fed) at,
    )
