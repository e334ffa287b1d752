-- ===== src/Server/Codec/Close.antt =====
-- The end of a connection, and the connection as a whole.
use aprsr.Prelude.{
  ℕ, ◌+◌, ◌^◌, ◌<◌, List, [], ◌∷◌, ◌++◌, Option, none, some, true, length, Bool-cases, inl, inr,
  cons-ne-nil, ◌≡◌, refl, sym, ap, ◌∙◌, subst, arith,
}
use aprsr.Bytes.{Bytes}
use aprsr.Server.Codec.{Line, LineCodec, with_max_length, decode, flush, decode_eof}
use aprsr.Server.Codec.Framing.{Reading, waiting, skipping, line_of, feed}
use aprsr.Server.Codec.Window.{Ready}
use aprsr.Server.Codec.Expected.{start, rest_of, rank, Settled, Outcome}
use aprsr.Server.Codec.Decode.{decode-Returns}
use aprsr.Server.Codec.Stream.{receive, receive-Rest, concat}

abbrev last : Option Line → List Line
last none = []
last (some line) = line ∷ []

-- The whole connection: the lines of the chunks, and the one that the end of the stream leaves.
unfoldable pub read_all : ℕ → List Bytes → Option (List Line)
read_all limit chunks = elim (receive chunks (with_max_length limit) []) [
  | none ↦ none
  | some (codec, buf, lines) ↦ elim (decode_eof (length buf + 1) codec buf) [
    | none ↦ none
    | some (_, _, item) ↦ some (lines ++ last item)
  ]
]

-- What the end of the stream makes of a line that is not complete.
abbrev pub final : Reading → List Line
final (waiting []) = []
final (waiting (b ∷ p)) = line_of (b ∷ p) ∷ []
final skipping = []

flush-final :
    (codec : LineCodec) (buf : Bytes)
    → (codec.discarding ≡ true → buf ≡ [])
    → last (flush (codec, buf, none)).2 ≡ final (rest_of codec.discarding buf)
unfolding flush
flush-final codec [] gone = elim (Bool-cases codec.discarding) [
  | inl d ↦ subst (λ q. [] ≡ final (rest_of q [])) (sym d) refl
  | inr d ↦ subst (λ q. [] ≡ final (rest_of q [])) (sym d) refl
]
flush-final codec (b ∷ buf) gone = elim (Bool-cases codec.discarding) [
  | inl d ↦ absurd (cons-ne-nil b buf (gone d))
  | inr d ↦ subst (λ q. line_of (b ∷ buf) ∷ [] ≡ final (rest_of q (b ∷ buf))) (sym d) refl
]

Ended : LineCodec → Bytes → Type 0
Ended codec buf =
    (y : LineCodec × Bytes × Option Line) × (decode_eof (length buf + 1) codec buf ≡ some y)
    × (last y.2 ≡ final (rest_of codec.discarding buf))

Settled-Ended :
    (codec : LineCodec) (buf : Bytes) (x : LineCodec × Bytes × Option Line)
    → Settled codec.max_length codec buf
    → decode (length buf + 1) codec buf ≡ some x
    → Outcome codec.max_length
        (feed codec.max_length (start codec.discarding) buf)
        (rank codec.discarding buf)
        x
    → Ended codec buf
unfolding decode_eof Ended
Settled-Ended codec buf (codec', buf', some line) settled returns (_, _, lines, _) = absurd (
    cons-ne-nil line (feed codec.max_length (start codec'.discarding) buf').1
      (ap (λ (p : Reading × List Line). p.1) (sym lines ∙ settled)))
Settled-Ended codec buf (codec', buf', none) settled returns (_, _, lines, gone, _) = (
  flush (codec', buf', none),
  ground (arith, returns),
  flush-final codec' buf' gone ∙ ap (λ (p : Reading × List Line). final p.0) (sym lines ∙ settled),
)

decode_eof-Ended :
    (codec : LineCodec) (buf : Bytes)
    → Ready codec buf
    → Settled codec.max_length codec buf
    → Ended codec buf
decode_eof-Ended codec buf r settled =
    let (x, returns, outcome) = decode-Returns (length buf + 1) codec buf r (omega arith) in
    Settled-Ended codec buf x settled returns outcome

-- The lines of a stream, byte by byte.
abbrev pub lines_of : ℕ → Bytes → List Line
lines_of limit s = (feed limit (waiting []) s).1 ++ final (feed limit (waiting []) s).0

-- However the bytes of a connection are cut into chunks, the codec terminates on each and yields the
-- lines that the stream as a whole has when it is read one byte at a time: an over-long line once,
-- as `Oversized`, and the lines behind it in full; the end of the stream ends its last line.
pub read_all-lines_of :
    (limit : ℕ) (chunks : List Bytes)
    → limit + 1 < 2 ^ 64
    → read_all limit chunks ≡ some (lines_of limit (concat chunks))
unfolding read_all with_max_length feed Ended
read_all-lines_of limit chunks fits =
    let fresh : Ready (with_max_length limit) [] = record {
      limit_fits = fits;
      scanned_in = omega arith;
      scanned_below = omega arith;
      scanned_lacks = tt;
    } in
    let ((codec, buf, taken), received, (ready, same, fed, gone, settled)) =
      receive-Rest chunks (with_max_length limit) [] fresh (λ _. refl) refl in
    let ((c, b, item), ended, at_end) =
      decode_eof-Ended codec buf ready (subst (λ n. Settled n codec buf) (sym same) settled) in
    let left : feed limit (waiting []) (concat chunks) ≡ (rest_of codec.discarding buf, taken) =
      fed in
    ground (arith, received, ended, at_end, left)
