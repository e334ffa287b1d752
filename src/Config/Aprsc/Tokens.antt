-- ===== src/Config/Aprsc/Tokens.antt =====
-- Quoted tokens are read back (`tokenize` of crates/aprsr-config/src/aprsc.rs).
use aprsr.Prelude.{
  ℕ, List, [], ◌∷◌, ◌++◌, Option, none, some, true, false, ◌≡◌, refl, sym, ap, ◌∙◌, arith, All, ok,
  map, append_assoc, append-nil, if◌then◌else◌,
}
use aprsr.Bytes.{
  Bytes, codes, str_eq, str_eq_iff, chars, Lacks, Begins, concat, concat-chars, chars-Lacks,
  chars-Begins, chars-append, join_spaces, is_whitespace,
}
use aprsr.Config.Aprsc.{Scan, new_scan, end_token, scan_char, scan_chars, tokenize}

abbrev pub quote : ℕ
quote = 0x22

-- A token that can stand between quotes.
pub record IsQuotable (token : Bytes) : Type 0 where
  pub unquoted : Lacks quote token
  pub begins : Begins token

abbrev pub quoted : Bytes → Bytes
quoted token = quote ∷ (token ++ quote ∷ [])

-- A comment behind the tokens, if there is one.
abbrev pub remark : Option Bytes → Bytes
remark none = []
remark (some comment) = b' ' ∷ b'#' ∷ comment

abbrev pub IsRemark : Option Bytes → Type 0
IsRemark none = Unit {0}
IsRemark (some comment) = Begins comment

abbrev outside : List Bytes → Scan
outside tokens = record { tokens = tokens; current = []; has_token = false; in_quotes = false }

abbrev inside : List Bytes → Bytes → Scan
inside tokens current = record {
  tokens = tokens;
  current = current;
  has_token = true;
  in_quotes = true;
}

abbrev behind : List Bytes → Bytes → Scan
behind tokens current = record {
  tokens = tokens;
  current = current;
  has_token = true;
  in_quotes = false;
}

not_quote : (ch : Bytes) → Lacks quote ch → str_eq ch (codes "\"") ≡ false
not_quote ch h = ground (arith, str_eq_iff ch (codes "\""))

scan_char-inside :
    (tokens : List Bytes) (current ch : Bytes)
    → Lacks quote ch
    → scan_char (inside tokens current) ch ≡ some (inside tokens (current ++ ch))
unfolding scan_char
scan_char-inside tokens current ch h = ground (arith, not_quote ch h)

scan_chars-step :
    (s s' : Scan) (ch : Bytes) (rest : List Bytes)
    → scan_char s ch ≡ some s'
    → scan_chars s (ch ∷ rest) ≡ scan_chars s' rest
unfolding scan_chars
scan_chars-step s s' ch rest e = rw (e, scan_chars) refl

-- The loop between two quotes.
scan_chars-inside :
    (tokens : List Bytes) (current : Bytes) (cs rest : List Bytes)
    → All (Lacks quote) cs
    → scan_chars (inside tokens current) (cs ++ rest)
      ≡ scan_chars (inside tokens (current ++ concat cs)) rest
scan_chars-inside tokens current [] rest h =
    ap (λ t. scan_chars (inside tokens t) rest) (sym (append-nil current))
scan_chars-inside tokens current (ch ∷ cs) rest h =
    scan_chars-step (inside tokens current) _ ch (cs ++ rest)
      (scan_char-inside tokens current ch h.0)
    ∙ scan_chars-inside tokens (current ++ ch) cs rest h.1
    ∙ ap (λ t. scan_chars (inside tokens t) rest) (append_assoc current ch (concat cs))

Begins-append : (w rest : Bytes) → Begins w → Begins (w ++ quote ∷ rest)
Begins-append [] rest h = refl
Begins-append (c ∷ w) rest h = h

-- A quoted token, from the quote that opens it to the one that closes it.
scan_chars-quoted :
    (tokens : List Bytes) (w rest : Bytes)
    → IsQuotable w
    → Begins rest
    → scan_chars (outside tokens) (chars (quote ∷ (w ++ quote ∷ rest)))
      ≡ scan_chars (behind tokens w) (chars rest)
unfolding scan_chars scan_char str_eq
scan_chars-quoted tokens w rest h b =
    ap (scan_chars (outside tokens))
      (chars-Begins quote (w ++ quote ∷ rest) (Begins-append w rest h.begins))
    ∙ ap (scan_chars (inside tokens []))
        (chars-append w rest quote refl ∙ ap (λ t. chars w ++ t) (chars-Begins quote rest b))
    ∙ scan_chars-inside tokens [] (chars w) ((quote ∷ []) ∷ chars rest)
        (chars-Lacks quote w h.unquoted)
    ∙ ap (λ t. scan_chars (behind tokens t) (chars rest)) (concat-chars w)

-- The text behind the closing quote of a token.
abbrev line_after : List Bytes → Bytes → Bytes
line_after [] end = end
line_after (w ∷ ws) end = b' ' ∷ quote ∷ (w ++ quote ∷ line_after ws end)

-- The end of the loop: outside quotes, with these tokens once the last is closed.
abbrev Settled : List Bytes → Scan → Type 0
Settled tokens s =
    (s.in_quotes ≡ false)
    × ((if s.has_token then s.tokens ++ s.current ∷ [] else s.tokens) ≡ tokens)

Begins-line_after : (ws : List Bytes) (r : Option Bytes) → Begins (line_after ws (remark r))
Begins-line_after [] none = tt
Begins-line_after [] (some c) = refl
Begins-line_after (w ∷ ws) r = refl

after_space :
    (tokens : List Bytes) (w rest : Bytes)
    → Begins rest
    → scan_chars (behind tokens w) (chars (b' ' ∷ rest))
      ≡ scan_chars (outside (tokens ++ w ∷ [])) (chars rest)
unfolding scan_chars scan_char end_token str_eq is_whitespace
after_space tokens w rest b = rw (chars-Begins b' ' rest b) refl

at_comment :
    (tokens : List Bytes) (comment : Bytes)
    → Begins comment
    → scan_chars (outside tokens) (chars (b'#' ∷ comment)) ≡ outside tokens
unfolding scan_chars scan_char str_eq
at_comment tokens comment b = rw (chars-Begins b'#' comment b) refl

rest-Settled :
    (tokens : List Bytes) (w : Bytes) (ws : List Bytes) (r : Option Bytes)
    → All IsQuotable ws
    → IsRemark r
    → Settled (tokens ++ w ∷ ws) (scan_chars (behind tokens w) (chars (line_after ws (remark r))))
unfolding scan_chars chars
rest-Settled tokens w [] none h k = (refl, refl)
rest-Settled tokens w [] (some c) h k =
    rw (after_space tokens w (b'#' ∷ c) refl, at_comment (tokens ++ w ∷ []) c k) (refl, refl)
rest-Settled tokens w (v ∷ ws) r h k =
    rw
      (
        after_space tokens w (quote ∷ (v ++ quote ∷ line_after ws (remark r))) refl,
        scan_chars-quoted (tokens ++ w ∷ []) v (line_after ws (remark r)) h.0
            (Begins-line_after ws r),
        ← append_assoc tokens (w ∷ []) (v ∷ ws),
      )
      (rest-Settled (tokens ++ w ∷ []) v ws r h.1 k)

-- The line is its first quote, and what stands behind the last.
join_spaces-quoted :
    (w : Bytes) (ws : List Bytes) (end : Bytes)
    → join_spaces (map quoted (w ∷ ws)) ++ end ≡ quote ∷ (w ++ quote ∷ line_after ws end)
unfolding join_spaces
join_spaces-quoted w [] end = ap (λ t. quote ∷ t) (append_assoc w (quote ∷ []) end)
join_spaces-quoted w (v ∷ ws) end =
    append_assoc (quoted w) (b' ' ∷ join_spaces (map quoted (v ∷ ws))) end
    ∙ ap (λ t. quote ∷ t) (append_assoc w (quote ∷ []) _)
    ∙ ap (λ t. quote ∷ (w ++ quote ∷ b' ' ∷ t)) (join_spaces-quoted v ws end)

Settled-tokenize :
    (tokens : List Bytes) (raw : Bytes) (line : ℕ)
    → Settled tokens (scan_chars new_scan (chars raw))
    → tokenize raw line ≡ ok tokens
unfolding tokenize
Settled-tokenize tokens raw line (closed, e) = rw (closed, e) refl

remark-Settled :
    (r : Option Bytes) → IsRemark r → Settled [] (scan_chars (outside []) (chars (remark r)))
unfolding scan_chars scan_char chars str_eq is_whitespace end_token
remark-Settled none h = (refl, refl)
remark-Settled (some c) h =
    rw (chars-Begins b' ' (b'#' ∷ c) refl, chars-Begins b'#' c h) (refl, refl)

-- Tokens that are written between quotes, one space apart, are read back as they are, whatever white
-- space, comment signs or empty tokens are among them; a comment behind them is left out.
pub tokenize-quoted :
    (tokens : List Bytes) (comment : Option Bytes) (line : ℕ)
    → All IsQuotable tokens
    → IsRemark comment
    → tokenize (join_spaces (map quoted tokens) ++ remark comment) line ≡ ok tokens
unfolding new_scan join_spaces
tokenize-quoted [] r line h k = Settled-tokenize [] (remark r) line (remark-Settled r k)
tokenize-quoted (w ∷ ws) r line h k = Settled-tokenize (w ∷ ws) _ line (
    rw
      (
        join_spaces-quoted w ws (remark r),
        scan_chars-quoted [] w (line_after ws (remark r)) h.0 (Begins-line_after ws r),
      )
      (rest-Settled [] w ws r h.1 k))
