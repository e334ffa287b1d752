-- ===== src/Config/Aprsc/Added.antt =====
-- What directives add to the draft of a configuration (`convert` of
-- crates/aprsr-config/src/aprsc.rs).
use aprsr.Prelude.{
  ℕ, ◌+◌, List, [], ◌∷◌, ◌++◌, Bool, true, false, ◌≡◌, refl, arith, length, length-append, All,
  All-append, All-left, ◌↔◌, if◌then◌else◌, Result, ok, err, ◌>>=◌, get_elem?, Yields-imp,
  Yields-then, Yields, yields, refuses, Yields-bind,
}
use aprsr.Bytes.{Bytes, codes}
use aprsr.Config.{Addresses, Listener}
use aprsr.Numbers.{parse_i32, parse_u64}
use aprsr.Config.Aprsc.{
  ConvertError, unterminated_quote, Warning, tokenize, single, number, interval, parse_uplink,
}
use aprsr.Config.Aprsc.Listen.{address}
use aprsr.Config.Aprsc.Convert.{
  Directive, server_id, passcode, my_admin, my_email, run_dir, file_limit, client_timeout,
  upstream_timeout, listen, uplink, http_status, http_upload, uplink_bind, log_rotate,
  magic_badness, other, directive_of, Draft, warn, apply_directive, apply_tokens, apply_line,
  apply_lines,
}
use aprsr.Config.Aprsc.Named.{IsNamed, NamedPair, parse_listen-NamedPair}

abbrev pub is_listen : Directive → ℕ
is_listen listen = 1
is_listen _ = 0

abbrev pub is_uplink : Directive → ℕ
is_uplink uplink = 1
is_uplink _ = 0

module _ (addresses : Addresses) where
  -- What a directive adds to the draft.
  record Adds (which : Directive) (d d' : Draft addresses) : Type 0 where
    listeners : length d'.listeners ≡ length d.listeners + is_listen which
    uplinks : length d'.uplinks ≡ length d.uplinks + is_uplink which
    named : All (IsNamed addresses) d.listeners ↔ All (IsNamed addresses) d'.listeners

  -- A directive that leaves the listeners and the uplinks alone.
  keeps :
      (which : Directive) (d d' : Draft addresses)
      → is_listen which ≡ 0
      → is_uplink which ≡ 0
      → d'.listeners ≡ d.listeners
      → d'.uplinks ≡ d.uplinks
      → Adds which d d'
  keeps which d d' l u e f = record {
    listeners = rw (e, l) (omega arith);
    uplinks = rw (f, u) (omega arith);
    named = rw e ((λ h. h), (λ h. h));
  }

  one_more :
      (ls : List (Listener addresses)) (l : Listener addresses)
      → IsNamed addresses l
      → All (IsNamed addresses) ls ↔ All (IsNamed addresses) (ls ++ l ∷ [])
  one_more ls l h = (
    λ k. All-append (IsNamed addresses) ls (l ∷ []) k (h, tt),
    λ k. All-left (IsNamed addresses) ls (l ∷ []) k,
  )

  listen-Adds :
      (d : Draft addresses) (m : Result (Listener addresses × List Warning) ConvertError)
      → Yields (NamedPair addresses) m
      → Yields
          (Adds listen d)
          (m >>= (λ r. ok (record d { listeners = d.listeners ++ r.0 ∷ []; warnings = r.1 })))
  listen-Adds d (ok r) (yields _ h) = yields _ (record {
    listeners = omega (arith, length-append d.listeners (r.0 ∷ []));
    uplinks = omega arith;
    named = one_more d.listeners r.0 h;
  })
  listen-Adds d (err e) y = refuses e

  apply_directive-Adds :
      (line : ℕ) (word : Bytes) (args : List Bytes) (d : Draft addresses) (which : Directive)
      → Yields (Adds which d) (apply_directive addresses line word args d which)
  unfolding apply_directive warn
  apply_directive-Adds line word args d server_id =
      Yields-bind _ (single line word args) _ (λ _. yields _ (keeps _ d _ refl refl refl refl))
  apply_directive-Adds line word args d passcode = Yields-bind _ (single line word args) _ (λ text.
      Yields-bind _ (number parse_i32 line (codes "passcode") text) _
        (λ _. yields _ (keeps _ d _ refl refl refl refl)))
  apply_directive-Adds line word args d my_admin =
      Yields-bind _ (single line word args) _ (λ _. yields _ (keeps _ d _ refl refl refl refl))
  apply_directive-Adds line word args d my_email =
      Yields-bind _ (single line word args) _ (λ _. yields _ (keeps _ d _ refl refl refl refl))
  apply_directive-Adds line word args d run_dir =
      Yields-bind _ (single line word args) _ (λ _. yields _ (keeps _ d _ refl refl refl refl))
  apply_directive-Adds line word args d file_limit =
      Yields-bind _ (single line word args) _ (λ text.
        Yields-bind _ (number parse_u64 line (codes "file limit") text) _
          (λ _. yields _ (keeps _ d _ refl refl refl refl)))
  apply_directive-Adds line word args d client_timeout =
      Yields-bind _ (single line word args) _ (λ text.
        Yields-bind _ (interval line text) _ (λ _. yields _ (keeps _ d _ refl refl refl refl)))
  apply_directive-Adds line word args d upstream_timeout =
      Yields-bind _ (single line word args) _ (λ text.
        Yields-bind _ (interval line text) _ (λ _. yields _ (keeps _ d _ refl refl refl refl)))
  apply_directive-Adds line word args d listen =
      listen-Adds d _ (parse_listen-NamedPair addresses line args d.warnings)
  apply_directive-Adds line word args d uplink = Yields-bind _ (parse_uplink line args) _ (λ u.
      yields _ (record {
        listeners = omega arith;
        uplinks = omega (arith, length-append d.uplinks (u ∷ []));
        named = ((λ h. h), (λ h. h));
      }))
  apply_directive-Adds line word args d http_status =
      Yields-bind _ (address addresses line (get_elem? args 0) (get_elem? args 1)) _
        (λ _. yields _ (keeps _ d _ refl refl refl refl))
  apply_directive-Adds line word args d http_upload = yields _ (keeps _ d _ refl refl refl refl)
  apply_directive-Adds line word args d uplink_bind = yields _ (keeps _ d _ refl refl refl refl)
  apply_directive-Adds line word args d log_rotate = yields _ (keeps _ d _ refl refl refl refl)
  apply_directive-Adds line word args d magic_badness = yields _ (keeps _ d _ refl refl refl refl)
  apply_directive-Adds line word args d other = yields _ (keeps _ d _ refl refl refl refl)

-- A number for the directive of a line, if its tokens begin with one.
abbrev first_of : (Directive → ℕ) → Result (List Bytes) ConvertError → ℕ
first_of f (ok (word ∷ args)) = f (directive_of word)
first_of f (ok []) = 0
first_of f (err e) = 0

-- 1 for a line that is such a directive, 0 for any other.
abbrev pub tally : (Directive → ℕ) → Bytes → ℕ
tally f raw = first_of f (tokenize raw 0)

abbrev pub total : (Directive → ℕ) → List Bytes → ℕ
total f [] = 0
total f (raw ∷ rest) = tally f raw + total f rest

-- The tokens of a line do not hang on its number.
tally-tokenize :
    (f : Directive → ℕ) (raw : Bytes) (line : ℕ) → first_of f (tokenize raw line) ≡ tally f raw
unfolding tokenize
tally-tokenize f raw line = numbered _ _
  where
    numbered :
        (b : Bool) (tokens : List Bytes)
        → first_of f (if b then err (unterminated_quote line) else ok tokens)
          ≡ first_of f (if b then err (unterminated_quote 0) else ok tokens)
    numbered true tokens = refl
    numbered false tokens = refl

module _ (addresses : Addresses) where
  -- What lines add to the draft.
  pub record Grows (listens uplinks_in : ℕ) (d d' : Draft addresses) : Type 0 where
    pub listeners : length d'.listeners ≡ length d.listeners + listens
    pub uplinks : length d'.uplinks ≡ length d.uplinks + uplinks_in
    pub named : All (IsNamed addresses) d.listeners ↔ All (IsNamed addresses) d'.listeners

  apply_tokens-Grows :
      (line : ℕ) (tokens : Result (List Bytes) ConvertError) (d : Draft addresses)
      → Yields
          (Grows (first_of is_listen tokens) (first_of is_uplink tokens) d)
          (tokens >>= λ ts. apply_tokens addresses line ts d)
  unfolding apply_tokens
  apply_tokens-Grows line (err e) d = refuses e
  apply_tokens-Grows line (ok []) d =
      yields d
        (record { listeners = omega arith; uplinks = omega arith; named = ((λ h. h), (λ h. h)) })
  apply_tokens-Grows line (ok (word ∷ args)) d =
      Yields-imp _ _ _ (apply_directive-Adds addresses line word args d (directive_of word))
        (λ d' a. record { listeners = a.listeners; uplinks = a.uplinks; named = a.named })

  apply_line-Grows :
      (line : ℕ) (raw : Bytes) (d : Draft addresses)
      → Yields
          (Grows (tally is_listen raw) (tally is_uplink raw) d)
          (apply_line addresses line raw d)
  unfolding apply_line
  apply_line-Grows line raw d =
      rw (← tally-tokenize is_listen raw line, ← tally-tokenize is_uplink raw line)
        (apply_tokens-Grows line (tokenize raw line) d)

  pub apply_lines-Grows :
      (line : ℕ) (ls : List Bytes) (d : Draft addresses)
      → Yields (Grows (total is_listen ls) (total is_uplink ls) d) (apply_lines addresses line ls d)
  unfolding apply_lines
  apply_lines-Grows line [] d =
      yields d
        (record { listeners = omega arith; uplinks = omega arith; named = ((λ h. h), (λ h. h)) })
  apply_lines-Grows line (raw ∷ rest) d = Yields-then _ _ _ _ (apply_line-Grows line raw d) (λ d' g.
      Yields-imp _ _ _ (apply_lines-Grows (line + 1) rest d') (λ d'' g'. record {
        listeners = omega (arith, g.listeners, g'.listeners);
        uplinks = omega (arith, g.uplinks, g'.uplinks);
        named = ((λ h. g'.named.0 (g.named.0 h)), (λ h. g.named.1 (g'.named.1 h)));
      }))
