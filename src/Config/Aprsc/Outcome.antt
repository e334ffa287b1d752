-- ===== src/Config/Aprsc/Outcome.antt =====
-- How a conversion ends (`convert` of crates/aprsr-config/src/aprsc.rs).
use aprsr.Prelude.{
  ℕ, suc, ◌+◌, List, [], ◌∷◌, ◌++◌, ◌≡◌, refl, subst, ◌⊎◌, arith, length, length-append, All,
  Result, ok, err, ◌>>=◌, >>=-eq-ok, append_assoc, inl, inr, Yields-ok,
}
use aprsr.Bytes.{Bytes, lines}
use aprsr.Config.{Addresses}
use aprsr.Config.Aprsc.{ConvertError}
use aprsr.Config.Aprsc.Convert.{
  Draft, new_draft, apply_line, apply_lines, Conversion, finish, convert,
}
use aprsr.Config.Aprsc.Located.{AtLine, AtLine-err, line_of, apply_line-AtLine}
use aprsr.Config.Aprsc.Named.{IsNamed}
use aprsr.Config.Aprsc.Added.{is_listen, is_uplink, total, apply_lines-Grows}

module _ (addresses : Addresses) where
  -- Where the lines fail: the lines before are read, the bad line is not, and the error names it by its
  -- number.
  pub record FailsAt (ls : List Bytes) (e : ConvertError) : Type 0 where
    pub before : List Bytes
    pub bad : Bytes
    pub after : List Bytes
    pub draft : Draft addresses
    pub cut : ls ≡ before ++ bad ∷ after
    pub read : apply_lines addresses 1 before (new_draft addresses) ≡ ok draft
    pub failed : apply_line addresses (length before + 1) bad draft ≡ err e
    pub numbered : line_of e ≡ length before + 1

  abbrev pub Outcome : List Bytes → Result (Conversion addresses) ConvertError → Type 0
  Outcome ls (ok c) =
      (length c.config.listeners ≡ total is_listen ls)
      × (length c.config.uplinks ≡ total is_uplink ls)
      × All (IsNamed addresses) c.config.listeners
  Outcome ls (err e) = FailsAt ls e

  failed_line :
      (line : ℕ) (raw : Bytes) (d : Draft addresses) (e : ConvertError)
      → apply_line addresses line raw d ≡ err e
      → line_of e ≡ line
  failed_line line raw d e h =
      AtLine-err line e (subst (AtLine line) h (apply_line-AtLine addresses line raw d))

  one_more_line :
      (before : List Bytes) (raw : Bytes) (start d d' : Draft addresses) (line : ℕ)
      → apply_lines addresses line before start ≡ ok d
      → apply_line addresses (length before + line) raw d ≡ ok d'
      → apply_lines addresses line (before ++ raw ∷ []) start ≡ ok d'
  unfolding apply_lines
  one_more_line [] raw start d d' line done next = ground arith
  one_more_line (b ∷ before) raw start d d' line done next =
      let (mid, p, q) = >>=-eq-ok (apply_line addresses line b start) _ done in
      rw (p, apply_lines)
        (one_more_line before raw mid d d' (line + 1) q (
          let e : length before + (line + 1) ≡ suc (length before) + line = omega arith in
          rw e next))

  -- How a result is split: the step fails, or what follows it does.
  failing :
      (m : Result (Draft addresses) ConvertError)
      (next : Draft addresses → Result (Draft addresses) ConvertError) (e : ConvertError)
      → (m >>= next) ≡ err e
      → (m ≡ err e) ⊎ ((d : Draft addresses) × (m ≡ ok d) × (next d ≡ err e))
  failing (ok d) next e h = inr (d, refl, h)
  failing (err e') next e h = inl h

  -- The lines that are left, behind those that are read.
  first_failure :
      (before rest : List Bytes) (d : Draft addresses) (line : ℕ) (e : ConvertError)
      → length before + 1 ≡ line
      → apply_lines addresses 1 before (new_draft addresses) ≡ ok d
      → apply_lines addresses line rest d ≡ err e
      → FailsAt (before ++ rest) e
  unfolding apply_lines
  first_failure before [] d line e n done h = absurd (cc)
  first_failure before (raw ∷ rest) d line e n done h =
      elim (failing (apply_line addresses line raw d) _ e h) [
        | inl failed ↦ record {
          before = before;
          bad = raw;
          after = rest;
          draft = d;
          cut = refl;
          read = done;
          failed = rw n failed;
          numbered = rw n (failed_line line raw d e failed);
        }
        | inr (d', p, q) ↦
            subst (λ ls. FailsAt ls e) (append_assoc before (raw ∷ []) rest)
              (first_failure (before ++ raw ∷ []) rest d' (line + 1) e
                (omega (arith, length-append before (raw ∷ [])))
                (one_more_line before raw (new_draft addresses) d d' 1 done (rw n p)) q)
      ]

  ended :
      (ls : List Bytes) (r : Result (Draft addresses) ConvertError)
      → apply_lines addresses 1 ls (new_draft addresses) ≡ r
      → Outcome ls (r >>= λ d. ok (finish addresses d))
  unfolding finish new_draft apply_lines
  ended ls (ok d) h =
      let g = Yields-ok _ _ d (apply_lines-Grows addresses 1 ls (new_draft addresses)) h in
      (omega (arith, g.listeners), omega (arith, g.uplinks), g.named.0 tt)
  ended ls (err e) h = first_failure [] ls (new_draft addresses) 1 e (omega arith) refl h

  -- How a conversion ends: with as many listeners and uplinks as the file has such directives, each
  -- listener under a name that is not empty; or with the error of the first line that cannot be read,
  -- which names that line, counted from 1.
  pub convert-Outcome : (text : Bytes) → Outcome (lines text) (convert addresses text)
  unfolding convert
  convert-Outcome text = ended (lines text) _ refl
