-- ===== src/Callsign/Pattern.antt =====
-- `matches_pattern` decides the wildcard relation of the filters.
use aprsr.Prelude.{
  [], ◌∷◌, ◌++◌, true, length, take, drop, take-append-drop, sym, ap, ◌≡◌, ◌≢◌, ◌↔◌, inl, inr,
  arith, Option-cases, length-append,
}
use aprsr.Bytes.{
  Bytes, get_to, get_to-append, strip_suffix, strip_suffix-some, strip_suffix-append,
  SameIgnoringCase, SameIgnoringCase-length, eq_ignore_ascii_case_sound,
  eq_ignore_ascii_case_complete,
}
use aprsr.Callsign.{matches_pattern, starts_with_ignore_case}

-- A pattern with a trailing star covers the callsigns that begin like it; any other pattern
-- covers the callsigns that it spells. Both ignore ASCII case.
pub data Covers (pattern' callsign : Bytes) : Type 0 where
  wildcard :
      (prefix head rest : Bytes)
      → pattern' ≡ prefix ++ b'*' ∷ []
      → callsign ≡ head ++ rest
      → SameIgnoringCase head prefix
      → Covers pattern' callsign
  exact :
      ((prefix : Bytes) → pattern' ≢ prefix ++ b'*' ∷ [])
      → SameIgnoringCase pattern' callsign
      → Covers pattern' callsign

starts_with-split :
    (s p : Bytes)
    → starts_with_ignore_case s p ≡ true
    → (head : Bytes) × (rest : Bytes) × (s ≡ head ++ rest) × SameIgnoringCase head p
unfolding starts_with_ignore_case get_to
starts_with-split s p h = (
  take (length p) s,
  drop (length p) s,
  sym (take-append-drop (length p) s),
  eq_ignore_ascii_case_sound (take (length p) s) p (ground arith),
)

starts_with-append :
    (p head rest : Bytes)
    → SameIgnoringCase head p
    → starts_with_ignore_case (head ++ rest) p ≡ true
unfolding starts_with_ignore_case
starts_with-append p head rest h =
    rw (← SameIgnoringCase-length head p h, get_to-append) (eq_ignore_ascii_case_complete head p h)

matches-Covers : (p s : Bytes) → matches_pattern p s ≡ true → Covers p s
unfolding matches_pattern
matches-Covers p s h = elim (Option-cases (strip_suffix b'*' p)) [
  | inl n ↦
      exact (λ prefix e. cc (n, ap (strip_suffix b'*') e, strip_suffix-append b'*' prefix))
        (eq_ignore_ascii_case_sound p s (ground arith))
  | inr (prefix, q) ↦
      let (head, rest, e, same) = starts_with-split s prefix (ground arith) in
      wildcard prefix head rest (strip_suffix-some b'*' p prefix q) e same
]

matches_wildcard :
    (prefix head rest : Bytes)
    → SameIgnoringCase head prefix
    → matches_pattern (prefix ++ b'*' ∷ []) (head ++ rest) ≡ true
unfolding matches_pattern
matches_wildcard prefix head rest same =
    rw (strip_suffix-append b'*' prefix, matches_pattern)
      (ground (
        arith,
        SameIgnoringCase-length head prefix same,
        length-append head rest,
        starts_with-append prefix head rest same,
      ))

matches_exact :
    (p s : Bytes)
    → ((prefix : Bytes) → p ≢ prefix ++ b'*' ∷ [])
    → SameIgnoringCase p s
    → matches_pattern p s ≡ true
unfolding matches_pattern
matches_exact p s other same = elim (Option-cases (strip_suffix b'*' p)) [
  | inl n ↦ rw (n, matches_pattern) (eq_ignore_ascii_case_complete p s same)
  | inr (prefix, q) ↦ absurd (other prefix (strip_suffix-some b'*' p prefix q))
]

Covers-matches : (p s : Bytes) → Covers p s → matches_pattern p s ≡ true
Covers-matches p s (wildcard prefix head rest ep es same) =
    rw (ep, es) (matches_wildcard prefix head rest same)
Covers-matches p s (exact other same) = matches_exact p s other same

-- `matches_pattern` answers true exactly on the callsigns that the pattern covers: with a
-- trailing star those that begin like it, and otherwise those that it spells, whatever the case.
pub matches_pattern_iff : (p s : Bytes) → (matches_pattern p s ≡ true) ↔ Covers p s
matches_pattern_iff p s = (matches-Covers p s, Covers-matches p s)
