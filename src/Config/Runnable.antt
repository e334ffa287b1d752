-- ===== src/Config/Runnable.antt =====
-- What `Config::validate` (crates/aprsr-config/src/lib.rs) accepts.
use aprsr.Prelude.{
  List, [], ◌∷◌, ◌++◌, Option, none, some, Bool, true, false, ◌≡◌, ◌≢◌, ◌↔◌, refl, arith, inl, inr,
  any, All, All-append, All-left, All-right, is_empty, Result, ok, err, is_ok, Bool-cases, ◌>>=◌,
  map_err, if◌then◌else◌,
}
use aprsr.Bytes.{
  Bytes, eq_ignore_ascii_case, SameIgnoringCase, eq_ignore_ascii_case_sound,
  eq_ignore_ascii_case_complete,
}
use aprsr.Callsign.{parse_login}
use aprsr.Geo.{Floats}
use aprsr.Filter.Parse.{parse_chain}
use aprsr.Config.{
  placeholder_server_id, Addresses, Listener, Config, ConfigError, check_filter, check_listeners,
  validate,
}

-- The two names differ by more than the case of their letters.
abbrev pub Differ : Bytes → Bytes → Type 0
Differ m n = ¬ SameIgnoringCase m n

module _ (addresses : Addresses) (floats : Floats) where
  abbrev pub IsFilter : Option Bytes → Type 0
  IsFilter none = Unit {0}
  IsFilter (some expression) = is_ok (parse_chain floats expression) ≡ true

  -- No two listeners share a name, ignoring case.
  abbrev pub Distinct : List (Listener addresses) → Type 0
  Distinct [] = Unit {0}
  Distinct (l ∷ ls) = All (λ (k : Listener addresses). Differ l.name k.name) ls × Distinct ls

  pub record IsRunnable (config : Config addresses) : Type 0 where
    pub named : Differ config.server.id placeholder_server_id
    pub login : is_ok (parse_login config.server.id) ≡ true
    pub listening : config.listeners ≢ []
    pub distinct : Distinct config.listeners
    pub filters : All (λ (l : Listener addresses). IsFilter l.filter) config.listeners

  -- What the loop over the listeners accepts, with the names that it has seen.
  abbrev Accepted : List Bytes → List (Listener addresses) → Type 0
  Accepted seen ls =
      All (λ (l : Listener addresses). All (λ n. Differ n l.name) seen) ls
      × Distinct ls
      × All (λ (l : Listener addresses). IsFilter l.filter) ls

  unseen :
      (seen : List Bytes) (name : Bytes)
      → (any (λ n. eq_ignore_ascii_case n name) seen ≡ false) ↔ All (λ n. Differ n name) seen
  unseen [] name = ground arith
  unseen (n ∷ seen) name = ground (
    arith,
    unseen seen name,
    eq_ignore_ascii_case_sound n name,
    eq_ignore_ascii_case_complete n name,
  )

  check_filter_iff :
      (name : Bytes) (filter : Option Bytes)
      → (check_filter addresses floats name filter ≡ ok tt) ↔ IsFilter filter
  unfolding check_filter
  check_filter_iff name none = ground arith
  check_filter_iff name (some expression) = ground arith

  abbrev Unlike : List Bytes → Listener addresses → Type 0
  Unlike seen l = All (λ n. Differ n l.name) seen

  one_more :
      (seen : List Bytes) (name : Bytes) (ls : List (Listener addresses))
      → All (Unlike (seen ++ name ∷ [])) ls
        ↔ (All (Unlike seen) ls × All (λ (k : Listener addresses). Differ name k.name) ls)
  one_more seen name [] = ((λ _. (tt, tt)), λ _. tt)
  one_more seen name (l ∷ ls) = (
    λ h. (
      (All-left _ seen (name ∷ []) h.0, ((one_more seen name ls).0 h.1).0),
      ((All-right _ seen (name ∷ []) h.0).0, ((one_more seen name ls).0 h.1).1),
    ),
    λ h.
        (All-append _ seen (name ∷ []) h.0.0 (h.1.0, tt), (one_more seen name ls).1 (h.0.1, h.1.1)),
  )

  after_filter :
      (m : Result (Unit {0}) (ConfigError floats.f64))
      (next : Result (Unit {0}) (ConfigError floats.f64))
      → ((m >>= λ _. next) ≡ ok tt) ↔ ((m ≡ ok tt) × (next ≡ ok tt))
  after_filter (ok tt) next = ground arith
  after_filter (err e) next = ground arith

  check_listeners_iff :
      (seen : List Bytes) (ls : List (Listener addresses))
      → (check_listeners addresses floats seen ls ≡ ok tt) ↔ Accepted seen ls
  unfolding check_listeners
  check_listeners_iff seen [] = ((λ _. (tt, tt, tt)), λ _. refl)
  check_listeners_iff seen (l ∷ ls) =
      elim (Bool-cases (any (λ n. eq_ignore_ascii_case n l.name) seen)) [
        | inl taken ↦
            rw taken (λ e. absurd (cc e), λ h. absurd (cc (taken, (unseen seen l.name).1 h.0.0)))
        | inr free ↦
            let more = check_listeners_iff (seen ++ l.name ∷ []) ls in
            let split = one_more seen l.name ls in
            let filter = check_filter_iff l.name l.filter in
            rw free (
              λ e.
                  let (checked, later) = (after_filter _ _).0 e in
                  let (names, distinct, filters) = more.0 later in
                  (
                    ((unseen seen l.name).0 free, (split.0 names).0),
                    ((split.0 names).1, distinct),
                    (filter.0 checked, filters),
                  ),
              λ h.
                  (after_filter _ _).1
                    (filter.1 h.2.0, more.1 (split.1 (h.0.1, h.1.0), h.1.1, h.2.1)),
            )
      ]

  named_iff :
      (id : Bytes)
      → (eq_ignore_ascii_case id placeholder_server_id ≡ false) ↔ Differ id placeholder_server_id
  named_iff id = ground (
    arith,
    eq_ignore_ascii_case_sound id placeholder_server_id,
    eq_ignore_ascii_case_complete id placeholder_server_id,
  )

  none_seen : (ls : List (Listener addresses)) → All (Unlike []) ls
  none_seen [] = tt
  none_seen (l ∷ ls) = (tt, none_seen ls)

  -- The chain of tests in `validate`.
  chained {ℓ κ} :
      {A : Type ℓ} {E : Type κ} (same : Bool) (f : E → ConfigError floats.f64) (login : Result A E)
      (empty : Bool) (first second : ConfigError floats.f64)
      (rest : Result (Unit {0}) (ConfigError floats.f64))
      → ((if same then err first else map_err f login >>= λ _. if empty then err second else rest)
          ≡ ok tt)
        ↔ ((same ≡ false) × (is_ok login ≡ true) × (empty ≡ false) × (rest ≡ ok tt))
  chained true f login empty first second rest = ((λ e. absurd (cc e)), λ h. absurd (cc h.0))
  chained false f (err e) empty first second rest = ((λ e. absurd (cc e)), λ h. absurd (cc h.1))
  chained false f (ok a) true first second rest = ((λ e. absurd (cc e)), λ h. absurd (cc h.2))
  chained false f (ok a) false first second rest = ((λ e. (refl, refl, refl, e)), λ h. h.3)

  nonempty : (ls : List (Listener addresses)) → (is_empty ls ≡ false) ↔ (ls ≢ [])
  nonempty [] = ((λ e. absurd (cc e)), λ h. absurd (h refl))
  nonempty (l ∷ ls) = ((λ _ e. absurd (cc e)), λ _. refl)

  -- A configuration is accepted exactly if its server has a login other than the placeholder, it has
  -- a listener, no two listeners share a name up to ASCII case, and every port filter parses.
  pub validate_iff :
      (config : Config addresses) → (validate addresses floats config ≡ ok tt) ↔ IsRunnable config
  unfolding validate
  validate_iff config =
      let loop = check_listeners_iff [] config.listeners in
      let chain = chained _ _ (parse_login config.server.id) _ _ _ _ in
      (
        λ e.
            let (own, login, listening, looped) = chain.0 e in
            record {
              named = (named_iff config.server.id).0 own;
              login = login;
              listening = (nonempty config.listeners).0 listening;
              distinct = (loop.0 looped).1;
              filters = (loop.0 looped).2;
            },
        λ h. chain.1 (
          (named_iff config.server.id).1 h.named,
          h.login,
          (nonempty config.listeners).1 h.listening,
          loop.1 (none_seen config.listeners, h.distinct, h.filters),
        ),
      )
