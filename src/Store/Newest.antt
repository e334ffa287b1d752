-- ===== src/Store/Newest.antt =====
-- The cache answers the newest report of a station (`PositionCache::record` of
-- crates/aprsr-store/src/lib.rs).
use mathlib.Core.Option
use aprsr.Prelude.{
  List, [], ◌∷◌, ◌++◌, some, false, not, ◌&&◌, if◌then◌else◌, ◌≡◌, refl, ap, ◌∙◌, arith, All,
}
use aprsr.Prelude.Int.{ℤ, less}
use aprsr.Bytes.{Bytes, str_eq, str_eq_iff}
use aprsr.Store.{
  CachedPosition, PositionEntry, PositionCache, uppercase, get, insert, is_newer, record_position,
  position_of,
}

module _ {f64 : Type 0} where
  -- The reports of a run, one after another.
  abbrev pub record_all : List (PositionEntry f64) → PositionCache f64 → PositionCache f64
  record_all [] cache = cache
  record_all (r ∷ rs) cache =
      record_all rs (record_position r.callsign r.position r.symbol r.heard_at cache)

  -- The report is not one of this station that is newer than `r`, and not one that is as new.
  abbrev pub IsNoNewer : Bytes → ℤ → PositionEntry f64 → Type 0
  IsNoNewer key heard_at r = (str_eq (uppercase r.callsign) key && less heard_at r.heard_at) ≡ false

  abbrev pub IsOlder : Bytes → ℤ → PositionEntry f64 → Type 0
  IsOlder key heard_at r =
      (str_eq (uppercase r.callsign) key && not (less r.heard_at heard_at)) ≡ false

  get-insert :
      (key k : Bytes) (v : CachedPosition f64) (cache : PositionCache f64)
      → get k (insert key v cache) ≡ (if str_eq key k then some v else get k cache)
  unfolding get insert
  get-insert key k v [] = refl
  get-insert key k v ((j, w) ∷ rest) =
      ground (arith, str_eq_iff key k, str_eq_iff j k, str_eq_iff j key, get-insert key k v rest)

  get-record_position :
      (r : PositionEntry f64) (k : Bytes) (cache : PositionCache f64)
      → get k (record_position r.callsign r.position r.symbol r.heard_at cache) ≡ (
          if str_eq (uppercase r.callsign) k && not (is_newer (get k cache) r.heard_at)
          then some (record { position = r.position; symbol = r.symbol; heard_at = r.heard_at })
          else get k cache)
  unfolding record_position
  get-record_position r k cache = ground (
    arith,
    str_eq_iff (uppercase r.callsign) k,
    get-insert (uppercase r.callsign) k
        (record { position = r.position; symbol = r.symbol; heard_at = r.heard_at }) cache,
  )

  no_newer :
      (rs : List (PositionEntry f64)) (key : Bytes) (heard_at : ℤ) (cache : PositionCache f64)
      → All (IsNoNewer key heard_at) rs
      → is_newer (get key cache) heard_at ≡ false
      → is_newer (get key (record_all rs cache)) heard_at ≡ false
  unfolding is_newer
  no_newer [] key heard_at cache a h = h
  no_newer (r ∷ rs) key heard_at cache a h =
      no_newer rs key heard_at (record_position r.callsign r.position r.symbol r.heard_at cache) a.1
        (ground (arith, get-record_position r key cache, a.0))

  stays :
      (rs : List (PositionEntry f64)) (key : Bytes) (v : CachedPosition f64)
      (cache : PositionCache f64)
      → All (IsOlder key v.heard_at) rs
      → get key cache ≡ some v
      → get key (record_all rs cache) ≡ some v
  unfolding is_newer
  stays [] key v cache a h = h
  stays (r ∷ rs) key v cache a h =
      stays rs key v (record_position r.callsign r.position r.symbol r.heard_at cache) a.1
        (ground (arith, get-record_position r key cache, a.0))

  record_all-append :
      (rs ss : List (PositionEntry f64)) (cache : PositionCache f64)
      → record_all (rs ++ ss) cache ≡ record_all ss (record_all rs cache)
  record_all-append [] ss cache = refl
  record_all-append (r ∷ rs) ss cache = record_all-append rs ss _

  -- After a run of reports into an empty cache a station, up to the case of its letters, is where the
  -- newest of its reports says: no report of it before is newer, and every report of it after is older.
  pub position_of-newest :
      (before after : List (PositionEntry f64)) (r : PositionEntry f64)
      → All (IsNoNewer (uppercase r.callsign) r.heard_at) before
      → All (IsOlder (uppercase r.callsign) r.heard_at) after
      → position_of (record_all (before ++ r ∷ after) []) r.callsign ≡ some r.position
  unfolding position_of is_newer get
  position_of-newest before after r b a =
      let key = uppercase r.callsign in
      let cache = record_all before [] in
      ap (λ o. Option.map (λ (c : CachedPosition f64). c.position) (get key o))
        (record_all-append before (r ∷ after) [])
      ∙ ap (Option.map (λ (c : CachedPosition f64). c.position)) (
          stays after key
            (record { position = r.position; symbol = r.symbol; heard_at = r.heard_at })
            (record_position r.callsign r.position r.symbol r.heard_at cache) a
            (ground (
              arith,
              str_eq_iff key key,
              get-record_position r key cache,
              no_newer before key r.heard_at [] b refl,
            )))
