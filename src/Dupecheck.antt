-- ===== src/Dupecheck.antt =====
-- Duplicate suppression by a ring of buckets (crates/aprsr-core/src/dupecheck.rs).
-- The random hasher is a parameter: a function from the hashed fields to the digest.
pub mod Window
pub mod Ring
pub mod Evict
pub mod Advance
pub mod Sighting
pub mod Refines
pub mod Suppress
use Prim.Native.Nat.{max}
use aprsr.Prelude.{
  ℕ, zero, suc, ◌+◌, ◌-◌, ◌%◌, ◌^◌, List, [], ◌∷◌, ◌++◌, Option, none, some, Bool, true, false, leb,
  ltb, ◌==◌, if◌then◌else◌, length, get_elem?, set, replicate, is_some, map,
}
use aprsr.Bytes.{Bytes, trim_end}
use aprsr.Packet.{Packet}

abbrev pub default_window_secs : ℕ
default_window_secs = 30

-- The hash map from digests to seconds.
abbrev pub SeenMap : Type 0
SeenMap = List (ℕ × ℕ)

unfoldable pub lookup : ℕ → SeenMap → Option ℕ
lookup d [] = none
lookup d ((e, t) ∷ m) = if e == d then some t else lookup d m

unfoldable pub remove : ℕ → SeenMap → SeenMap
remove d [] = []
remove d ((e, t) ∷ m) = let rest = remove d m in if e == d then rest else (e, t) ∷ rest

unfoldable pub insert : ℕ → ℕ → SeenMap → SeenMap
insert d t m = (d, t) ∷ remove d m

pub record DupeCheck : Type 0 where
  pub window : ℕ
  pub seen : SeenMap
  pub buckets : List (List ℕ)
  pub now : ℕ
  pub checked : ℕ
  pub duplicates : ℕ

-- `window + 1` on a 64-bit word.
unfoldable pub with_window : ℕ → DupeCheck
with_window window_secs =
    let window = max window_secs 1 in
    record {
      window = window;
      seen = [];
      buckets = replicate ((window + 1) % 2 ^ 64) [];
      now = 0;
      checked = 0;
      duplicates = 0;
    }

unfoldable pub new : DupeCheck
new = with_window default_window_secs

unfoldable pub tracked : DupeCheck → ℕ
tracked s = length s.seen

unfoldable pub slot : DupeCheck → ℕ → ℕ
slot s second = second % length s.buckets

-- `for digest in bucket.drain(..) { self.seen.remove(&digest); }`
unfoldable pub forget : List ℕ → SeenMap → SeenMap
forget [] m = m
forget (d ∷ ds) m = forget ds (remove d m)

-- One round of the eviction loop: the bucket of a second that the window reaches is drained.
unfoldable pub evict_second : DupeCheck → ℕ → DupeCheck
evict_second s second = elim (get_elem? s.buckets (slot s second)) [
  | some bucket ↦ record s {
    seen = forget bucket s.seen;
    buckets = set s.buckets (slot s second) [];
  }
  | none ↦ s
]

-- The rounds `step`, `step + 1`, … of the loop `for step in 1..=elapsed`.
unfoldable pub evict : ℕ → ℕ → DupeCheck → DupeCheck
evict zero step s = s
evict (suc left) step s = evict left (step + 1) (evict_second s (s.now + step))

unfoldable pub advance_to : DupeCheck → ℕ → DupeCheck
advance_to s now =
    if leb now s.now
    then s
    else let elapsed = now - s.now in
      if leb (length s.buckets) elapsed
      then record s { buckets = map (λ _. []) s.buckets; seen = []; now = now }
      else record (evict elapsed 1 s) { now = now }

-- `bucket.push(digest)` in the bucket of the current second.
unfoldable pub push_digest : DupeCheck → ℕ → List (List ℕ)
push_digest s digest = elim (get_elem? s.buckets (slot s s.now)) [
  | some bucket ↦ set s.buckets (slot s s.now) (bucket ++ digest ∷ [])
  | none ↦ s.buckets
]

-- A sighting on the advanced detector: the counters wrap at 64 bits.
unfoldable pub sight : DupeCheck → ℕ → DupeCheck × Bool
sight s digest =
    if is_some (lookup digest s.seen)
    then (
      record s { checked = (s.checked + 1) % 2 ^ 64; duplicates = (s.duplicates + 1) % 2 ^ 64 },
      true,
    )
    else (
      record s {
        checked = (s.checked + 1) % 2 ^ 64;
        seen = insert digest s.now s.seen;
        buckets = push_digest s digest;
      },
      false,
    )

unfoldable pub check_digest : DupeCheck → ℕ → ℕ → DupeCheck × Bool
check_digest s digest now = sight (advance_to s now) digest

-- What a hasher makes of source, destination and trimmed payload.
abbrev pub Hasher : Type 0
Hasher = Bytes → Bytes → Bytes → ℕ

module _ (hasher : Hasher) where
  unfoldable pub digest : Packet → ℕ
  digest packet = hasher packet.source packet.destination (trim_end packet.payload)

  unfoldable pub check : DupeCheck → Packet → ℕ → DupeCheck × Bool
  check s packet now = check_digest s (digest packet) now
