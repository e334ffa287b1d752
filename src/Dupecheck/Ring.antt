-- ===== src/Dupecheck/Ring.antt =====
-- The ring of buckets: its invariant, and the eviction of one second and of a run of seconds.
use native.Mathlib.Nat.{div-add-mod, mod-lt, add-mod_right}
use native.Mathlib.Decide.{dec_le}
use aprsr.Prelude.{
  ℕ, zero, suc, ◌+◌, ◌*◌, ◌/◌, ◌%◌, ◌≤◌, ◌<◌, List, [], ◌∷◌, none, some, Bool, true, false, ◌==◌,
  if◌then◌else◌, length, get_elem?, set, ◌≡◌, refl, ap, ◌∙◌, arith,
}
use aprsr.Dupecheck.{DupeCheck, lookup, forget, slot, evict_second}
use aprsr.Dupecheck.Window.{has}

-- The bucket's digests hold `d`.
abbrev pub in_bucket : List (List ℕ) → ℕ → ℕ → Bool
in_bucket buckets i d = elim (get_elem? buckets i) [ some b ↦ has d b | none ↦ false ]

-- `edge` is the second up to which old sightings have been evicted.
pub record IsRing (edge : ℕ) (s : DupeCheck) : Type 0 where
  pub sized : length s.buckets ≡ s.window + 1
  pub recent : (d t : ℕ) → lookup d s.seen ≡ some t → (t ≤ s.now) × (edge ≤ t + s.window)
  pub stored :
      (d t : ℕ) → lookup d s.seen ≡ some t → in_bucket s.buckets (t % length s.buckets) d ≡ true
  pub known :
      (i d : ℕ)
      → in_bucket s.buckets i d ≡ true
      → (t : ℕ) × (lookup d s.seen ≡ some t) × (t % length s.buckets ≡ i)

mul_mono : (c q p : ℕ) → q ≤ p → c * q ≤ c * p
mul_mono c q p h = grind arith

one_more : (c q p : ℕ) → 0 < c → c * p < c * q → c * q ≤ c * p + c → q ≡ p + 1
one_more c q p pos lt le = elim (dec_le q p) [
  | yes h ↦ absurd (omega (arith, mul_mono c q p h))
  | no h ↦ elim (dec_le (p + 2) q) [
    | yes k ↦ absurd (omega (arith, mul_mono c (p + 2) q k))
    | no k ↦ omega arith
  ]
]

-- Two seconds at most a turn of the ring apart share a bucket only if they are one turn apart.
pub turn : (a t c : ℕ) → 0 < c → t < a → a ≤ t + c → a % c ≡ t % c → a ≡ t + c
turn a t c pos lt le e =
    let da = div-add-mod a c in
    let dt = div-add-mod t c in
    let q = one_more c (a / c) (t / c) pos (omega arith) (omega arith) in
    let cq : c * (a / c) ≡ c * (t / c) + c = ap (λ (k : ℕ). c * k) q ∙ omega arith in omega arith

pub turn_slot : (t c : ℕ) → (t + c) % c ≡ t % c
turn_slot t c = add-mod_right t c

pub in_bucket-set :
    (bs : List (List ℕ)) (i j d : ℕ)
    → j < length bs
    → in_bucket (set bs j []) i d ≡ (if j == i then false else in_bucket bs i d)
in_bucket-set [] i j d h = absurd (omega arith)
in_bucket-set (b ∷ bs) zero zero d h = ground arith
in_bucket-set (b ∷ bs) (suc i) zero d h = ground arith
in_bucket-set (b ∷ bs) zero (suc j) d h = ground arith
in_bucket-set (b ∷ bs) (suc i) (suc j) d h = ground (arith, in_bucket-set bs i j d)

pub get_elem?-some :
    (bs : List (List ℕ)) (i : ℕ) → i < length bs → (b : List ℕ) × (get_elem? bs i ≡ some b)
get_elem?-some [] i h = absurd (omega arith)
get_elem?-some (b ∷ bs) zero h = (b, refl)
get_elem?-some (b ∷ bs) (suc i) h = get_elem?-some bs i (omega arith)

-- One eviction in terms of the bucket that it drains.
pub evict_second_lem :
    (s : DupeCheck) (a : ℕ)
    → 0 < length s.buckets
    → (b : List ℕ) × (get_elem? s.buckets (slot s a) ≡ some b)
      × (evict_second s a
          ≡ record s { seen = forget b s.seen; buckets = set s.buckets (slot s a) [] })
unfolding slot evict_second
evict_second_lem s a pos =
    let (b, e) = get_elem?-some s.buckets (a % length s.buckets) (mod-lt a pos) in
    (b, e, ground arith)
