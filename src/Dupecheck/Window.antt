-- ===== src/Dupecheck/Window.antt =====
-- The specification of the detector: a digest is remembered with the second of its first sighting
-- and forgotten once the window has passed. And the laws of the seen map.
use Prim.Native.Nat.{max}
use aprsr.Prelude.{
  ℕ, ◌+◌, List, [], ◌∷◌, Option, none, some, Bool, leb, ◌==◌, if◌then◌else◌, is_some, any, ◌≡◌,
  refl, arith,
}
use aprsr.Dupecheck.{SeenMap, lookup, remove, insert, forget}

-- What is left of a sighting at second `now`.
abbrev pub live : ℕ → ℕ → Option ℕ → Option ℕ
live window now none = none
live window now (some t) = if leb now (t + window) then some t else none

pub record Memory : Type 0 where
  pub seen : ℕ → Option ℕ
  pub now : ℕ

abbrev pub forgotten : ℕ → Memory → ℕ → Memory
forgotten window m now = record {
  seen = λ d. live window (max m.now now) (m.seen d);
  now = max m.now now;
}

abbrev pub remembered : Memory → ℕ → Memory
remembered m digest =
    if is_some (m.seen digest)
    then m
    else record m { seen = λ d. if digest == d then some m.now else m.seen d }

-- One check: time never goes back, old sightings are forgotten, and a digest that is still
-- remembered is a duplicate.
unfoldable pub recall : ℕ → Memory → ℕ → ℕ → Memory × Bool
recall window m digest now =
    let m' = forgotten window m now in (remembered m' digest, is_some (m'.seen digest))

unfoldable pub blank : Memory
blank = record { seen = λ _. none; now = 0 }

abbrev pub has : ℕ → List ℕ → Bool
has d ds = any (λ e. e == d) ds

pub lookup-remove :
    (d e : ℕ) (m : SeenMap) → lookup e (remove d m) ≡ (if d == e then none else lookup e m)
unfolding lookup remove
lookup-remove d e [] = ground arith
lookup-remove d e ((k, t) ∷ m) = ground (arith, lookup-remove d e m)

pub lookup-insert :
    (d t e : ℕ) (m : SeenMap) → lookup e (insert d t m) ≡ (if d == e then some t else lookup e m)
unfolding lookup insert
lookup-insert d t e m = ground (arith, lookup-remove d e m)

pub lookup-forget :
    (ds : List ℕ) (e : ℕ) (m : SeenMap)
    → lookup e (forget ds m) ≡ (if has e ds then none else lookup e m)
unfolding forget
lookup-forget [] e m = refl
lookup-forget (d ∷ ds) e m = ground (arith, lookup-forget ds e (remove d m), lookup-remove d e m)
