-- ===== src/Prelude/Results.antt =====
-- Rust's `Result`, `?` as a bind, and the `Option` combinators that the program uses.
use mathlib.Core.Bool.{Bool, true, false}
use mathlib.Core.Path.{◌≡◌, refl, subst}
use mathlib.Core.Option.{Option, none, some}
use aprsr.Prelude.Tests.{if◌then◌else◌}

pub data Result {ℓ κ} (A : Type ℓ) (E : Type κ) : Type (ℓ ⊔ κ) where
  ok : A → Result A E
  err : E → Result A E

module _ {ℓ κ μ} {A : Type ℓ} {B : Type κ} {E : Type μ} where
  infixl 5 ◌>>=◌
  abbrev pub ◌>>=◌ : Result A E → (A → Result B E) → Result B E
  err reason >>= next = err reason
  ok value >>= next = next value

  -- A chain that succeeds: its first step did, and the rest did on its value.
  pub >>=-eq-ok :
      (first : Result A E) (next : A → Result B E) {last : B}
      → (first >>= next) ≡ ok last
      → (value : A) × (first ≡ ok value) × (next value ≡ ok last)
  >>=-eq-ok (err reason) next done = cc
  >>=-eq-ok (ok value) next done = (value, refl, done)

module _ {ℓ κ} {A : Type ℓ} {E : Type κ} where
  -- `Option::ok_or`
  abbrev pub ok_or : Option A → E → Result A E
  ok_or none e = err e
  ok_or (some a) e = ok a

  -- `Result::is_ok`
  abbrev pub is_ok : Result A E → Bool
  is_ok (ok a) = true
  is_ok (err e) = false

-- `Result::map_err`
abbrev pub map_err {ℓ κ μ} :
    {A : Type ℓ} {E : Type κ} {F : Type μ} → (E → F) → Result A E → Result A F
map_err f (ok a) = ok a
map_err f (err e) = err (f e)

module _ {ℓ} {A : Type ℓ} where
  abbrev pub is_some : Option A → Bool
  is_some none = false
  is_some (some a) = true

  -- `Option::is_some_and`
  abbrev pub is_some_and : Option A → (A → Bool) → Bool
  is_some_and none f = false
  is_some_and (some a) f = f a

-- A result whose value, if it has one, has a property.
module _ {ℓ κ μ} {A : Type ℓ} {E : Type κ} (P : A → Type μ) where
  pub data Yields : Result A E → Type (ℓ ⊔ κ ⊔ μ) where
    yields : (a : A) → P a → Yields (ok a)
    refuses : (e : E) → Yields (err e)

  pub Yields-ok : (r : Result A E) (a : A) → Yields r → r ≡ ok a → P a
  Yields-ok (ok b) a (yields _ p) e = subst P (cc) p
  Yields-ok (err reason) a y e = absurd (cc)

  pub Yields-if : (b : Bool) (x y : Result A E) → Yields x → Yields y → Yields (if b then x else y)
  Yields-if true x y px py = px
  Yields-if false x y px py = py

  -- Whatever the first step yields.
  pub Yields-bind {ν} :
      {B : Type ν} (m : Result B E) (next : B → Result A E)
      → ((b : B) → Yields (next b))
      → Yields (m >>= next)
  Yields-bind (ok b) next h = h b
  Yields-bind (err e) next h = refuses e

module _ {ℓ κ μ ν} {A : Type ℓ} {E : Type κ} (P : A → Type μ) (Q : A → Type ν) where
  pub Yields-imp : (r : Result A E) → Yields P r → ((a : A) → P a → Q a) → Yields Q r
  Yields-imp (ok a) (yields _ p) f = yields a (f a p)
  Yields-imp (err e) y f = refuses e

module _ {ℓ κ μ ν ξ} {A : Type ℓ} {B : Type κ} {E : Type μ} (P : A → Type ν) (Q : B → Type ξ) where
  pub Yields-then :
      (m : Result A E) (next : A → Result B E)
      → Yields P m
      → ((a : A) → P a → Yields Q (next a))
      → Yields Q (m >>= next)
  Yields-then (ok a) next (yields _ p) k = k a p
  Yields-then (err e) next y k = refuses e
