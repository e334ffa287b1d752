-- ===== src/Prelude/Options.antt =====
-- Chains of `Option` results: `?` in a function that returns an `Option`, and an early `return None`.
use mathlib.Core.Bool.{Bool, true, false}
use mathlib.Core.Option.{Option, none, some}

module _ {ℓ κ} {A : Type ℓ} {B : Type κ} where
  infixl 5 ◌>>=◌
  abbrev pub ◌>>=◌ : Option A → (A → Option B) → Option B
  none >>= next = none
  some value >>= next = next value

-- `if !condition { return None; }`
abbrev pub require : Bool → Option (Unit {0})
require true = some tt
require false = none
