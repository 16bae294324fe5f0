-- ===== src/Prelude/Results.antt =====
-- A function of the source that returns `bool` with an output and an `err` text.
use mathlib.Core.Option.{Option, none, some}
use iov_vehicle_tbox_tsp.Prelude.Strings.{Text}

pub data Result {ℓ} (A : Type ℓ) : Type ℓ where
  ok : A → Result A
  err : Text → Result A

-- `do` on options: a step that throws ends the block.
infixl 5 ◌>>=◌
abbrev pub ◌>>=◌ {ℓ κ} : {A : Type ℓ} {B : Type κ} → Option A → (A → Option B) → Option B
none >>= f = none
some a >>= f = f a
