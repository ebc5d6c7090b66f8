-- ===== src/Prelude/Outcome.antt =====
-- What becomes of a decoder: a value, `std::nullopt`, behaviour that C++ leaves undefined (an index or
-- a `subspan` beyond the end, too wide a shift, or the value of a variable that was never written), or
-- rounds of a loop left when the fuel ran out.
use Prim.Native.Nat.{ℕ}
use mathlib.Core.List.{List}

pub data Outcome {ℓ} (A : Type ℓ) : Type ℓ where
  ok : A → Outcome A
  reject : Outcome A
  fault : Outcome A
  out_of_fuel : Outcome A

infixl 5 ◌>>=◌
abbrev pub ◌>>=◌ {ℓ κ} : {A : Type ℓ} {B : Type κ} → Outcome A → (A → Outcome B) → Outcome B
ok a >>= f = f a
reject >>= f = reject
fault >>= f = fault
out_of_fuel >>= f = out_of_fuel

abbrev pub Reader : Type 0 → Type 0
Reader A = List ℕ → Outcome (A × List ℕ)
