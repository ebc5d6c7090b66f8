-- ===== src/Vector/Float.antt =====
-- Single precision numbers, which the sources of the vector engine only call: a parameter.
use odyssey_tasks.Prelude.{ℕ, ◌+◌, ◌-◌, ◌*◌, ◌^◌, ◌≤◌, ◌≡◌, min, max, Bool, true, false}

pub record Float : Type 1 where
  pub carrier : Type 0
  pub of_nat : ℕ → carrier
  -- `std::numeric_limits<float>::max()`
  pub largest : carrier
  pub add : carrier → carrier → carrier
  pub sub : carrier → carrier → carrier
  pub mul : carrier → carrier → carrier
  pub div : carrier → carrier → carrier
  -- `_mm256_fmadd_ps` in one lane: the first times the second, and the third on top.
  pub fused : carrier → carrier → carrier → carrier
  pub less : carrier → carrier → Bool

-- What comparisons and rounded sums of floats do where none is NaN: a weak order, and no sum
-- decreases when a summand grows.
pub record IsOrdered (F : Float) : Type 0 where
  pub less_irreflexive : (a : F.carrier) → F.less a a ≡ false
  pub not_less_trans :
      (a b c : F.carrier) → F.less b a ≡ false → F.less c b ≡ false → F.less c a ≡ false
  pub less-not_less : (a b : F.carrier) → F.less a b ≡ true → F.less b a ≡ false
  pub add_monotone :
      (a b c d : F.carrier)
      → F.less b a ≡ false
      → F.less d c ≡ false
      → F.less (F.add b d) (F.add a c) ≡ false

-- What single precision floats do with whole numbers: up to 2^24 each has its float, and a sum, a
-- product or the square of a difference that is not larger is not rounded.
pub record IsExact (F : Float) : Type 0 where
  pub add-nat : (a b : ℕ) → a + b ≤ 2 ^ 24 → F.add (F.of_nat a) (F.of_nat b) ≡ F.of_nat (a + b)
  pub mul-nat :
      (a b : ℕ)
      → a ≤ 2 ^ 24
      → b ≤ 2 ^ 24
      → a * b ≤ 2 ^ 24
      → F.mul (F.of_nat a) (F.of_nat b) ≡ F.of_nat (a * b)
  pub fused-nat :
      (a b c : ℕ)
      → a ≤ 2 ^ 24
      → b ≤ 2 ^ 24
      → a * b + c ≤ 2 ^ 24
      → F.fused (F.of_nat a) (F.of_nat b) (F.of_nat c) ≡ F.of_nat (a * b + c)
  pub square-nat :
      (a b : ℕ)
      → a ≤ 2 ^ 24
      → b ≤ 2 ^ 24
      → (max a b - min a b) * (max a b - min a b) ≤ 2 ^ 24
      → F.mul (F.sub (F.of_nat a) (F.of_nat b)) (F.sub (F.of_nat a) (F.of_nat b))
        ≡ F.of_nat ((max a b - min a b) * (max a b - min a b))
  pub fused_square-nat :
      (a b c : ℕ)
      → a ≤ 2 ^ 24
      → b ≤ 2 ^ 24
      → (max a b - min a b) * (max a b - min a b) + c ≤ 2 ^ 24
      → F.fused (F.sub (F.of_nat a) (F.of_nat b)) (F.sub (F.of_nat a) (F.of_nat b)) (F.of_nat c)
        ≡ F.of_nat ((max a b - min a b) * (max a b - min a b) + c)
