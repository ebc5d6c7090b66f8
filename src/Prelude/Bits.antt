-- ===== src/Prelude/Bits.antt =====
-- The bitwise operations of the native numbers in plain arithmetic: one step of the recursion on
-- digits, masks of ones, and "or" of numbers without a common bit.
use Prim.Native.Nat.{
  ℕ, zero, suc, two, ◌+◌, ◌*◌, ◌/◌, ◌%◌, ◌^◌, ◌≤◌, ◌<◌, min, max, bit_and, bit_or, bit_xor, differ,
  digits, bit_and-bitwise, bit_or-bitwise, bit_xor-bitwise,
}
use mathlib.Core.Path.{◌≡◌, refl, sym, ap, ◌∙◌}
use native.Mathlib.Nat.{pow-suc}
use native.Mathlib.Omega.{arith}

module _ (last : ℕ → ℕ) (op : ℕ → ℕ → ℕ) where
  ran_out : (fuel y : ℕ) → digits last op fuel 0 y ≡ last y
  ran_out zero y = refl
  ran_out (suc fuel) y = refl

  -- Two amounts of fuel that are both enough for `x`, which is at most `bound`.
  same_digits :
      (bound x y f g : ℕ) → x ≤ bound → x ≤ f → x ≤ g → digits last op f x y ≡ digits last op g x y
  same_digits bound zero y f g below left right = ran_out f y ∙ sym (ran_out g y)
  same_digits (suc bound) (suc x) y (suc f) (suc g) below left right =
      ap (λ (d : ℕ). d * two + op (suc x % two) (y % two))
        (same_digits bound (suc x / two) (y / two) f g (omega arith) (omega arith) (omega arith))
  same_digits zero (suc x) y f g below left right = absurd (omega arith)
  same_digits (suc bound) (suc x) y zero g below left right = absurd (omega arith)
  same_digits (suc bound) (suc x) y (suc f) zero below left right = absurd (omega arith)

  -- The lowest digit apart from the others.
  digits_step :
      (x y : ℕ)
      → digits last op (suc x) (suc x) y
        ≡ digits last op (suc x / 2) (suc x / 2) (y / 2) * 2 + op (suc x % 2) (y % 2)
  digits_step x y =
      ap (λ (d : ℕ). d * 2 + op (suc x % 2) (y % 2))
        (same_digits x (suc x / 2) (y / 2) x (suc x / 2) (omega arith) (omega arith) (omega arith))

pub and_step : (x y : ℕ) → bit_and x y ≡ 2 * bit_and (x / 2) (y / 2) + min (x % 2) (y % 2)
and_step zero y = omega (arith, bit_and-bitwise 0 y, bit_and-bitwise 0 (y / 2))
and_step (suc x) y = omega (
  arith,
  bit_and-bitwise (suc x) y ∙ digits_step (λ _. zero) min x y,
  bit_and-bitwise (suc x / 2) (y / 2),
)

pub or_step : (x y : ℕ) → bit_or x y ≡ 2 * bit_or (x / 2) (y / 2) + max (x % 2) (y % 2)
or_step zero y = omega (arith, bit_or-bitwise 0 y, bit_or-bitwise 0 (y / 2))
or_step (suc x) y = omega (
  arith,
  bit_or-bitwise (suc x) y ∙ digits_step (λ b. b) max x y,
  bit_or-bitwise (suc x / 2) (y / 2),
)

pub xor_step : (x y : ℕ) → bit_xor x y ≡ 2 * bit_xor (x / 2) (y / 2) + differ (x % 2) (y % 2)
xor_step zero y = omega (arith, bit_xor-bitwise 0 y, bit_xor-bitwise 0 (y / 2))
xor_step (suc x) y = omega (
  arith,
  bit_xor-bitwise (suc x) y ∙ digits_step (λ b. b) differ x y,
  bit_xor-bitwise (suc x / 2) (y / 2),
)

nothing_in_common : (bound x : ℕ) → x ≤ bound → bit_and x 0 ≡ 0
nothing_in_common bound zero below = refl
nothing_in_common (suc bound) (suc x) below =
    omega (arith, and_step (suc x) 0, nothing_in_common bound (suc x / 2) (omega arith))
nothing_in_common zero (suc x) below = absurd (omega arith)

or_nothing : (bound x : ℕ) → x ≤ bound → bit_or x 0 ≡ x
or_nothing bound zero below = refl
or_nothing (suc bound) (suc x) below =
    omega (arith, or_step (suc x) 0, or_nothing bound (suc x / 2) (omega arith))
or_nothing zero (suc x) below = absurd (omega arith)

pub bit_and-zero : (x : ℕ) → bit_and x 0 ≡ 0
bit_and-zero x = nothing_in_common x x (omega arith)

-- A mask of ones takes a remainder. Four digits are taken off in one go.
pub bit_and-1 : (x : ℕ) → bit_and x 1 ≡ x % 2
bit_and-1 x = omega (arith, and_step x 1, bit_and-zero (x / 2))

pub bit_and-3 : (x : ℕ) → bit_and x 3 ≡ x % 4
bit_and-3 x = omega (arith, and_step x 3, and_step (x / 2) 1, bit_and-zero (x / 2 / 2))

four_ones : (x m : ℕ) → bit_and x (16 * m + 15) ≡ 16 * bit_and (x / 2 / 2 / 2 / 2) m + x % 16
four_ones x m =
    let halves : ((16 * m + 15) / 2 ≡ 8 * m + 7)
        × ((8 * m + 7) / 2 ≡ 4 * m + 3)
        × ((4 * m + 3) / 2 ≡ 2 * m + 1)
        × ((2 * m + 1) / 2 ≡ m) =
      (omega arith, omega arith, omega arith, omega arith) in
    omega (
      arith,
      rw halves.0 at (and_step x (16 * m + 15)),
      rw halves.1 at (and_step (x / 2) (8 * m + 7)),
      rw halves.2 at (and_step (x / 2 / 2) (4 * m + 3)),
      rw halves.3 at (and_step (x / 2 / 2 / 2) (2 * m + 1)),
    )

-- A mask with a lowest bit of 0.
and_double : (x m : ℕ) → bit_and x (2 * m) ≡ 2 * bit_and (x / 2) m
and_double x m =
    let half : 2 * m / 2 ≡ m = omega arith in omega (arith, rw half at (and_step x (2 * m)))

-- A single bit.
bit_and-8 : (x : ℕ) → bit_and x 8 ≡ 8 * (x / 8 % 2)
bit_and-8 x = omega (
  arith,
  and_double x 4,
  and_double (x / 2) 2,
  and_double (x / 2 / 2) 1,
  and_step (x / 2 / 2 / 2) 1,
  bit_and-zero (x / 2 / 2 / 2 / 2),
)

pub bit_and-64 : (x : ℕ) → bit_and x 64 ≡ 64 * (x / 64 % 2)
bit_and-64 x = omega (
  arith,
  and_double x 32,
  and_double (x / 2) 16,
  and_double (x / 2 / 2) 8,
  bit_and-8 (x / 2 / 2 / 2),
)

pub bit_and-128 : (x : ℕ) → bit_and x 128 ≡ 128 * (x / 128 % 2)
bit_and-128 x = omega (arith, and_double x 64, bit_and-64 (x / 2))

pub bit_and-127 : (x : ℕ) → bit_and x 127 ≡ x % 128
bit_and-127 x =
    omega (arith, four_ones x 7, and_step (x / 2 / 2 / 2 / 2) 7, bit_and-3 (x / 2 / 2 / 2 / 2 / 2))

pub bit_and-63 : (x : ℕ) → bit_and x 63 ≡ x % 64
bit_and-63 x = omega (arith, four_ones x 3, bit_and-3 (x / 2 / 2 / 2 / 2))

pub bit_and-255 : (x : ℕ) → bit_and x 255 ≡ x % 256
bit_and-255 x = omega (
  arith,
  four_ones x 15,
  four_ones (x / 2 / 2 / 2 / 2) 0,
  bit_and-zero (x / 2 / 2 / 2 / 2 / 2 / 2 / 2 / 2),
)

-- Where `y` fits below the lowest bit of `v * 2 ^ k`, "or" is addition.
pub bit_or_disjoint : (k v y : ℕ) → y < 2 ^ k → bit_or (v * 2 ^ k) y ≡ v * 2 ^ k + y
bit_or_disjoint zero v y small =
    let none : y ≡ 0 = omega arith in
    rw none (omega (arith, or_nothing (v * 1) (v * 1) (omega arith)))
bit_or_disjoint (suc k) v y small =
    let doubled : v * 2 ^ suc k ≡ 2 * (v * 2 ^ k) = omega (arith, ap (◌*◌ v) (pow-suc 2 k)) in
    let half : 2 * (v * 2 ^ k) / 2 ≡ v * 2 ^ k = omega arith in
    let even : 2 * (v * 2 ^ k) % 2 ≡ 0 = omega arith in
    let first = rw (half, even) at (or_step (2 * (v * 2 ^ k)) y) in
    rw doubled (omega (arith, first, bit_or_disjoint k v (y / 2) (omega (arith, pow-suc 2 k))))

or_comm : (bound x y : ℕ) → x ≤ bound → bit_or x y ≡ bit_or y x
or_comm bound zero y below = omega (arith, bit_or-bitwise 0 y, or_nothing y y)
or_comm (suc bound) (suc x) y below =
    omega
      (arith, or_step (suc x) y, or_step y (suc x), or_comm bound (suc x / 2) (y / 2) (omega arith))
or_comm zero (suc x) y below = absurd (omega arith)

-- The same from the other side.
pub bit_or-below : (k v y : ℕ) → y < 2 ^ k → bit_or y (v * 2 ^ k) ≡ y + v * 2 ^ k
bit_or-below k v y small =
    omega (arith, or_comm y y (v * 2 ^ k) (omega arith), bit_or_disjoint k v y small)
