-- ===== src/Octree/Morton/Wires.antt =====
-- Words whose bits are bits of something else, or 0: what masks, shifts, "or" and "xor" make of them is
-- computed on lists of wires, from the lowest bit on.
use Prim.Native.Nat.{
  bit_and, bit_or, bit_xor, differ, bit_and-bitwise, bit_or-bitwise, bit_xor-bitwise,
}
use native.Mathlib.Nat.{pow-suc, mul_assoc, zero-div, zero-mod, div-div-eq-div-mul, div-add-mod}
use odyssey_tasks.Prelude.{
  ℕ, zero, suc, ◌+◌, ◌*◌, ◌/◌, ◌%◌, ◌^◌, ◌≤◌, ◌<◌, ◌≡◌, refl, ap, sym, ◌∙◌, Bool, true, false, ◌&&◌,
  Option, none, some, List, [], ◌∷◌, ◌++◌, take, drop, replicate, ◌==◌, if◌then◌else◌, max, arith,
  Bool-cases, inl, inr,
}
use odyssey_tasks.Prelude.Bits.{and_step, or_step, xor_step}

pub bit_of : (ℕ → ℕ) → Option ℕ → ℕ
bit_of e none = 0
bit_of e (some i) = e i

pub value : (ℕ → ℕ) → List (Option ℕ) → ℕ
unfolding bit_of
value e [] = 0
value e (w ∷ ws) = bit_of e w + 2 * value e ws

abbrev pub mask_wires : ℕ → List (Option ℕ) → List (Option ℕ)
mask_wires m [] = []
mask_wires m (w ∷ ws) = (if m % 2 == 0 then none else w) ∷ mask_wires (m / 2) ws

-- The wire of two that is not 0.
abbrev pub either : Option ℕ → Option ℕ → Option ℕ
either none u = u
either (some i) u = some i

abbrev pub join : List (Option ℕ) → List (Option ℕ) → List (Option ℕ)
join [] us = us
join (w ∷ ws) [] = w ∷ ws
join (w ∷ ws) (u ∷ us) = either w u ∷ join ws us

abbrev pub one_at_most : Option ℕ → Option ℕ → Bool
one_at_most none u = true
one_at_most (some i) none = true
one_at_most (some i) (some j) = false

abbrev pub disjoint : List (Option ℕ) → List (Option ℕ) → Bool
disjoint [] us = true
disjoint (w ∷ ws) [] = true
disjoint (w ∷ ws) (u ∷ us) = one_at_most w u && disjoint ws us

-- The next `n` wires from `k` on.
abbrev pub from : ℕ → ℕ → List (Option ℕ)
from k zero = []
from k (suc n) = some k ∷ from (suc k) n

differ-zero : (n : ℕ) → differ n 0 ≡ n
differ-zero zero = refl
differ-zero (suc n) = refl

and_true : (a b : Bool) → (a && b) ≡ true → (a ≡ true) × (b ≡ true)
and_true true b h = (refl, h)
and_true false b h = cc

pow-suc' : (n : ℕ) → 2 ^ suc n ≡ 2 * 2 ^ n
pow-suc' n = omega (arith, pow-suc 2 n)

-- A lowest bit more.
mod_double : (b v n : ℕ) → b ≤ 1 → (b + 2 * v) % 2 ^ suc n ≡ b + 2 * (v % 2 ^ n)
mod_double b v n small =
    let p = 2 ^ n in
    let half : (b + 2 * v) / 2 ≡ v = omega arith in
    let same : (b + 2 * v) / (2 * p) ≡ v / p =
      sym (div-div-eq-div-mul (b + 2 * v) 2 p) ∙ ap (λ (t : ℕ). t / p) half in
    let whole = rw same at (div-add-mod (b + 2 * v) (2 * p)) in
    rw (pow-suc' n) (omega (arith, whole, div-add-mod v p, mul_assoc 2 p (v / p)))

module _ (e : ℕ → ℕ) (bits : (i : ℕ) → e i ≤ 1) where
  bit_of-le : (w : Option ℕ) → bit_of e w ≤ 1
  unfolding bit_of
  bit_of-le none = omega arith
  bit_of-le (some i) = bits i

  pub bit_and-value :
      (m : ℕ) (ws : List (Option ℕ)) → bit_and (value e ws) m ≡ value e (mask_wires m ws)
  unfolding value bit_of
  bit_and-value m [] = bit_and-bitwise 0 m
  bit_and-value m (w ∷ ws) =
      let v = value e ws in
      let half : (bit_of e w + 2 * v) / 2 ≡ v = omega (arith, bit_of-le w) in
      let low : (bit_of e w + 2 * v) % 2 ≡ bit_of e w = omega (arith, bit_of-le w) in
      let step = rw (half, low) at (and_step (bit_of e w + 2 * v) m) in
      elim (Bool-cases (m % 2 == 0)) [
        | inl off ↦ rw off (ground (arith, step, bit_of-le w, bit_and-value (m / 2) ws))
        | inr on ↦ rw on (ground (arith, step, bit_of-le w, bit_and-value (m / 2) ws))
      ]

  either-bit_of :
      (w u : Option ℕ)
      → one_at_most w u ≡ true
      → (max (bit_of e w) (bit_of e u) ≡ bit_of e (either w u))
        × (differ (bit_of e w) (bit_of e u) ≡ bit_of e (either w u))
  unfolding bit_of
  either-bit_of none u h = (omega arith, refl)
  either-bit_of (some i) none h = (omega arith, differ-zero (e i))
  either-bit_of (some i) (some j) h = cc

  nothing_added :
      (ws : List (Option ℕ))
      → (bit_or (value e ws) 0 ≡ value e ws) × (bit_xor (value e ws) 0 ≡ value e ws)
  unfolding value
  nothing_added [] = (bit_or-bitwise 0 0, bit_xor-bitwise 0 0)
  nothing_added (w ∷ ws) =
      let v = value e ws in
      let half : (bit_of e w + 2 * v) / 2 ≡ v = omega (arith, bit_of-le w) in
      let low : (bit_of e w + 2 * v) % 2 ≡ bit_of e w = omega (arith, bit_of-le w) in
      let step = rw (half, low) at (or_step (bit_of e w + 2 * v) 0) in
      let step' = rw (half, low, differ-zero (bit_of e w)) at (xor_step (bit_of e w + 2 * v) 0) in
      let rest = nothing_added ws in (omega (arith, step, rest.0), omega (arith, step', rest.1))

  -- "Or" and "xor" of words that share no bit.
  pub bit_or-value :
      (ws us : List (Option ℕ))
      → disjoint ws us ≡ true
      → (bit_or (value e ws) (value e us) ≡ value e (join ws us))
        × (bit_xor (value e ws) (value e us) ≡ value e (join ws us))
  unfolding value bit_of
  bit_or-value [] us h = (bit_or-bitwise 0 (value e us), bit_xor-bitwise 0 (value e us))
  bit_or-value (w ∷ ws) [] h = nothing_added (w ∷ ws)
  bit_or-value (w ∷ ws) (u ∷ us) h =
      let v = value e ws in
      let x = value e us in
      let half : (bit_of e w + 2 * v) / 2 ≡ v = omega (arith, bit_of-le w) in
      let low : (bit_of e w + 2 * v) % 2 ≡ bit_of e w = omega (arith, bit_of-le w) in
      let half' : (bit_of e u + 2 * x) / 2 ≡ x = omega (arith, bit_of-le u) in
      let low' : (bit_of e u + 2 * x) % 2 ≡ bit_of e u = omega (arith, bit_of-le u) in
      let step =
        rw (half, low, half', low') at (or_step (bit_of e w + 2 * v) (bit_of e u + 2 * x)) in
      let step' =
        rw (half, low, half', low') at (xor_step (bit_of e w + 2 * v) (bit_of e u + 2 * x)) in
      let both = either-bit_of w u (and_true (one_at_most w u) (disjoint ws us) h).0 in
      let rest = bit_or-value ws us (and_true (one_at_most w u) (disjoint ws us) h).1 in
      (omega (arith, step, both.0, rest.0), omega (arith, step', both.1, rest.1))

  pub value-drop : (n : ℕ) (ws : List (Option ℕ)) → value e ws / 2 ^ n ≡ value e (drop n ws)
  unfolding value
  value-drop zero ws = omega arith
  value-drop (suc n) [] = zero-div (2 ^ suc n)
  value-drop (suc n) (w ∷ ws) =
      let N = bit_of e w + 2 * value e ws in
      let half : N / 2 ≡ value e ws = omega (arith, bit_of-le w) in
      rw (pow-suc' n)
        (sym (div-div-eq-div-mul N 2 (2 ^ n)) ∙ (ap (λ (t : ℕ). t / 2 ^ n) half ∙ value-drop n ws))

  pub value-take : (n : ℕ) (ws : List (Option ℕ)) → value e ws % 2 ^ n ≡ value e (take n ws)
  unfolding value
  value-take zero ws = omega arith
  value-take (suc n) [] = zero-mod (2 ^ suc n)
  value-take (suc n) (w ∷ ws) =
      omega (arith, mod_double (bit_of e w) (value e ws) n (bit_of-le w), value-take n ws)

  pub value-shift :
      (k : ℕ) (ws : List (Option ℕ)) → value e ws * 2 ^ k ≡ value e (replicate k none ++ ws)
  unfolding value bit_of
  value-shift zero ws = omega arith
  value-shift (suc k) ws =
      omega (arith, value-shift k ws, ap (λ (t : ℕ). value e ws * t) (pow-suc 2 k))

  pub value-nones : (n : ℕ) → value e (replicate n none) ≡ 0
  unfolding value bit_of
  value-nones zero = refl
  value-nones (suc n) = omega (arith, value-nones n)

  pub value-append_nones :
      (ws : List (Option ℕ)) (n : ℕ) → value e (ws ++ replicate n none) ≡ value e ws
  unfolding value
  value-append_nones [] n = value-nones n
  value-append_nones (w ∷ ws) n = omega (arith, value-append_nones ws n)

  -- The wires from `k` on are a number's lowest bits, if they are its bits one by one.
  pub value-from :
      (n k x : ℕ) → ((i : ℕ) → i < n → e (k + i) ≡ x / 2 ^ i % 2) → value e (from k n) ≡ x % 2 ^ n
  unfolding value bit_of
  value-from zero k x h = omega arith
  value-from (suc n) k x h =
      let here : k + 0 ≡ k = omega arith in
      let first : e k ≡ x % 2 = omega (arith, rw here at (h 0 (omega arith))) in
      let whole : x % 2 + 2 * (x / 2) ≡ x = omega arith in
      let further = value-from n (suc k) (x / 2) (λ i hi.
        let there : k + suc i ≡ suc k + i = omega arith in
        let bit = rw there at (h (suc i) (omega arith)) in
        bit
        ∙ ap (λ (t : ℕ). t % 2)
            (ap (λ (t : ℕ). x / t) (pow-suc' i) ∙ sym (div-div-eq-div-mul x 2 (2 ^ i)))) in
      let split = rw whole at (mod_double (x % 2) (x / 2) n (omega arith)) in
      omega (arith, first, further, split)
