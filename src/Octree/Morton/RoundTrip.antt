-- ===== src/Octree/Morton/RoundTrip.antt =====
-- Decoding gives back the lowest 21 bits of each coordinate.
use Prim.Native.Nat.{bit_or}
use odyssey_tasks.Prelude.{
  ℕ, ◌+◌, ◌-◌, ◌/◌, ◌%◌, ◌^◌, ◌≤◌, ◌<◌, ◌≡◌, refl, ap, ap₂, ◌∙◌, true, Option, none, List, ◌++◌,
  take, drop, replicate, ltb, if◌then◌else◌, arith,
}
use odyssey_tasks.Octree.Morton.{
  shift_left, shift_right, spread, gather, dilate1to3, compact3to1, encode3d, decode3d,
}
use odyssey_tasks.Octree.Morton.Wires.{
  value, mask_wires, join, disjoint, from, bit_and-value, bit_or-value, value-take, value-drop,
  value-shift, value-append_nones, value-from,
}

abbrev Wires : Type 0
Wires = List (Option ℕ)

abbrev shifted : ℕ → Wires → Wires
shifted k ws = take 64 (replicate k none ++ ws)

abbrev spread_wires : ℕ → ℕ → Wires → Wires
spread_wires k mask ws = mask_wires mask (join ws (shifted k ws))

abbrev gather_wires : ℕ → ℕ → Wires → Wires
gather_wires k mask ws = mask_wires mask (join ws (drop k ws))

-- The wires of `Dilate1to3`, and of `Compact3to1`.
abbrev dilated : Wires → Wires
dilated ws = spread_wires 2 0x1249249249249249 (
    spread_wires 4 0x10c30c30c30c30c3 (
      spread_wires 8 0x100F00F00F00F00F (
        spread_wires 16 0x1F0000FF0000FF
          (spread_wires 32 0x1F00000000FFFF (mask_wires 0x1FFFFF ws)))))

abbrev compacted : Wires → Wires
compacted ws = gather_wires 32 0x1FFFFF (
    gather_wires 16 0x1F00000000FFFF (
      gather_wires 8 0x1F0000FF0000FF (
        gather_wires 4 0x100F00F00F00F00F
          (gather_wires 2 0x10c30c30c30c30c3 (mask_wires 0x1249249249249249 ws)))))

module _ (e : ℕ → ℕ) (bits : (i : ℕ) → e i ≤ 1) where
  shift_left-value : (k : ℕ) (ws : Wires) → shift_left (value e ws) k ≡ value e (shifted k ws)
  shift_left-value k ws =
      ap (λ (t : ℕ). t % 2 ^ 64) (value-shift e bits k ws)
      ∙ value-take e bits 64 (replicate k none ++ ws)

  spread-value :
      (k mask : ℕ) (ws : Wires)
      → disjoint ws (shifted k ws) ≡ true
      → spread k mask (value e ws) ≡ value e (spread_wires k mask ws)
  unfolding spread
  spread-value k mask ws apart =
      rw (shift_left-value k ws, (bit_or-value e bits ws (shifted k ws) apart).0)
        (bit_and-value e bits mask (join ws (shifted k ws)))

  gather-value :
      (k mask : ℕ) (ws : Wires)
      → disjoint ws (drop k ws) ≡ true
      → gather k mask (value e ws) ≡ value e (gather_wires k mask ws)
  unfolding gather
  gather-value k mask ws apart =
      rw (value-drop e bits k ws, (bit_or-value e bits ws (drop k ws) apart).1)
        (bit_and-value e bits mask (join ws (drop k ws)))

  dilate1to3-value : (k : ℕ) → dilate1to3 (value e (from k 32)) ≡ value e (dilated (from k 32))
  unfolding dilate1to3
  dilate1to3-value k =
      let w0 : Wires = mask_wires 0x1FFFFF (from k 32) in
      let w1 : Wires = spread_wires 32 0x1F00000000FFFF w0 in
      let w2 : Wires = spread_wires 16 0x1F0000FF0000FF w1 in
      let w3 : Wires = spread_wires 8 0x100F00F00F00F00F w2 in
      let w4 : Wires = spread_wires 4 0x10c30c30c30c30c3 w3 in
      rw
        (
          bit_and-value e bits 0x1FFFFF (from k 32),
          spread-value 32 0x1F00000000FFFF w0 refl,
          spread-value 16 0x1F0000FF0000FF w1 refl,
          spread-value 8 0x100F00F00F00F00F w2 refl,
          spread-value 4 0x10c30c30c30c30c3 w3 refl,
        )
        (spread-value 2 0x1249249249249249 w4 refl)

  -- Where no two bits meet on the way, and the result has 21 bits.
  compact3to1-value :
      (ws : Wires)
      → let w0 = mask_wires 0x1249249249249249 ws in
        let w1 = gather_wires 2 0x10c30c30c30c30c3 w0 in
        let w2 = gather_wires 4 0x100F00F00F00F00F w1 in
        let w3 = gather_wires 8 0x1F0000FF0000FF w2 in
        let w4 = gather_wires 16 0x1F00000000FFFF w3 in
        disjoint w0 (drop 2 w0) ≡ true
        → disjoint w1 (drop 4 w1) ≡ true
        → disjoint w2 (drop 8 w2) ≡ true
        → disjoint w3 (drop 16 w3) ≡ true
        → disjoint w4 (drop 32 w4) ≡ true
        → compact3to1 (value e ws) ≡ value e (compacted ws) % 2 ^ 32
  unfolding compact3to1
  compact3to1-value ws d0 d1 d2 d3 d4 =
      let w0 : Wires = mask_wires 0x1249249249249249 ws in
      let w1 : Wires = gather_wires 2 0x10c30c30c30c30c3 w0 in
      let w2 : Wires = gather_wires 4 0x100F00F00F00F00F w1 in
      let w3 : Wires = gather_wires 8 0x1F0000FF0000FF w2 in
      let w4 : Wires = gather_wires 16 0x1F00000000FFFF w3 in
      rw (
        bit_and-value e bits 0x1249249249249249 ws,
        gather-value 2 0x10c30c30c30c30c3 w0 d0,
        gather-value 4 0x100F00F00F00F00F w1 d1,
        gather-value 8 0x1F0000FF0000FF w2 d2,
        gather-value 16 0x1F00000000FFFF w3 d3,
        gather-value 32 0x1FFFFF w4 d4,
      )

-- The bits of three words, one after another.
coordinates : ℕ → ℕ → ℕ → ℕ → ℕ
coordinates x y z i =
    if ltb i 32
    then x / 2 ^ i % 2
    else if ltb i 64
    then y / 2 ^ (i - 32) % 2
    else z / 2 ^ (i - 64) % 2

coordinates-le : (x y z i : ℕ) → coordinates x y z i ≤ 1
unfolding coordinates
coordinates-le x y z i = ground arith

abbrev code_wires : Wires
code_wires =
    join (join (dilated (from 0 32)) (shifted 1 (dilated (from 32 32))))
      (shifted 2 (dilated (from 64 32)))

module _ (x y z : ℕ) where
  abbrev e : ℕ → ℕ
  e = coordinates x y z

  x-value : (n : ℕ) → n ≤ 32 → value e (from 0 n) ≡ x % 2 ^ n
  unfolding coordinates
  x-value n h =
      value-from e (coordinates-le x y z) n 0 x
        (λ i hi. let same : 0 + i ≡ i = omega arith in rw same (ground arith))

  y-value : (n : ℕ) → n ≤ 32 → value e (from 32 n) ≡ y % 2 ^ n
  unfolding coordinates
  y-value n h =
      value-from e (coordinates-le x y z) n 32 y
        (λ i hi. let same : 32 + i - 32 ≡ i = omega arith in ground (arith, same))

  z-value : (n : ℕ) → n ≤ 32 → value e (from 64 n) ≡ z % 2 ^ n
  unfolding coordinates
  z-value n h =
      value-from e (coordinates-le x y z) n 64 z
        (λ i hi. let same : 64 + i - 64 ≡ i = omega arith in ground (arith, same))

  module _ (hx : x < 2 ^ 32) (hy : y < 2 ^ 32) (hz : z < 2 ^ 32) where
    dilate1to3-x : dilate1to3 x ≡ value e (dilated (from 0 32))
    dilate1to3-x =
        ap dilate1to3 (omega (arith, x-value 32 (omega arith)))
        ∙ dilate1to3-value e (coordinates-le x y z) 0

    dilate1to3-y : dilate1to3 y ≡ value e (dilated (from 32 32))
    dilate1to3-y =
        ap dilate1to3 (omega (arith, y-value 32 (omega arith)))
        ∙ dilate1to3-value e (coordinates-le x y z) 32

    dilate1to3-z : dilate1to3 z ≡ value e (dilated (from 64 32))
    dilate1to3-z =
        ap dilate1to3 (omega (arith, z-value 32 (omega arith)))
        ∙ dilate1to3-value e (coordinates-le x y z) 64

    encode3d-value : encode3d x y z ≡ value e code_wires
    unfolding encode3d
    encode3d-value =
        let bits = coordinates-le x y z in
        let wx : Wires = dilated (from 0 32) in
        let wy : Wires = dilated (from 32 32) in
        let wz : Wires = dilated (from 64 32) in
        ap₂ bit_or
          (ap₂ bit_or dilate1to3-x
              (ap (λ (t : ℕ). shift_left t 1) dilate1to3-y ∙ shift_left-value e bits 1 wy)
            ∙ (bit_or-value e bits wx (shifted 1 wy) refl).0)
          (ap (λ (t : ℕ). shift_left t 2) dilate1to3-z ∙ shift_left-value e bits 2 wz)
        ∙ (bit_or-value e bits (join wx (shifted 1 wy)) (shifted 2 wz) refl).0

    -- What is read from the code's wires, for the coordinate whose lowest bits they come to.
    compact3to1-encode3d :
        (skip k rest t : ℕ)
        → compact3to1 (value e (drop skip code_wires))
          ≡ value e (from k 21 ++ replicate rest none) % 2 ^ 32
        → value e (from k 21) ≡ t % 2 ^ 21
        → compact3to1 (shift_right (encode3d x y z) skip) ≡ t % 2 ^ 21
    compact3to1-encode3d skip k rest t read lowest =
        ap (λ (c : ℕ). compact3to1 (shift_right c skip)) encode3d-value
        ∙ (ap compact3to1 (value-drop e (coordinates-le x y z) skip code_wires)
            ∙ (read
                ∙ omega
                    (arith, value-append_nones e (coordinates-le x y z) (from k 21) rest, lowest)))

    -- The lowest 21 bits of each of three coordinates of 32 bits are read back from their code.
    pub decode3d-encode3d : decode3d (encode3d x y z) ≡ (x % 2 ^ 21, y % 2 ^ 21, z % 2 ^ 21)
    unfolding decode3d
    decode3d-encode3d =
        let bits = coordinates-le x y z in
        let read_x = compact3to1-value e bits code_wires refl refl refl refl refl in
        let read_y = compact3to1-value e bits (drop 1 code_wires) refl refl refl refl refl in
        let read_z = compact3to1-value e bits (drop 2 code_wires) refl refl refl refl refl in
        let whole : encode3d x y z / 1 ≡ encode3d x y z = omega arith in
        let of_x : compact3to1 (encode3d x y z) ≡ x % 2 ^ 21 =
          rw whole at (compact3to1-encode3d 0 0 43 x read_x (x-value 21 (omega arith))) in
        let of_y = compact3to1-encode3d 1 32 42 y read_y (y-value 21 (omega arith)) in
        let of_z = compact3to1-encode3d 2 64 41 z read_z (z-value 21 (omega arith)) in
        rw (of_x, of_y, of_z)
