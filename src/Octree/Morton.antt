-- ===== src/Octree/Morton.antt =====
-- morton.hpp and morton.cpp: three numbers of 21 bits interleaved. Words have 64 bits, and the
-- coordinates 32.
pub mod Wires
pub mod RoundTrip
use Prim.Native.Nat.{bit_and, bit_or, bit_xor}
use odyssey_tasks.Prelude.{ℕ, ◌*◌, ◌/◌, ◌%◌, ◌^◌}

-- `v << k`
abbrev pub shift_left : ℕ → ℕ → ℕ
shift_left v k = v * 2 ^ k % 2 ^ 64

-- `v >> k`
abbrev pub shift_right : ℕ → ℕ → ℕ
shift_right v k = v / 2 ^ k

-- One line of `Dilate1to3`, and one of `Compact3to1`.
unfoldable pub spread : ℕ → ℕ → ℕ → ℕ
spread k mask v = bit_and (bit_or v (shift_left v k)) mask

unfoldable pub gather : ℕ → ℕ → ℕ → ℕ
gather k mask v = bit_and (bit_xor v (shift_right v k)) mask

unfoldable pub dilate1to3 : ℕ → ℕ
unfolding spread
dilate1to3 x =
    let v0 = bit_and x 0x1FFFFF in
    let v1 = spread 32 0x1F00000000FFFF v0 in
    let v2 = spread 16 0x1F0000FF0000FF v1 in
    let v3 = spread 8 0x100F00F00F00F00F v2 in
    let v4 = spread 4 0x10c30c30c30c30c3 v3 in spread 2 0x1249249249249249 v4

unfoldable pub compact3to1 : ℕ → ℕ
unfolding gather
compact3to1 x =
    let v0 = bit_and x 0x1249249249249249 in
    let v1 = gather 2 0x10c30c30c30c30c3 v0 in
    let v2 = gather 4 0x100F00F00F00F00F v1 in
    let v3 = gather 8 0x1F0000FF0000FF v2 in
    let v4 = gather 16 0x1F00000000FFFF v3 in gather 32 0x1FFFFF v4 % 2 ^ 32

unfoldable pub encode3d : ℕ → ℕ → ℕ → ℕ
unfolding dilate1to3
encode3d x y z =
    bit_or (bit_or (dilate1to3 x) (shift_left (dilate1to3 y) 1)) (shift_left (dilate1to3 z) 2)

unfoldable pub decode3d : ℕ → ℕ × ℕ × ℕ
unfolding compact3to1
decode3d code =
    (compact3to1 code, compact3to1 (shift_right code 1), compact3to1 (shift_right code 2))
