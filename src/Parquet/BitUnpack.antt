-- ===== src/Parquet/BitUnpack.antt =====
-- bit_unpack.cpp: groups of eight packed numbers, and runs of them. `fault` is a shift by the width of
-- the type or more, a `subspan` beyond the end, or a number that was never written.
pub mod Runs
use Prim.Native.Nat.{bit_and, bit_or}
use odyssey_tasks.Prelude.{
  ℕ, zero, suc, ◌+◌, ◌-◌, ◌*◌, ◌/◌, ◌%◌, ◌^◌, min, Bool, true, false, ◌||◌, Option, none, some,
  List, [], ◌∷◌, ◌++◌, length, take, drop, replicate, ltb, leb, ◌==◌, if◌then◌else◌,
}
use odyssey_tasks.Prelude.Outcome.{Outcome, ok, fault, out_of_fuel, ◌>>=◌, Reader}

-- The bytes in `buffer`, the first in the lowest place.
load_bytes : ℕ → ℕ → List ℕ → ℕ → ℕ
load_bytes zero i input buffer = buffer
load_bytes (suc rounds) i [] buffer = buffer
load_bytes (suc rounds) i (byte ∷ input) buffer =
    load_bytes rounds (suc i) input (bit_or buffer (byte * 2 ^ (i * 8) % 2 ^ 64))

-- The numbers from `i` on.
slices : ℕ → ℕ → ℕ → ℕ → List ℕ
slices zero i bit_width buffer = []
slices (suc rounds) i bit_width buffer =
    bit_and (buffer / 2 ^ (i * bit_width)) (2 ^ bit_width - 1)
    ∷ slices rounds (suc i) bit_width buffer

-- The last of the eight shifts is by `7 * bit_width`.
pub unpack8 : List ℕ → ℕ → List ℕ → Outcome (List ℕ)
unpack8 input bit_width out =
    if bit_width == 0 || (length input == 0 || ltb (length out) 8)
    then ok out
    else if leb 64 (7 * bit_width)
    then fault
    else ok (slices 8 0 bit_width (load_bytes (min (length input) 8) 0 input 0) ++ drop 8 out)

-- The loop of `Unpack32_AVX2` from group `g` on.
unpack_groups : ℕ → ℕ → List ℕ → ℕ → List ℕ → Outcome (List ℕ)
unpack_groups zero g input bit_width out = ok out
unpack_groups (suc rounds) g input bit_width out =
    let byte_offset = g * 8 * bit_width / 8 in
    let next = do
      group ← unpack8 (drop byte_offset input) bit_width (take 8 (drop (g * 8) out))
      unpack_groups rounds (suc g) input bit_width
          (take (g * 8) out ++ (group ++ drop (g * 8 + 8) out))
    in if leb (length input) byte_offset then ok out else next

pub unpack32 : List ℕ → ℕ → List ℕ → Outcome (List ℕ)
unpack32 input bit_width out =
    if ltb (length out) 32 then ok out else unpack_groups 4 0 input bit_width out

-- The header of a run: seven bits a byte, in 32 bits.
read_header : ℕ → ℕ → Reader ℕ
read_header header shift [] = ok (header, [])
read_header header shift (b ∷ input) =
    let header' = bit_or header (bit_and b 0x7F * 2 ^ shift % 2 ^ 32) in
    let more = read_header header' (shift + 7) input in
    if leb 32 shift then fault else if bit_and b 0x80 == 0 then ok (header', input) else more

-- The value of a run, from byte `b` on.
read_value : ℕ → ℕ → ℕ → Reader ℕ
read_value zero b val input = ok (val, input)
read_value (suc rounds) b val [] = ok (val, [])
read_value (suc rounds) b val (byte ∷ input) =
    let more = read_value rounds (suc b) (bit_or val (byte * 2 ^ (b * 8) % 2 ^ 32)) input in
    if leb 32 (b * 8) then fault else more

-- Values are put at the end as long as there are fewer than `total_vals`.
push_values : ℕ → List ℕ → List ℕ → List ℕ
push_values total_vals [] out = out
push_values total_vals (v ∷ vs) out =
    let rest = push_values total_vals vs (out ++ (v ∷ [])) in
    if ltb (length out) total_vals then rest else out

-- `in.subspan(in_idx)` with `in_idx` moved on by `bit_width` for each group: `none` is an index beyond
-- the end.
move_on : ℕ → List ℕ → Option (List ℕ)
move_on n input = if ltb (length input) n then none else some (drop n input)

-- What a group leaves in `buf`, which is not written before the first.
fill : Option (List ℕ) → List ℕ → ℕ → Outcome (List ℕ)
fill (some buf) input bit_width = unpack8 input bit_width buf
fill none input bit_width =
    if bit_width == 0 || length input == 0 then fault else unpack8 input bit_width (replicate 8 0)

-- The loop over the groups of a bit-packed run, with the input from `in_idx` on.
packed_run :
    ℕ → ℕ → ℕ → Option (List ℕ) → Option (List ℕ) → List ℕ → Outcome (List ℕ × Option (List ℕ))
packed_run zero total_vals bit_width buf input out = ok (out, input)
packed_run (suc num_groups) total_vals bit_width buf none out =
    if ltb (length out) total_vals then fault else ok (out, none)
packed_run (suc num_groups) total_vals bit_width buf (some input) out =
    let next = do
      buf' ← fill buf input bit_width
      packed_run num_groups total_vals bit_width (some buf') (move_on bit_width input)
          (push_values total_vals buf' out)
    in if ltb (length out) total_vals then next else ok (out, some input)

-- What is left of the input for the next run; beyond the end there is nothing.
left : Option (List ℕ) → List ℕ
left none = []
left (some input) = input

-- One run behind its header.
decode_run : ℕ → ℕ → ℕ → List ℕ → List ℕ → Outcome (List ℕ × List ℕ)
decode_run header bit_width total_vals input out =
    if bit_and header 1 == 0
    then (do
      (val, rest) ← read_value ((bit_width + 7) % 2 ^ 32 / 8) 0 0 input
      ok (push_values total_vals (replicate (header / 2) val) out, rest))
    else (do
      (out', rest) ← packed_run (header / 2) total_vals bit_width none (some input) out
      ok (out', left rest))

-- The loop over the runs, with fuel for its rounds.
decode_loop : ℕ → ℕ → ℕ → List ℕ → List ℕ → Outcome (List ℕ)
decode_loop zero bit_width total_vals input out = out_of_fuel
decode_loop (suc fuel) bit_width total_vals input out =
    let next = do
      (header, rest) ← read_header 0 0 input
      (out', rest') ← decode_run header bit_width total_vals rest out
      decode_loop fuel bit_width total_vals rest' out'
    in if length input == 0 || leb total_vals (length out) then ok out else next

pub decode_rle : List ℕ → ℕ → List ℕ → ℕ → Outcome (List ℕ)
decode_rle input bit_width out total_vals =
    decode_loop (suc (length input)) bit_width total_vals input out
