-- ===== src/Parquet/BitUnpack/Runs.antt =====
-- Runs of one value, as a writer puts them down, are decoded to their values.
use Prim.Native.Nat.{bit_and, bit_or}
use mathlib.Core.List.{append_assoc, append-nil}
use native.Mathlib.Nat.{pow-suc, pow-le-pow_right, mul-le-mul, mul-le-mul_right}
use native.Mathlib.Numerals.{towards_suc}
use odyssey_tasks.Prelude.{
  ℕ, zero, suc, ◌+◌, ◌-◌, ◌*◌, ◌/◌, ◌%◌, ◌^◌, ◌≤◌, ◌<◌, ◌≡◌, refl, sym, ap, ◌∙◌, false, List, [],
  ◌∷◌, ◌++◌, length, take, replicate, ltb, leb, ◌==◌, All, arith, length-append, Bool-cases, inl,
  inr,
}
use odyssey_tasks.Prelude.Bits.{bit_and-1, bit_or-below}
use odyssey_tasks.Prelude.Outcome.{ok}
use odyssey_tasks.Parquet.BitUnpack.{
  read_header, read_value, push_values, decode_run, decode_loop, decode_rle,
}
use odyssey_tasks.Wasm.Parser.Varint.{encode, encode_uint32, read_var_uint32-encode}
use odyssey_tasks.Wasm.Parser.{read_uint32_loop, read_var_uint32}

-- The header is a number as in the binary format of WebAssembly.
read_header_loop :
    (header shift : ℕ) (input : List ℕ)
    → read_header header shift input ≡ read_uint32_loop header shift input
unfolding read_header read_uint32_loop
read_header_loop header shift [] = refl
read_header_loop header shift (b ∷ input) =
    let header' = bit_or header (bit_and b 0x7F * 2 ^ shift % 2 ^ 32) in
    rw (read_header_loop header' (shift + 7) input) refl

read_header_lem : (input : List ℕ) → read_header 0 0 input ≡ read_var_uint32 input
unfolding read_var_uint32
read_header_lem input = read_header_loop 0 0 input

pow-next : (b : ℕ) → 2 ^ (suc b * 8) ≡ 256 * 2 ^ (b * 8)
pow-next b =
    let more : suc b * 8 ≡ b * 8 + 8 = omega arith in rw more (simp towards_suc (omega arith))

-- A value as `n` bytes, the lowest first.
little_endian : ℕ → ℕ → List ℕ
little_endian zero v = []
little_endian (suc n) v = v % 256 ∷ little_endian n (v / 256)

read_value-little_endian :
    (n b acc v : ℕ) (rest : List ℕ)
    → b + n ≤ 4
    → acc < 2 ^ (b * 8)
    → v < 256 ^ n
    → read_value n b acc (little_endian n v ++ rest) ≡ ok (acc + v * 2 ^ (b * 8), rest)
unfolding read_value little_endian
read_value-little_endian zero b acc v rest room small fits =
    let nothing : v ≡ 0 = omega arith in
    let total : acc ≡ acc + v * 2 ^ (b * 8) =
      omega (arith, ap (λ (t : ℕ). t * 2 ^ (b * 8)) nothing) in
    ap (λ (t : ℕ). ok (t, rest)) total
read_value-little_endian (suc n) b acc v rest room small fits =
    let p = 2 ^ (b * 8) in
    let d = v % 256 in
    let low : leb 32 (b * 8) ≡ false = ground arith in
    let below : b * 8 ≤ 24 = omega arith in
    let place : p ≤ 2 ^ 24 = pow-le-pow_right (omega arith) below in
    let digit : d ≤ 255 = omega arith in
    let whole : d * p % 2 ^ 32 ≡ d * p = omega (arith, mul-le-mul digit place) in
    let next : 2 ^ (suc b * 8) ≡ 256 * p = pow-next b in
    let split : v ≡ d + v / 256 * 256 = omega arith in
    let parts : v * p ≡ d * p + v / 256 * (256 * p) = omega (arith, ap (λ (t : ℕ). t * p) split) in
    let room' : acc + d * p < 2 ^ (suc b * 8) =
      omega (arith, next, mul-le-mul_right {m = suc d} {n = 256} p (omega arith)) in
    let rec =
      read_value-little_endian n (suc b) (acc + d * p) (v / 256) rest (omega arith) room'
        (omega (arith, pow-suc 256 n)) in
    let total : acc + d * p + v / 256 * 2 ^ (suc b * 8) ≡ acc + v * p =
      rw next (omega (arith, parts)) in
    rw (low, whole, bit_or-below (b * 8) d acc small) (rec ∙ ap (λ (t : ℕ). ok (t, rest)) total)

take_nil : (n : ℕ) → take {A = ℕ} n [] ≡ []
take_nil zero = refl
take_nil (suc n) = refl

push_values_lem :
    (total : ℕ) (vs out : List ℕ) → push_values total vs out ≡ out ++ take (total - length out) vs
unfolding push_values
push_values_lem total [] out = rw (take_nil (total - length out)) (sym (append-nil out))
push_values_lem total (v ∷ vs) out = elim (Bool-cases (ltb (length out) total)) [
  | inl room ↦
      let longer : length (out ++ (v ∷ [])) ≡ suc (length out) =
        omega (arith, length-append out (v ∷ [])) in
      let left : total - length out ≡ suc (total - suc (length out)) = ground arith in
      rw (room, left)
        (push_values_lem total vs (out ++ (v ∷ []))
          ∙ rw longer (append_assoc out (v ∷ []) (take (total - suc (length out)) vs)))
  | inr full ↦
      let none_left : total - length out ≡ 0 = ground arith in
      rw (full, none_left) (sym (append-nil out))
]

take-append_more :
    (n : ℕ) (xs vs : List ℕ) → take n (xs ++ vs) ≡ take n xs ++ take (n - length (take n xs)) vs
take-append_more zero xs vs = refl
take-append_more (suc n) [] vs =
    let same : suc n ≡ suc n - 0 = omega arith in ap (λ (k : ℕ). take k vs) same
take-append_more (suc n) (x ∷ xs) vs =
    let shorter : n - length (take n xs) ≡ suc n - suc (length (take n xs)) = omega arith in
    ap (λ (zs : List ℕ). x ∷ zs)
      (take-append_more n xs vs ∙ ap (λ (k : ℕ). take n xs ++ take k vs) shorter)

-- Runs as counts with values, and how a writer puts them down for numbers of `w` bits.
abbrev pub value_bytes : ℕ → ℕ
value_bytes w = (w + 7) / 8

unfoldable pub encode_runs : ℕ → List (ℕ × ℕ) → List ℕ
unfolding little_endian
encode_runs w [] = []
encode_runs w ((count, v) ∷ runs) =
    encode_uint32 (2 * count) ++ (little_endian (value_bytes w) v ++ encode_runs w runs)

unfoldable pub expand_runs : List (ℕ × ℕ) → List ℕ
expand_runs [] = []
expand_runs ((count, v) ∷ runs) = replicate count v ++ expand_runs runs

abbrev pub FitsRun : ℕ → ℕ × ℕ → Type 0
FitsRun w (count, v) = (count < 2 ^ 31) × (v < 256 ^ value_bytes w)

encode_uint32_some : (v : ℕ) → 0 < length (encode_uint32 v)
unfolding encode_uint32 encode
encode_uint32_some v = ground arith

encode_runs_long : (w : ℕ) (runs : List (ℕ × ℕ)) → length runs ≤ length (encode_runs w runs)
unfolding encode_runs
encode_runs_long w [] = omega arith
encode_runs_long w ((count, v) ∷ runs) =
    let rest = encode_runs w runs in
    omega (
      arith,
      encode_runs_long w runs,
      encode_uint32_some (2 * count),
      length-append (encode_uint32 (2 * count)) (little_endian (value_bytes w) v ++ rest),
      length-append (little_endian (value_bytes w) v) rest,
    )

-- One run of a value.
decode_run-value :
    (w total count v : ℕ) (rest out : List ℕ)
    → w ≤ 32
    → FitsRun w (count, v)
    → decode_run (2 * count) w total (little_endian (value_bytes w) v ++ rest) out
      ≡ ok (out ++ take (total - length out) (replicate count v), rest)
unfolding decode_run
decode_run-value w total count v rest out narrow (few, fits) =
    let even : bit_and (2 * count) 1 ≡ 0 = omega (arith, bit_and-1 (2 * count)) in
    let bytes : (w + 7) % 2 ^ 32 / 8 ≡ value_bytes w = omega arith in
    let half : 2 * count / 2 ≡ count = omega arith in
    let value : read_value (value_bytes w) 0 0 (little_endian (value_bytes w) v ++ rest)
        ≡ ok (v, rest) =
      read_value-little_endian (value_bytes w) 0 0 v rest (omega arith) (omega arith) fits
      ∙ ap (λ (t : ℕ). ok (t, rest)) (omega arith) in
    rw (even, bytes, half, value, push_values_lem total (replicate count v) out) refl

decode_loop-runs :
    (fuel w total : ℕ) (runs : List (ℕ × ℕ)) (out : List ℕ)
    → w ≤ 32
    → All (FitsRun w) runs
    → length runs < fuel
    → decode_loop fuel w total (encode_runs w runs) out
      ≡ ok (out ++ take (total - length out) (expand_runs runs))
unfolding decode_loop encode_runs expand_runs
decode_loop-runs zero w total runs out narrow fits enough = absurd (omega arith)
decode_loop-runs (suc fuel) w total [] out narrow fits enough =
    rw (take_nil (total - length out)) (ap ok (sym (append-nil out)))
decode_loop-runs (suc fuel) w total ((count, v) ∷ runs) out narrow (fit, fits) enough =
    let rest = encode_runs w runs in
    let bytes = encode_uint32 (2 * count) ++ (little_endian (value_bytes w) v ++ rest) in
    let some_bytes : (length bytes == 0) ≡ false = ground (
      arith,
      encode_uint32_some (2 * count),
      length-append (encode_uint32 (2 * count)) (little_endian (value_bytes w) v ++ rest),
    ) in
    let header : read_header 0 0 bytes ≡ ok (2 * count, little_endian (value_bytes w) v ++ rest) =
      read_header_lem bytes
      ∙ read_var_uint32-encode (2 * count) (little_endian (value_bytes w) v ++ rest)
          (omega arith) in
    let room = total - length out in
    let pushed = take room (replicate count v) in
    let left : total - length (out ++ pushed) ≡ room - length pushed =
      omega (arith, length-append out pushed) in
    let rec = decode_loop-runs fuel w total runs (out ++ pushed) narrow fits (omega arith) in
    let values : (out ++ pushed) ++ take (total - length (out ++ pushed)) (expand_runs runs)
        ≡ out ++ take room (replicate count v ++ expand_runs runs) =
      rw left (
        append_assoc out pushed (take (room - length pushed) (expand_runs runs))
        ∙ ap (λ (zs : List ℕ). out ++ zs)
            (sym (take-append_more room (replicate count v) (expand_runs runs)))) in
    elim (Bool-cases (leb total (length out))) [
      | inl full ↦
          let none_left : room ≡ 0 = ground arith in
          rw (some_bytes, full, none_left) (ap ok (sym (append-nil out)))
      | inr short ↦
          rw (some_bytes, short, header, decode_run-value w total count v rest out narrow fit)
            (rec ∙ ap ok values)
    ]

-- Runs of one value each, written with a header and the value's bytes for numbers of at most 32 bits,
-- are decoded to their values behind those that are there, up to the number that was asked for, where
-- each count is below 2^31 and each value fits its bytes.
pub decode_rle-encode_runs :
    (w total : ℕ) (runs : List (ℕ × ℕ)) (out : List ℕ)
    → w ≤ 32
    → All (FitsRun w) runs
    → decode_rle (encode_runs w runs) w out total
      ≡ ok (out ++ take (total - length out) (expand_runs runs))
unfolding decode_rle
decode_rle-encode_runs w total runs out narrow fits =
    decode_loop-runs (suc (length (encode_runs w runs))) w total runs out narrow fits
      (omega (arith, encode_runs_long w runs))
