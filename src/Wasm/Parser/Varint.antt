-- ===== src/Wasm/Parser/Varint.antt =====
-- Variable-length integers: what is written in base 128 is read back.
use native.Mathlib.Nat.{pow-suc, pow-le-pow_right, mul-le-mul, mul-le-mul_right}
use native.Mathlib.Numerals.{towards_suc}
use odyssey_tasks.Prelude.{
  ℕ, zero, suc, ◌+◌, ◌*◌, ◌/◌, ◌%◌, ◌^◌, ◌<◌, ◌≤◌, ◌≡◌, ap, ◌∙◌, false, inl, inr, List, [], ◌∷◌,
  ◌++◌, ltb, leb, if◌then◌else◌, arith, Bool-cases, ltb→lt, leb→le,
}
use odyssey_tasks.Prelude.Bits.{bit_and-127, bit_and-128, bit_or-below}
use odyssey_tasks.Prelude.Outcome.{ok}
use odyssey_tasks.Wasm.Parser.{read_uint32_loop, read_var_uint32}

-- The shortest encoding with at most `fuel` bytes: seven bits a byte, lowest first, and the top bit
-- where more follow.
unfoldable pub encode : ℕ → ℕ → List ℕ
encode zero v = []
encode (suc fuel) v =
    let more = encode fuel (v / 128) in if ltb v 128 then v ∷ [] else (v % 128 + 128) ∷ more

-- Numbers of 32 bits take five bytes at most.
unfoldable pub encode_uint32 : ℕ → List ℕ
unfolding encode
encode_uint32 v = encode 5 v

-- One round of the loop in plain arithmetic, where nothing is shifted out.
uint32_round :
    (acc shift byte : ℕ) (stream : List ℕ)
    → shift < 32
    → acc < 2 ^ shift
    → byte < 256
    → byte % 128 * 2 ^ shift < 2 ^ 32
    → read_uint32_loop acc shift (byte ∷ stream) ≡ (
        if ltb byte 128
        then ok (acc + byte % 128 * 2 ^ shift, stream)
        else read_uint32_loop (acc + byte % 128 * 2 ^ shift) (shift + 7) stream)
unfolding read_uint32_loop
uint32_round acc shift byte stream room small is_byte fits =
    let whole : byte % 128 * 2 ^ shift % 2 ^ 32 ≡ byte % 128 * 2 ^ shift = omega arith in
    rw (bit_and-127 byte, bit_and-128 byte, whole, bit_or-below shift (byte % 128) acc small)
      (ground arith)

pow-add_7 : (s : ℕ) → 2 ^ (s + 7) ≡ 128 * 2 ^ s
pow-add_7 s = simp towards_suc (omega arith)

room_for_more : (v shift : ℕ) → 128 ≤ v → v * 2 ^ shift < 2 ^ 32 → shift + 7 < 32
room_for_more v shift big fits = elim (Bool-cases (leb 25 shift)) [
  | inl wide ↦
      let least : 2 ^ 25 ≤ 2 ^ shift = pow-le-pow_right (omega arith) (leb→le 25 shift wide) in
      absurd (omega (arith, mul-le-mul big least))
  | inr narrow ↦ ground arith
]

digit_fits : (d p : ℕ) → d < 128 → d * p + p ≤ 128 * p
digit_fits d p h = omega (arith, mul-le-mul_right {m = suc d} {n = 128} p h)

fuel_left : (v fuel : ℕ) → 128 ≤ v → v < 128 ^ suc fuel → 0 < fuel
fuel_left v zero big h = absurd (omega arith)
fuel_left v (suc fuel) big h = omega arith

read-encode :
    (fuel v acc shift : ℕ) (rest : List ℕ)
    → 0 < fuel
    → v < 128 ^ fuel
    → shift < 32
    → acc < 2 ^ shift
    → v * 2 ^ shift < 2 ^ 32
    → read_uint32_loop acc shift (encode fuel v ++ rest) ≡ ok (acc + v * 2 ^ shift, rest)
unfolding encode
read-encode zero v acc shift rest some_fuel enough room small fits = absurd (omega arith)
read-encode (suc fuel) v acc shift rest some_fuel enough room small fits =
    elim (Bool-cases (ltb v 128)) [
      | inl last ↦
          let whole : v % 128 ≡ v = omega (arith, ltb→lt v 128 last) in
          rw (
            last,
            uint32_round acc shift v rest room small (omega (arith, ltb→lt v 128 last))
                (rw whole fits),
            whole,
            last,
          )
      | inr more ↦
          let big : 128 ≤ v = ground arith in
          let byte = v % 128 + 128 in
          let digit : byte % 128 ≡ v % 128 = omega arith in
          let high : ltb byte 128 ≡ false = ground arith in
          let split : v ≡ v % 128 + v / 128 * 128 = omega arith in
          let parts : v * 2 ^ shift ≡ v % 128 * 2 ^ shift + v / 128 * (128 * 2 ^ shift) =
            omega (arith, ap (λ (t : ℕ). t * 2 ^ shift) split) in
          let next = pow-add_7 shift in
          let fits' : v % 128 * 2 ^ shift < 2 ^ 32 = omega (arith, parts) in
          let first =
            uint32_round acc shift byte (encode fuel (v / 128) ++ rest) room small (omega arith)
              (rw digit fits') in
          let digit_small : v % 128 * 2 ^ shift + 2 ^ shift ≤ 128 * 2 ^ shift =
            digit_fits (v % 128) (2 ^ shift) (omega arith) in
          let rec =
            read-encode fuel (v / 128) (acc + v % 128 * 2 ^ shift) (shift + 7) rest
              (fuel_left v fuel big enough) (omega (arith, pow-suc 128 fuel))
              (room_for_more v shift big fits) (omega (arith, next, digit_small))
              (rw next (omega (arith, parts))) in
          rw (more, first, digit, high, rec, next)
            (ap (λ (t : ℕ). ok (t, rest)) (omega (arith, parts)))
    ]

pub read_var_uint32-encode :
    (v : ℕ) (rest : List ℕ) → v < 2 ^ 32 → read_var_uint32 (encode_uint32 v ++ rest) ≡ ok (v, rest)
unfolding read_var_uint32 encode_uint32
read_var_uint32-encode v rest small =
    read-encode 5 v 0 0 rest (omega arith) (omega arith) (omega arith) (omega arith) (omega arith)
    ∙ ap (λ (t : ℕ). ok (t, rest)) (omega arith)
