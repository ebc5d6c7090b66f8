-- ===== src/Quic/Varint/RoundTrip.antt =====
-- What is encoded is decoded again, and what `decode` makes of any input.
use Prim.Native.Nat.{bit_and}
use odyssey_tasks.Prelude.{
  ℕ, zero, suc, ◌+◌, ◌-◌, ◌*◌, ◌/◌, ◌%◌, ◌^◌, ◌<◌, ◌≤◌, ◌≡◌, ◌⊎◌, inl, inr, refl, sym, ap, ◌∙◌,
  some, List, [], ◌∷◌, ◌++◌, length, length-append, All, drop, drop-append, arith,
}
use odyssey_tasks.Prelude.Bits.{bit_and-3, bit_and-63, bit_and-255, bit_or_disjoint}
use native.Mathlib.Nat.{pow-suc, mul-le-mul_left, mul-le-mul_right, one-le-pow}
use odyssey_tasks.Quic.Varint.{
  IsByte, encoded_length, first_byte, next_byte, encoding, overwrite, encode, decode_loop, decode,
}

first_byte_lem :
    (mark val shift : ℕ) → first_byte (mark * 64) val shift ≡ mark * 64 + val / 2 ^ shift % 64
unfolding first_byte
first_byte_lem mark val shift =
    rw (bit_and-63 (val / 2 ^ shift)) (bit_or_disjoint 6 mark (val / 2 ^ shift % 64) (omega arith))

next_byte_lem : (val shift : ℕ) → next_byte val shift ≡ val / 2 ^ shift % 256
unfolding next_byte
next_byte_lem val shift = bit_and-255 (val / 2 ^ shift)

-- One round of the loop, in plain arithmetic.
loop_step :
    (n val b : ℕ) (src : List ℕ)
    → val < 2 ^ 56
    → b < 256
    → decode_loop (suc n) val (b ∷ src) ≡ decode_loop n (val * 256 + b) src
unfolding decode_loop
loop_step n val b src h hb =
    let e : val * 2 ^ 8 % 2 ^ 64 ≡ val * 2 ^ 8 = omega arith in rw (e, bit_or_disjoint 8 val b hb)

pub decode-length_one : (b : ℕ) (rest : List ℕ) → b < 64 → decode (b ∷ rest) ≡ some (b, 1)
unfolding decode
decode-length_one b rest h =
    let e : bit_and (b / 2 ^ 6) 0x03 ≡ 0 = omega (arith, bit_and-3 (b / 2 ^ 6)) in
    let f : bit_and b 0x3F ≡ b = omega (arith, bit_and-63 b) in rw (e, f) (ground arith)

-- The first byte of a longer encoding, with the length `2 ^ m` and the top six bits `x`.
decode_first :
    (m x : ℕ) (src : List ℕ)
    → m < 4
    → x < 64
    → 2 ^ m ≤ suc (length src)
    → decode ((m * 64 + x) ∷ src) ≡ some (decode_loop (2 ^ m - 1) x src, 2 ^ m)
unfolding decode
decode_first m x src hm hx hl =
    let e : bit_and ((m * 64 + x) / 2 ^ 6) 0x03 ≡ m =
      omega (arith, bit_and-3 ((m * 64 + x) / 2 ^ 6)) in
    let f : bit_and (m * 64 + x) 0x3F ≡ x = omega (arith, bit_and-63 (m * 64 + x)) in
    rw (e, f) (ground arith)

-- The number with the digits `bs`, most significant first, behind `acc`.
abbrev value : ℕ → List ℕ → ℕ
value acc [] = acc
value acc (b ∷ bs) = value (acc * 256 + b) bs

value-le : (acc : ℕ) (bs : List ℕ) → acc ≤ value acc bs
value-le acc [] = omega arith
value-le acc (b ∷ bs) = omega (arith, value-le (acc * 256 + b) bs)

decode_loop-value :
    (acc : ℕ) (bs rest : List ℕ)
    → All IsByte bs
    → value acc bs < 2 ^ 64
    → decode_loop (length bs) acc (bs ++ rest) ≡ value acc bs
decode_loop-value acc [] rest h v = unfold decode_loop in refl
decode_loop-value acc (b ∷ bs) rest h v =
    loop_step (length bs) acc b (bs ++ rest) (omega (arith, value-le (acc * 256 + b) bs)) h.0
    ∙ decode_loop-value (acc * 256 + b) bs rest h.1 v

decode-value :
    (m x : ℕ) (bs rest : List ℕ)
    → m < 4
    → x < 64
    → 2 ^ m ≡ suc (length bs)
    → All IsByte bs
    → value x bs < 2 ^ 64
    → decode ((m * 64 + x) ∷ bs ++ rest) ≡ some (value x bs, 2 ^ m)
decode-value m x bs rest hm hx hl hb hv =
    let n : 2 ^ m - 1 ≡ length bs = omega arith in
    let loop : decode_loop (2 ^ m - 1) x (bs ++ rest) ≡ value x bs =
      rw n (decode_loop-value x bs rest hb hv) in
    decode_first m x (bs ++ rest) hm hx (omega (arith, length-append bs rest)) ∙ rw loop

module _ (val : ℕ) (rest : List ℕ) where
  decode-two :
      val < 2 ^ 14 → decode (first_byte 0x40 val 8 ∷ next_byte val 0 ∷ rest) ≡ some (val, 2)
  decode-two h =
      let v : value (val / 2 ^ 8 % 64) ((val / 2 ^ 0 % 256) ∷ []) ≡ val = omega arith in
      rw (first_byte_lem 1 val 8, next_byte_lem)
        (decode-value 1 (val / 2 ^ 8 % 64) ((val / 2 ^ 0 % 256) ∷ []) rest (omega arith)
            (omega arith) refl (omega arith) (omega arith)
          ∙ rw v)

  decode-four :
      val < 2 ^ 30
      → decode
          (first_byte 0x80 val 24 ∷ next_byte val 16 ∷ next_byte val 8 ∷ next_byte val 0 ∷ rest)
        ≡ some (val, 4)
  decode-four h =
      let bs : List ℕ = (val / 2 ^ 16 % 256) ∷ (val / 2 ^ 8 % 256) ∷ (val / 2 ^ 0 % 256) ∷ [] in
      let v : value (val / 2 ^ 24 % 64) bs ≡ val = omega arith in
      rw (first_byte_lem 2 val 24, next_byte_lem val 16, next_byte_lem val 8, next_byte_lem val 0)
        (decode-value 2 (val / 2 ^ 24 % 64) bs rest (omega arith) (omega arith) refl (omega arith)
            (omega arith)
          ∙ rw v)

  eight_bytes : List ℕ
  eight_bytes =
      (val / 2 ^ 48 % 256)
      ∷ (val / 2 ^ 40 % 256)
      ∷ (val / 2 ^ 32 % 256)
      ∷ (val / 2 ^ 24 % 256)
      ∷ (val / 2 ^ 16 % 256)
      ∷ (val / 2 ^ 8 % 256)
      ∷ (val / 2 ^ 0 % 256)
      ∷ []

  decode-eight :
      decode (
        first_byte 0xC0 val 56
        ∷ next_byte val 48
        ∷ next_byte val 40
        ∷ next_byte val 32
        ∷ next_byte val 24
        ∷ next_byte val 16
        ∷ next_byte val 8
        ∷ next_byte val 0
        ∷ rest)
      ≡ some (val % 2 ^ 62, 8)
  unfolding eight_bytes
  decode-eight =
      let v : value (val / 2 ^ 56 % 64) eight_bytes ≡ val % 2 ^ 62 = omega arith in
      rw
        (
          first_byte_lem 3 val 56,
          next_byte_lem val 48,
          next_byte_lem val 40,
          next_byte_lem val 32,
          next_byte_lem val 24,
          next_byte_lem val 16,
          next_byte_lem val 8,
          next_byte_lem val 0,
        )
        (decode-value 3 (val / 2 ^ 56 % 64) eight_bytes rest (omega arith) (omega arith) refl
            (omega arith) (omega (arith, v))
          ∙ rw v)

pub length-encoding : (val : ℕ) → length (encoding (encoded_length val) val) ≡ encoded_length val
unfolding encoding encoded_length
length-encoding val = ground arith

-- What is encoded is decoded again behind any input, up to the two bits that the length takes.
pub decode-encoding :
    (val : ℕ) (rest : List ℕ)
    → decode (encoding (encoded_length val) val ++ rest) ≡ some (val % 2 ^ 62, encoded_length val)
unfolding encoding encoded_length
decode-encoding val rest =
    let small = λ (h : val < 2 ^ 62). (let e : val % 2 ^ 62 ≡ val = omega arith in e) in
    ground (
      arith,
      small,
      bit_and-255 val,
      decode-length_one (val % 256) rest,
      decode-two val rest,
      decode-four val rest,
      decode-eight val rest,
    )

overwrite-append :
    (bs dst : List ℕ) → length bs ≤ length dst → overwrite bs dst ≡ bs ++ drop (length bs) dst
unfolding overwrite
overwrite-append [] dst h = refl
overwrite-append (b ∷ bs) [] h = absurd (omega arith)
overwrite-append (b ∷ bs) (d ∷ dst) h = ap (◌∷◌ b) (overwrite-append bs dst (omega arith))

-- What `encode` returns where the buffer has room.
pub encode_lem :
    (val : ℕ) (dst : List ℕ)
    → encoded_length val ≤ length dst
    → encode val dst
      ≡ (encoded_length val, encoding (encoded_length val) val ++ drop (encoded_length val) dst)
unfolding encode
encode_lem val dst h =
    let fits : encode val dst
        ≡ (encoded_length val, overwrite (encoding (encoded_length val) val) dst) =
      ground arith in
    let stored =
      overwrite-append (encoding (encoded_length val) val) dst
        (omega (arith, length-encoding val)) in
    rw (fits, stored, length-encoding val)

-- Whatever buffer with room for it a value is written into, reading the buffer gives back the value
-- and the length that was written, and the rest of the buffer stays. From 2 ^ 62 on the top two bits
-- are lost.
pub decode-encode :
    (val : ℕ) (dst : List ℕ)
    → encoded_length val ≤ length dst
    → (drop (encode val dst).0 (encode val dst).1 ≡ drop (encode val dst).0 dst)
      × (decode (encode val dst).1 ≡ some (val % 2 ^ 62, (encode val dst).0))
decode-encode val dst h =
    let kept : drop (encoded_length val)
          (encoding (encoded_length val) val ++ drop (encoded_length val) dst)
        ≡ drop (encoded_length val) dst =
      ap (λ (n : ℕ). drop n (encoding (encoded_length val) val ++ drop (encoded_length val) dst))
        (sym (length-encoding val))
      ∙ drop-append (encoding (encoded_length val) val) (drop (encoded_length val) dst) in
    rw (encode_lem val dst h) (kept, decode-encoding val _)

decode_loop-append :
    (n val : ℕ) (src more : List ℕ)
    → n ≤ length src
    → decode_loop n val (src ++ more) ≡ decode_loop n val src
unfolding decode_loop
decode_loop-append zero val src more h = refl
decode_loop-append (suc n) val [] more h = absurd (omega arith)
decode_loop-append (suc n) val (b ∷ src) more h = decode_loop-append n _ src more (omega arith)

decode_loop-lt :
    (n val : ℕ) (src : List ℕ)
    → All IsByte src
    → n ≤ length src
    → (val + 1) * 256 ^ n ≤ 2 ^ 62
    → decode_loop n val src < (val + 1) * 256 ^ n
decode_loop-lt zero val src h l f = unfold decode_loop in omega arith
decode_loop-lt (suc n) val [] h l f = absurd (omega arith)
decode_loop-lt (suc n) val (b ∷ src) h l f =
    let step : (val * 256 + b + 1) * 256 ^ n ≤ (val + 1) * 256 * 256 ^ n =
      mul-le-mul_right (256 ^ n) (omega (arith, h.0)) in
    let small : (val + 1) * 256 * 1 ≤ (val + 1) * 256 * 256 ^ n =
      mul-le-mul_left ((val + 1) * 256) (one-le-pow n 256 (omega arith)) in
    let shift : (val + 1) * 256 ^ suc n ≡ (val + 1) * 256 * 256 ^ n =
      omega (arith, ap (◌*◌ (val + 1)) (pow-suc 256 n)) in
    rw (loop_step n val b src (omega arith) h.0)
      (omega (arith, decode_loop-lt n (val * 256 + b) src h.1 (omega arith) (omega arith)))

loop_bounds :
    (m x : ℕ) (src : List ℕ)
    → m < 4
    → x < 64
    → All IsByte src
    → 2 ^ m ≤ suc (length src)
    → (decode_loop (2 ^ m - 1) x src < 2 ^ 62)
      × ((2 ^ m ≡ 1) ⊎ ((2 ^ m ≡ 2) ⊎ ((2 ^ m ≡ 4) ⊎ (2 ^ m ≡ 8))))
loop_bounds zero x src hm hx hb l =
    (omega (arith, decode_loop-lt 0 x src hb (omega arith) (omega arith)), inl refl)
loop_bounds (suc zero) x src hm hx hb l =
    (omega (arith, decode_loop-lt 1 x src hb (omega arith) (omega arith)), inr (inl refl))
loop_bounds (suc (suc zero)) x src hm hx hb l =
    (omega (arith, decode_loop-lt 3 x src hb (omega arith) (omega arith)), inr (inr (inl refl)))
loop_bounds (suc (suc (suc zero))) x src hm hx hb l =
    (omega (arith, decode_loop-lt 7 x src hb (omega arith) (omega arith)), inr (inr (inr refl)))
loop_bounds (suc (suc (suc (suc m)))) x src hm hx hb l = absurd (omega arith)

-- Any number that `decode` finds in a span of bytes is below 2 ^ 62, and takes 1, 2, 4 or 8 bytes
-- that the span has.
pub decode_bounds :
    (src : List ℕ) (v n : ℕ)
    → All IsByte src
    → decode src ≡ some (v, n)
    → (v < 2 ^ 62) × (n ≤ length src) × ((n ≡ 1) ⊎ ((n ≡ 2) ⊎ ((n ≡ 4) ⊎ (n ≡ 8))))
unfolding decode
decode_bounds [] v n h e = cc
decode_bounds (b ∷ src) v n h e =
    let m : ℕ = bit_and (b / 2 ^ 6) 0x03 in
    let small : m < 4 = omega (arith, bit_and-3 (b / 2 ^ 6)) in
    let digit : bit_and b 0x3F < 64 = omega (arith, bit_and-63 b) in
    ground (arith, loop_bounds m (bit_and b 0x3F) src small digit h.1)
