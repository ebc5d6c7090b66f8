-- ===== src/Quic/Varint.antt =====
-- quic_varint.hpp and quic_varint.cpp: integers in 1, 2, 4 or 8 bytes, with the length in the two
-- top bits of the first byte. A span is the list of its bytes.
pub mod RoundTrip
use Prim.Native.Nat.{bit_and, bit_or}
use odyssey_tasks.Prelude.{
  ℕ, zero, suc, ◌-◌, ◌*◌, ◌/◌, ◌%◌, ◌^◌, ◌<◌, Option, none, some, List, [], ◌∷◌, length, ltb, leb,
  ◌==◌, if◌then◌else◌,
}

abbrev pub IsByte : ℕ → Type 0
IsByte b = b < 256

unfoldable pub encoded_length : ℕ → ℕ
encoded_length val =
    if leb val 63 then 1 else if leb val 16383 then 2 else if leb val 1073741823 then 4 else 8

-- `mark | static_cast<uint8_t>((val >> shift) & 0x3F)`
first_byte : ℕ → ℕ → ℕ → ℕ
first_byte mark val shift = bit_or mark (bit_and (val / 2 ^ shift) 0x3F)

-- `static_cast<uint8_t>((val >> shift) & 0xFF)`
next_byte : ℕ → ℕ → ℕ
next_byte val shift = bit_and (val / 2 ^ shift) 0xFF

-- The bytes that `Encode` stores for a value of encoded length `len`.
unfoldable pub encoding : ℕ → ℕ → List ℕ
unfolding first_byte next_byte
encoding len val =
    if len == 1
    then (val % 256) ∷ []
    else if len == 2
    then first_byte 0x40 val 8 ∷ next_byte val 0 ∷ []
    else if len == 4
    then first_byte 0x80 val 24 ∷ next_byte val 16 ∷ next_byte val 8 ∷ next_byte val 0 ∷ []
    else first_byte 0xC0 val 56
      ∷ next_byte val 48
      ∷ next_byte val 40
      ∷ next_byte val 32
      ∷ next_byte val 24
      ∷ next_byte val 16
      ∷ next_byte val 8
      ∷ next_byte val 0
      ∷ []

-- Stores at the front of a buffer.
unfoldable pub overwrite : List ℕ → List ℕ → List ℕ
overwrite [] dst = dst
overwrite (b ∷ bs) [] = []
overwrite (b ∷ bs) (d ∷ dst) = b ∷ overwrite bs dst

-- The length written (0 if the buffer is too small) and the buffer.
unfoldable pub encode : ℕ → List ℕ → ℕ × List ℕ
unfolding encoded_length encoding overwrite
encode val dst =
    let len = encoded_length val in
    if ltb (length dst) len then (0, dst) else (len, overwrite (encoding len val) dst)

-- `for (i = 1; i < len; ++i) val = (val << 8) | src[i];` over the bytes from `src[1]` on.
unfoldable pub decode_loop : ℕ → ℕ → List ℕ → ℕ
decode_loop zero val src = val
decode_loop (suc n) val [] = val
decode_loop (suc n) val (b ∷ src) = decode_loop n (bit_or (val * 2 ^ 8 % 2 ^ 64) b) src

unfoldable pub decode : List ℕ → Option (ℕ × ℕ)
unfolding decode_loop
decode [] = none
decode (b ∷ src) =
    let len = 2 ^ bit_and (b / 2 ^ 6) 0x03 in
    if ltb (length (b ∷ src)) len
    then none
    else some (decode_loop (len - 1) (bit_and b 0x3F) src, len)
