-- ===== src/Tls/Record.antt =====
-- tls_record.cpp: records as lists of bytes. `fault` is a `subspan` beyond the end, which C++ leaves
-- undefined; `none` is `std::nullopt`.
pub mod Framing
use Prim.Native.Nat.{bit_or}
use odyssey_tasks.Prelude.{
  ℕ, zero, suc, ◌+◌, ◌-◌, ◌*◌, ◌/◌, ◌%◌, ◌^◌, Bool, true, false, List, [], ◌∷◌, ◌++◌, length, take,
  drop, replicate, ltb, leb, ◌==◌, not, if◌then◌else◌,
}

-- The members of `ContentType` that are used; a `ContentType` is cast from any byte.
abbrev pub application_data : ℕ
application_data = 23

pub record TlsPlaintext : Type 0 where
  pub type : ℕ
  pub legacy_record_version : ℕ
  pub fragment : List ℕ

pub record RecordLayer : Type 0 where
  pub key : List ℕ
  pub iv : List ℕ
  pub seq_num : ℕ

pub new : RecordLayer
new = record { key = []; iv = []; seq_num = 0 }

pub set_keys : List ℕ → List ℕ → RecordLayer → RecordLayer
set_keys key iv layer = record { key = key; iv = iv; seq_num = 0 }

-- `seq_num_++`, in 64 bits.
pub next_seq_num : RecordLayer → RecordLayer
next_seq_num layer = record layer { seq_num = (layer.seq_num + 1) % 2 ^ 64 }

pub encrypt_record : ℕ → List ℕ → RecordLayer → List ℕ × RecordLayer
encrypt_record type payload layer =
    let cipher_len = (length payload + 1 + 16) % 2 ^ 16 in
    let header = application_data ∷ 0x03 ∷ 0x03 ∷ cipher_len / 2 ^ 8 ∷ cipher_len % 2 ^ 8 ∷ [] in
    (header ++ (payload ++ (type ∷ replicate 16 0xAA)), next_seq_num layer)

pub data Decrypted : Type 0 where
  plain : TlsPlaintext → Decrypted
  refused : Decrypted
  fault : Decrypted

-- `back()`, of a list that is not empty.
last : List ℕ → ℕ
last [] = 0
last (b ∷ []) = b
last (b ∷ c ∷ bs) = last (c ∷ bs)

-- The end of `DecryptRecord`, with `payload_slice`.
open_slice : List ℕ → RecordLayer → Decrypted × RecordLayer
open_slice payload_slice layer = if length payload_slice == 0 then (refused, layer) else (
  plain (record {
    type = last payload_slice;
    legacy_record_version = 0x0303;
    fragment = take (length payload_slice - 1) payload_slice;
  }),
  next_seq_num layer,
)

-- `ciphertext[i]`, within the length that was checked.
byte_at : ℕ → List ℕ → ℕ
byte_at i [] = 0
byte_at zero (b ∷ bs) = b
byte_at (suc i) (b ∷ bs) = byte_at i bs

-- `subspan(5, len - 16)` with `len - 16` as `size_t`: where `len` is below 16 the count wraps. At 15 it
-- is `std::dynamic_extent`, which asks for all that is behind the header, and below that it is far
-- beyond the end.
pub decrypt_record : List ℕ → RecordLayer → Decrypted × RecordLayer
decrypt_record ciphertext layer =
    let len = bit_or (byte_at 4 ciphertext) (byte_at 3 ciphertext * 2 ^ 8 % 2 ^ 16) in
    if ltb (length ciphertext) 22
    then (refused, layer)
    else if not (byte_at 0 ciphertext == application_data)
    then (refused, layer)
    else if ltb (length ciphertext) (5 + len)
    then (refused, layer)
    else if len == 15
    then open_slice (drop 5 ciphertext) layer
    else if ltb len 16
    then (fault, layer)
    else open_slice (take (len - 16) (drop 5 ciphertext)) layer
