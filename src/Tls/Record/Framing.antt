-- ===== src/Tls/Record/Framing.antt =====
-- Records are read back, and which ones are not.
use Prim.Native.Nat.{bit_or}
use mathlib.Core.List.{append_assoc}
use odyssey_tasks.Prelude.{
  ℕ, suc, ◌+◌, ◌-◌, ◌*◌, ◌/◌, ◌%◌, ◌^◌, ◌≡◌, ◌≢◌, ◌≤◌, ◌<◌, refl, sym, ◌∙◌, false, List, [], ◌∷◌,
  ◌++◌, length, take, replicate, ltb, ◌==◌, not, ◌||◌, ◌↔◌, if◌then◌else◌, arith, length-append,
  take-append,
}
use odyssey_tasks.Prelude.Bits.{bit_or-below}
use odyssey_tasks.Tls.Record.{
  RecordLayer, next_seq_num, encrypt_record, plain, refused, fault, last, open_slice, byte_at,
  decrypt_record,
}

last-append : (bytes : List ℕ) (b : ℕ) → last (bytes ++ (b ∷ [])) ≡ b
unfolding last
last-append [] b = refl
last-append (c ∷ []) b = refl
last-append (c ∷ d ∷ bytes) b = last-append (d ∷ bytes) b

-- The inner type stands behind the payload.
open_slice_inner :
    (payload : List ℕ) (type : ℕ) (layer : RecordLayer)
    → open_slice (payload ++ (type ∷ [])) layer ≡ (
      plain (record { type = type; legacy_record_version = 0x0303; fragment = payload }),
      next_seq_num layer,
    )
unfolding open_slice
open_slice_inner payload type layer =
    let longer : length (payload ++ (type ∷ [])) ≡ suc (length payload) =
      omega (arith, length-append payload (type ∷ [])) in
    let shorter : suc (length payload) - 1 ≡ length payload = omega arith in
    let some_bytes : (suc (length payload) == 0) ≡ false = ground arith in
    rw (longer, some_bytes, shorter, last-append payload type, take-append payload (type ∷ [])) refl

open_slice_safe : (slice : List ℕ) (layer : RecordLayer) → (open_slice slice layer).0 ≢ fault
unfolding open_slice
open_slice_safe slice layer e = ground (arith, e)

-- The two bytes of a length.
join_bytes : (hi lo : ℕ) → hi < 256 → lo < 256 → bit_or lo (hi * 2 ^ 8 % 2 ^ 16) ≡ lo + hi * 256
join_bytes hi lo small_hi small_lo =
    let whole : hi * 2 ^ 8 % 2 ^ 16 ≡ hi * 2 ^ 8 = omega arith in
    rw whole (bit_or-below 8 hi lo small_lo)

-- The branches in plain arithmetic.
decrypt_record_bytes :
    (a b c hi lo : ℕ) (body : List ℕ) (layer : RecordLayer)
    → hi < 256
    → lo < 256
    → decrypt_record (a ∷ b ∷ c ∷ hi ∷ lo ∷ body) layer ≡ (
        if ltb (length body) 17 || (not (a == 23) || ltb (length body) (lo + hi * 256))
        then (refused, layer)
        else if lo + hi * 256 == 15
        then open_slice body layer
        else if ltb (lo + hi * 256) 16
        then (fault, layer)
        else open_slice (take (lo + hi * 256 - 16) body) layer)
unfolding decrypt_record byte_at
decrypt_record_bytes a b c hi lo body layer small_hi small_lo =
    rw (join_bytes hi lo small_hi small_lo) (ground arith)

-- A payload of less than 2^16 - 17 bytes that one layer encrypts is decrypted by any layer, with its
-- type and whatever follows the record, and the layer counts one record more.
pub decrypt_record-encrypt :
    (type : ℕ) (payload rest : List ℕ) (sender receiver : RecordLayer)
    → length payload + 17 < 2 ^ 16
    → decrypt_record ((encrypt_record type payload sender).0 ++ rest) receiver ≡ (
      plain (record { type = type; legacy_record_version = 0x0303; fragment = payload }),
      next_seq_num receiver,
    )
unfolding encrypt_record
decrypt_record-encrypt type payload rest sender receiver small =
    let tag : List ℕ = replicate 16 0xAA in
    let inner = payload ++ (type ∷ []) in
    let len = length payload + 17 in
    let body = inner ++ (tag ++ rest) in
    let whole : (length payload + 1 + 16) % 2 ^ 16 ≡ len = omega arith in
    let regroup : (payload ++ (type ∷ tag)) ++ rest ≡ body =
      append_assoc payload (type ∷ tag) rest
      ∙ sym (append_assoc payload (type ∷ []) (tag ++ rest)) in
    let joined : len % 2 ^ 8 + len / 2 ^ 8 * 256 ≡ len = omega arith in
    let inner_length : length inner ≡ suc (length payload) =
      omega (arith, length-append payload (type ∷ [])) in
    let kept : len - 16 ≡ length inner = omega (arith, inner_length) in
    let total : length body ≡ len + length rest =
      omega (arith, inner_length, length-append inner (tag ++ rest)) in
    let passes : (ltb (length body) 17 || (not (23 == 23) || ltb (length body) len)) ≡ false =
      ground (arith, total) in
    let roomy : ltb len 16 ≡ false = ground arith in
    let tagged : (len == 15) ≡ false = ground arith in
    let branches =
      decrypt_record_bytes 23 3 3 (len / 2 ^ 8) (len % 2 ^ 8) body receiver (omega arith)
        (omega arith) in
    rw (whole, regroup)
      (branches
        ∙ rw (joined, passes, tagged, roomy, kept, take-append inner (tag ++ rest))
            (open_slice_inner payload type receiver))

-- Of records whose length has two bytes, those make `subspan` go beyond the end that are long enough,
-- carry application data, and promise less than 15 bytes: for 15, one less than the tag, the count
-- wraps to the one that takes all bytes, and nothing is out of range.
pub decrypt_record-fault :
    (a b c hi lo : ℕ) (body : List ℕ) (layer : RecordLayer)
    → hi < 256
    → lo < 256
    → ((decrypt_record (a ∷ b ∷ c ∷ hi ∷ lo ∷ body) layer).0 ≡ fault)
      ↔ ((17 ≤ length body) × (a ≡ 23) × (hi ≡ 0) × (lo < 15))
decrypt_record-fault a b c hi lo body layer small_hi small_lo =
    rw (decrypt_record_bytes a b c hi lo body layer small_hi small_lo) (
      ground
        (arith, open_slice_safe body layer, open_slice_safe (take (lo + hi * 256 - 16) body) layer))
