-- ===== src/Quic/Frame/Parse/Progress.antt =====
-- A parsed frame takes at least one byte and none that the buffer does not have.
use odyssey_tasks.Prelude.{
  ℕ, zero, suc, ◌+◌, ◌-◌, ◌%◌, ◌^◌, ◌<◌, ◌≤◌, ◌≡◌, ◌⊎◌, Bool, true, false, some, List, [], ◌∷◌,
  length, length-drop, All, drop, arith, >>=-eq-some,
}
use odyssey_tasks.Quic.Varint.{IsByte, decode}
use odyssey_tasks.Quic.Varint.RoundTrip.{decode_bounds}
use odyssey_tasks.Quic.Frame.{
  Frame, decode_at, optional_at, has_flag, parse_payload, parse_stream, parse_max_data,
  parse_max_stream_data, parse_body, parse_frame,
}

All-drop : (n : ℕ) (xs : List ℕ) → All IsByte xs → All IsByte (drop n xs)
All-drop zero xs h = h
All-drop (suc n) [] h = tt
All-drop (suc n) (x ∷ xs) h = All-drop n xs h.1

module _ (buffer : List ℕ) (bytes : All IsByte buffer) (small : length buffer < 2 ^ 63) where
  decode_at_bounds :
      (o v o' : ℕ)
      → decode_at buffer o ≡ some (v, o')
      → (o < o') × (o' ≤ length buffer) × (v < 2 ^ 62)
  unfolding decode_at
  decode_at_bounds o v o' e =
      let ((u, n), found, rest) = >>=-eq-some (decode (drop o buffer)) _ e in
      let bound = decode_bounds (drop o buffer) u n (All-drop o buffer bytes) found in
      ground (arith, bound, length-drop o buffer, rest)

  optional_at_bounds :
      (flag : Bool) (o d v o' : ℕ)
      → o ≤ length buffer
      → optional_at flag buffer o d ≡ some (v, o')
      → (o ≤ o') × (o' ≤ length buffer) × ((v < 2 ^ 62) ⊎ (v ≡ d))
  unfolding optional_at
  optional_at_bounds true o d v o' h e = ground (arith, decode_at_bounds o v o' e)
  optional_at_bounds false o d v o' h e = ground arith

  parse_payload_bounds :
      (sid off : ℕ) (fin : Bool) (len o : ℕ) (f : Frame) (n : ℕ)
      → o ≤ length buffer
      → len < 2 ^ 63
      → parse_payload buffer sid off fin len o ≡ some (f, n)
      → (o ≤ n) × (n ≤ length buffer)
  unfolding parse_payload
  parse_payload_bounds sid off fin len o f n h l e = ground arith

  parse_stream_bounds :
      (t o : ℕ) (f : Frame) (n : ℕ)
      → parse_stream buffer t o ≡ some (f, n)
      → (o < n) × (n ≤ length buffer)
  unfolding parse_stream
  parse_stream_bounds t o f n e =
      let ((sid, o₁), e₁, r₁) = >>=-eq-some (decode_at buffer o) _ e in
      let b₁ = decode_at_bounds o sid o₁ e₁ in
      let ((off, o₂), e₂, r₂) = >>=-eq-some (optional_at (has_flag t 0x04) buffer o₁ 0) _ r₁ in
      let b₂ = optional_at_bounds (has_flag t 0x04) o₁ 0 off o₂ (omega (arith, b₁)) e₂ in
      let left : ℕ = (length buffer + 2 ^ 64 - o₂) % 2 ^ 64 in
      let ((len, o₃), e₃, r₃) = >>=-eq-some (optional_at (has_flag t 0x02) buffer o₂ left) _ r₂ in
      let b₃ = optional_at_bounds (has_flag t 0x02) o₂ left len o₃ (omega (arith, b₂)) e₃ in
      let b₄ =
        parse_payload_bounds sid off (has_flag t 0x01) len o₃ f n (omega (arith, b₃))
          (omega (arith, b₂, b₃)) r₃ in
      omega (arith, b₁, b₂, b₃, b₄)

  parse_max_data_bounds :
      (o : ℕ) (f : Frame) (n : ℕ)
      → parse_max_data buffer o ≡ some (f, n)
      → (o < n) × (n ≤ length buffer)
  unfolding parse_max_data
  parse_max_data_bounds o f n e =
      let ((v, o₁), e₁, r₁) = >>=-eq-some (decode_at buffer o) _ e in
      let b₁ = decode_at_bounds o v o₁ e₁ in ground (arith, b₁, r₁)

  parse_max_stream_data_bounds :
      (o : ℕ) (f : Frame) (n : ℕ)
      → parse_max_stream_data buffer o ≡ some (f, n)
      → (o < n) × (n ≤ length buffer)
  unfolding parse_max_stream_data
  parse_max_stream_data_bounds o f n e =
      let ((sid, o₁), e₁, r₁) = >>=-eq-some (decode_at buffer o) _ e in
      let ((v, o₂), e₂, r₂) = >>=-eq-some (decode_at buffer o₁) _ r₁ in
      ground (arith, decode_at_bounds o sid o₁ e₁, decode_at_bounds o₁ v o₂ e₂, r₂)

  parse_body_bounds :
      (t o : ℕ) (f : Frame) (n : ℕ)
      → parse_body buffer t o ≡ some (f, n)
      → (o < n) × (n ≤ length buffer)
  unfolding parse_body
  parse_body_bounds t o f n e = ground (
    arith,
    parse_stream_bounds t o f n,
    parse_max_data_bounds o f n,
    parse_max_stream_data_bounds o f n,
  )

-- A frame that is parsed from fewer than 2 ^ 63 bytes takes at least two bytes, and none beyond
-- the end of the buffer.
pub parse_frame_bounds :
    (buffer : List ℕ) (f : Frame) (n : ℕ)
    → All IsByte buffer
    → length buffer < 2 ^ 63
    → parse_frame buffer ≡ some (f, n)
    → (2 ≤ n) × (n ≤ length buffer)
unfolding parse_frame
parse_frame_bounds [] f n h l e = cc
parse_frame_bounds (b ∷ buffer) f n h l e =
    let ((t, o), e₁, r₁) = >>=-eq-some (decode (b ∷ buffer)) _ e in
    ground
      (arith, decode_bounds (b ∷ buffer) t o h e₁, parse_body_bounds (b ∷ buffer) h l t o f n r₁)
