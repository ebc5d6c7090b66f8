-- ===== src/Quic/Frame/Parse/Wire.antt =====
-- The wire form of the frames, and that it is parsed back.
use mathlib.Core.List.{append_assoc}
use odyssey_tasks.Prelude.{
  ℕ, suc, ◌+◌, ◌-◌, ◌*◌, ◌%◌, ◌^◌, ◌<◌, ◌≤◌, ◌≡◌, ◌⊎◌, inl, inr, refl, ap, sym, ◌∙◌, Bool, true,
  false, Option, some, List, [], ◌∷◌, ◌++◌, length, length-append, length-drop, take, take-append,
  drop, drop-append, if◌then◌else◌, arith, Bool-cases,
}
use odyssey_tasks.Quic.Varint.{encoded_length, encoding, encode}
use odyssey_tasks.Quic.Varint.RoundTrip.{
  decode-encoding, length-encoding, decode-length_one, encode_lem,
}
use odyssey_tasks.Quic.Frame.{
  Frame, StreamFrame, stream, max_data, decode_at, optional_at, has_flag, parse_payload,
  parse_stream, parse_max_data, parse_body, parse_frame, serialize_frame,
}

-- An integer on the wire, and one that only a flag brings.
abbrev pub varint : ℕ → List ℕ
varint v = encoding (encoded_length v) v

abbrev pub field : Bool → ℕ → List ℕ
field true v = varint v
field false v = []

abbrev bit : Bool → ℕ
bit true = 1
bit false = 0

module _ (buffer pre rest : List ℕ) (o : ℕ) (at : o ≡ length pre) where
  decode_at-varint :
      (v : ℕ)
      → v < 2 ^ 62
      → buffer ≡ pre ++ (varint v ++ rest)
      → decode_at buffer o ≡ some (v, o + length (varint v))
  unfolding decode_at
  decode_at-varint v h e =
      let small : v % 2 ^ 62 ≡ v = omega arith in
      rw (
        e,
        at,
        drop-append pre (varint v ++ rest),
        decode-encoding v rest,
        small,
        length-encoding v,
      )

  optional_at-field :
      (flag : Bool) (v d : ℕ)
      → v < 2 ^ 62
      → buffer ≡ pre ++ (field flag v ++ rest)
      → optional_at flag buffer o d ≡ some (if flag then v else d, o + length (field flag v))
  unfolding optional_at
  optional_at-field true v d h e = decode_at-varint v h e
  optional_at-field false v d h e = ground arith

-- The first byte of a STREAM frame.
abbrev stream_type : Bool → Bool → Bool → ℕ
stream_type off len fin = 8 + 4 * bit off + 2 * bit len + bit fin

stream_type-flags :
    (off len fin : Bool)
    → (has_flag (stream_type off len fin) 0x04 ≡ off)
      × (has_flag (stream_type off len fin) 0x02 ≡ len)
      × (has_flag (stream_type off len fin) 0x01 ≡ fin)
unfolding has_flag
stream_type-flags true true true = (refl, refl, refl)
stream_type-flags true true false = (refl, refl, refl)
stream_type-flags true false true = (refl, refl, refl)
stream_type-flags true false false = (refl, refl, refl)
stream_type-flags false true true = (refl, refl, refl)
stream_type-flags false true false = (refl, refl, refl)
stream_type-flags false false true = (refl, refl, refl)
stream_type-flags false false false = (refl, refl, refl)

-- The wire form of a STREAM frame (RFC 9000, 19.8) with or without an offset and a length.
abbrev pub stream_wire : Bool → Bool → StreamFrame → List ℕ
stream_wire off len f =
    stream_type off len f.fin
    ∷ (varint f.stream_id ++ (field off f.offset ++ (field len (length f.payload) ++ f.payload)))

parse_payload-found :
    (buffer pre rest : List ℕ) (f : StreamFrame) (o : ℕ)
    → o ≡ length pre
    → buffer ≡ pre ++ (f.payload ++ rest)
    → length buffer < 2 ^ 63
    → parse_payload buffer f.stream_id f.offset f.fin (length f.payload) o
      ≡ some (stream f, o + length f.payload)
unfolding parse_payload
parse_payload-found buffer pre rest f o at e small =
    let found : take (length f.payload) (drop o buffer) ≡ f.payload =
      rw (at, e, drop-append pre (f.payload ++ rest)) (take-append f.payload rest) in
    ground (
      arith,
      found,
      ap length e,
      length-append pre (f.payload ++ rest),
      length-append f.payload rest,
    )

parse_stream-steps :
    (buffer : List ℕ) (t o o₁ o₂ o₃ sid off len : ℕ) (fin : Bool) {r : Option (Frame × ℕ)}
    → decode_at buffer o ≡ some (sid, o₁)
    → optional_at (has_flag t 0x04) buffer o₁ 0 ≡ some (off, o₂)
    → optional_at (has_flag t 0x02) buffer o₂ ((length buffer + 2 ^ 64 - o₂) % 2 ^ 64)
      ≡ some (len, o₃)
    → has_flag t 0x01 ≡ fin
    → parse_payload buffer sid off fin len o₃ ≡ r
    → parse_stream buffer t o ≡ r
unfolding parse_stream
parse_stream-steps buffer t o o₁ o₂ o₃ sid off len fin e₁ e₂ e₃ e₄ e₅ = rw (e₁, e₂, e₃, e₄) e₅

if_offset :
    (off : Bool) (offset : ℕ) → (off ≡ true) ⊎ (offset ≡ 0) → (if off then offset else 0) ≡ offset
if_offset off offset h = ground arith

if_length :
    (len : Bool) (stated left : ℕ)
    → (len ≡ true) ⊎ (left ≡ stated)
    → (if len then stated else left) ≡ stated
if_length len stated left h = ground arith

module _ (off len : Bool) (f : StreamFrame) (rest : List ℕ) where
  abbrev at_off : List ℕ
  at_off = field off f.offset

  abbrev at_len : List ℕ
  at_len = field len (length f.payload)

  abbrev whole : List ℕ
  whole = stream_wire off len f ++ rest

  abbrev type_byte : ℕ
  type_byte = stream_type off len f.fin

  -- Where each part of the wire form begins.
  abbrev o₁ : ℕ
  o₁ = suc (length (varint f.stream_id))

  abbrev o₂ : ℕ
  o₂ = o₁ + length at_off

  abbrev o₃ : ℕ
  o₃ = o₂ + length at_len

  length-whole : length whole ≡ o₃ + length f.payload + length rest
  length-whole = omega (
    arith,
    length-append (stream_wire off len f) rest,
    length-append (varint f.stream_id) (at_off ++ (at_len ++ f.payload)),
    length-append at_off (at_len ++ f.payload),
    length-append at_len f.payload,
  )

  to_the_end :
      length whole < 2 ^ 62
      → (len ≡ true) ⊎ (rest ≡ [])
      → (len ≡ true) ⊎ ((length whole + 2 ^ 64 - o₂) % 2 ^ 64 ≡ length f.payload)
  to_the_end small to_end = elim (Bool-cases len) [
    | inl e ↦ inl e
    | inr e ↦ inr (ground (arith, length-whole, to_end, e))
  ]

  parse_stream-wire :
      f.stream_id < 2 ^ 62
      → f.offset < 2 ^ 62
      → length whole < 2 ^ 62
      → (off ≡ true) ⊎ (f.offset ≡ 0)
      → (len ≡ true) ⊎ (rest ≡ [])
      → parse_stream whole type_byte 1 ≡ some (stream f, length (stream_wire off len f))
  parse_stream-wire hs ho small zero_offset to_end =
      let (flag_off, flag_len, flag_fin) = stream_type-flags off len f.fin in
      let tail : List ℕ = f.payload ++ rest in
      let sid : List ℕ = varint f.stream_id in
      let one : 1 + length sid ≡ o₁ = omega arith in
      let e₁ : decode_at whole 1 ≡ some (f.stream_id, o₁) =
        decode_at-varint whole (type_byte ∷ []) (at_off ++ (at_len ++ tail)) 1 refl f.stream_id hs
          (simp append_assoc)
        ∙ ap (λ (k : ℕ). some (f.stream_id, k)) one in
      let left : ℕ = (length whole + 2 ^ 64 - o₂) % 2 ^ 64 in
      let e₂ : optional_at off whole o₁ 0 ≡ some (f.offset, o₂) =
        optional_at-field whole (type_byte ∷ sid) (at_len ++ tail) o₁ refl off f.offset 0 ho
          (simp append_assoc)
        ∙ rw (if_offset off f.offset zero_offset) in
      let e₃ : optional_at len whole o₂ left ≡ some (length f.payload, o₃) =
        optional_at-field whole (type_byte ∷ (sid ++ at_off)) tail o₂
          (omega (arith, length-append sid at_off)) len (length f.payload) left
          (omega (arith, length-whole)) (simp append_assoc)
        ∙ rw (if_length len (length f.payload) left (to_the_end small to_end)) in
      let e₄ =
        parse_payload-found whole (type_byte ∷ (sid ++ (at_off ++ at_len))) rest f o₃
          (omega (arith, length-append sid (at_off ++ at_len), length-append at_off at_len))
          (simp append_assoc) (omega arith) in
      let wire_end : o₃ + length f.payload ≡ length (stream_wire off len f) =
        omega (arith, length-whole, length-append (stream_wire off len f) rest) in
      parse_stream-steps whole type_byte 1 o₁ o₂ o₃ f.stream_id f.offset (length f.payload) f.fin e₁
        (rw flag_off e₂) (rw flag_len e₃) flag_fin e₄
      ∙ ap (λ (k : ℕ). some (stream f, k)) wire_end

stream_type-lt :
    (off len fin : Bool) → (8 ≤ stream_type off len fin) × (stream_type off len fin ≤ 15)
stream_type-lt off len fin = ground arith

-- A STREAM frame with an id, an offset and a whole buffer below 2 ^ 62 is read back from its wire
-- form, whichever fields it has, with any bytes behind it if it states its length, and none if it
-- does not. An offset that is left out is 0.
pub parse_frame-stream_wire :
    (off len : Bool) (f : StreamFrame) (rest : List ℕ)
    → f.stream_id < 2 ^ 62
    → f.offset < 2 ^ 62
    → length (stream_wire off len f ++ rest) < 2 ^ 62
    → (off ≡ true) ⊎ (f.offset ≡ 0)
    → (len ≡ true) ⊎ (rest ≡ [])
    → parse_frame (stream_wire off len f ++ rest) ≡ some (stream f, length (stream_wire off len f))
unfolding parse_frame parse_body
parse_frame-stream_wire off len f rest hs ho small zero_offset to_end =
    let t = stream_type-lt off len f.fin in
    rw (decode-length_one (stream_type off len f.fin) _ (omega (arith, t)))
      (ground (arith, t, parse_stream-wire off len f rest hs ho small zero_offset to_end))

-- MAX_DATA and MAX_STREAM_DATA on the wire.
abbrev pub max_data_wire : ℕ → List ℕ
max_data_wire v = 0x10 ∷ varint v

abbrev pub max_stream_data_wire : ℕ → ℕ → List ℕ
max_stream_data_wire sid v = 0x11 ∷ (varint sid ++ varint v)

parse_max_data-wire :
    (v : ℕ) (rest : List ℕ)
    → v < 2 ^ 62
    → parse_max_data (max_data_wire v ++ rest) 1 ≡ some (max_data v, 1 + length (varint v))
unfolding parse_max_data
parse_max_data-wire v rest h =
    rw (decode_at-varint (max_data_wire v ++ rest) (0x10 ∷ []) rest 1 refl v h refl)

pub parse_frame-max_data_wire :
    (v : ℕ) (rest : List ℕ)
    → v < 2 ^ 62
    → parse_frame (max_data_wire v ++ rest) ≡ some (max_data v, length (max_data_wire v))
unfolding parse_frame parse_body
parse_frame-max_data_wire v rest h = rw (decode-length_one 0x10 (varint v ++ rest) (omega arith)) (
    parse_max_data-wire v rest h
    ∙ (let e : 1 + length (varint v) ≡ length (max_data_wire v) = omega arith in
        ap (λ (k : ℕ). some (max_data v, k)) e))

encoded_length-le : (v : ℕ) → encoded_length v ≤ 8
unfolding encoded_length
encoded_length-le v = ground arith

taken :
    (v : ℕ) (buf : List ℕ)
    → 8 ≤ length buf
    → (take (encode v buf).0 (encode v buf).1 ≡ varint v) × (length (encode v buf).1 ≡ length buf)
taken v buf h =
    let rest : List ℕ = drop (encoded_length v) buf in
    let fits : encoded_length v ≤ length buf = omega (arith, encoded_length-le v) in
    let front : take (encoded_length v) (varint v ++ rest) ≡ varint v =
      ap (λ (n : ℕ). take n (varint v ++ rest)) (sym (length-encoding v))
      ∙ take-append (varint v) rest in
    rw (encode_lem v buf fits) (
      front,
      omega (
        arith,
        length-append (varint v) rest,
        length-encoding v,
        length-drop (encoded_length v) buf,
      ),
    )

-- What is serialized: a MAX_DATA frame in its wire form, and nothing for any other frame.
pub serialize_frame-max_data :
    (buf : List ℕ) (v : ℕ) → 8 ≤ length buf → serialize_frame buf (max_data v) ≡ max_data_wire v
unfolding serialize_frame
serialize_frame-max_data buf v h =
    let (front, size) = taken 0x10 buf h in
    let (back, _) = taken v (encode 0x10 buf).1 (omega (arith, size)) in
    rw (front, back) (unfold encoding encoded_length in refl)
