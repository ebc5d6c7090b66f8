-- ===== src/Quic/Frame.antt =====
-- quic_frame.hpp and quic_frame.cpp: frames, and what is parsed and serialized of them.
pub mod Parse
use Prim.Native.Nat.{bit_and}
use odyssey_tasks.Prelude.{
  ℕ, ◌+◌, ◌-◌, ◌%◌, ◌^◌, Bool, ◌&&◌, not, Option, none, some, List, [], ◌∷◌, ◌++◌, length, take,
  drop, ltb, leb, ◌==◌, if◌then◌else◌, ◌>>=◌,
}
use odyssey_tasks.Quic.Varint.{encode, decode}

pub record StreamFrame : Type 0 where
  pub stream_id : ℕ
  pub offset : ℕ
  pub fin : Bool
  pub payload : List ℕ

pub record AckRange : Type 0 where
  pub gap : ℕ
  pub ack_range_length : ℕ

pub record AckFrame : Type 0 where
  pub largest_acknowledged : ℕ
  pub ack_delay : ℕ
  pub first_ack_range : ℕ
  pub additional_ranges : List AckRange

pub record MaxStreamDataFrame : Type 0 where
  pub stream_id : ℕ
  pub maximum_stream_data : ℕ

pub record ResetStreamFrame : Type 0 where
  pub stream_id : ℕ
  pub error_code : ℕ
  pub final_size : ℕ

pub data Frame : Type 0 where
  stream : StreamFrame → Frame
  ack : AckFrame → Frame
  max_data : ℕ → Frame
  max_stream_data : MaxStreamDataFrame → Frame
  reset_stream : ResetStreamFrame → Frame

-- `VarInt::Decode(buffer.subspan(offset))`: the value, and the offset behind it.
decode_at : List ℕ → ℕ → Option (ℕ × ℕ)
decode_at buffer offset = do (v, n) ← decode (drop offset buffer); some (v, offset + n)

-- A field that a flag announces, or the value that it has without.
optional_at : Bool → List ℕ → ℕ → ℕ → Option (ℕ × ℕ)
unfolding decode_at
optional_at flag buffer offset otherwise =
    if flag then decode_at buffer offset else some (otherwise, offset)

has_flag : ℕ → ℕ → Bool
has_flag type_val flag = not (bit_and type_val flag == 0)

parse_payload : List ℕ → ℕ → ℕ → Bool → ℕ → ℕ → Option (Frame × ℕ)
parse_payload buffer stream_id stream_offset fin len offset =
    let end = (offset + len) % 2 ^ 64 in
    if ltb (length buffer) end
    then none
    else some (
      stream (record {
        stream_id = stream_id;
        offset = stream_offset;
        fin = fin;
        payload = take len (drop offset buffer);
      }),
      end,
    )

parse_stream : List ℕ → ℕ → ℕ → Option (Frame × ℕ)
unfolding optional_at has_flag parse_payload
parse_stream buffer type_val offset = do
  (stream_id, offset₁) ← decode_at buffer offset
  (stream_offset, offset₂) ← optional_at (has_flag type_val 0x04) buffer offset₁ 0
  (len, offset₃) ←
      optional_at (has_flag type_val 0x02) buffer offset₂
        ((length buffer + 2 ^ 64 - offset₂) % 2 ^ 64)
  parse_payload buffer stream_id stream_offset (has_flag type_val 0x01) len offset₃

parse_max_data : List ℕ → ℕ → Option (Frame × ℕ)
parse_max_data buffer offset = do
  (maximum, offset₁) ← decode_at buffer offset
  some (max_data maximum, offset₁)

parse_max_stream_data : List ℕ → ℕ → Option (Frame × ℕ)
parse_max_stream_data buffer offset = do
  (stream_id, offset₁) ← decode_at buffer offset
  (maximum, offset₂) ← decode_at buffer offset₁
  some (max_stream_data (record { stream_id = stream_id; maximum_stream_data = maximum }), offset₂)

parse_body : List ℕ → ℕ → ℕ → Option (Frame × ℕ)
unfolding parse_stream parse_max_data parse_max_stream_data
parse_body buffer type_val offset =
    if leb 0x08 type_val && leb type_val 0x0F
    then parse_stream buffer type_val offset
    else if type_val == 0x10
    then parse_max_data buffer offset
    else if type_val == 0x11
    then parse_max_stream_data buffer offset
    else none

-- The frame at the front of the buffer, and how many bytes it takes.
unfoldable pub parse_frame : List ℕ → Option (Frame × ℕ)
unfolding parse_body decode_at
parse_frame [] = none
parse_frame (b ∷ buffer) = do
  (type_val, offset) ← decode (b ∷ buffer)
  parse_body (b ∷ buffer) type_val offset

-- `buf` is the uninitialised local array of 16 bytes.
serialize_max_data : ℕ → List ℕ → List ℕ
serialize_max_data maximum buf =
    let (l₁, buf₁) = encode 0x10 buf in
    let (l₂, buf₂) = encode maximum buf₁ in take l₁ buf₁ ++ take l₂ buf₂

unfoldable pub serialize_frame : List ℕ → Frame → List ℕ
unfolding serialize_max_data
serialize_frame buf (max_data maximum) = serialize_max_data maximum buf
serialize_frame buf _ = []
