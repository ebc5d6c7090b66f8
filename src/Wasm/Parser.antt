-- ===== src/Wasm/Parser.antt =====
-- wasm_parser.hpp and wasm_parser.cpp: the stream is the list of the bytes left, which a reader
-- returns after its value.
pub mod Varint
pub mod Wire
pub mod Readers
pub mod RoundTrip
pub mod Totality
pub mod Overrun
use Prim.Native.Nat.{bit_and, bit_or}
use odyssey_tasks.Prelude.{
  ℕ, zero, suc, ◌+◌, ◌-◌, ◌*◌, ◌%◌, ◌^◌, Bool, true, false, ◌&&◌, ◌||◌, not, List, [], ◌∷◌, ◌++◌,
  length, take, drop, ltb, leb, ◌==◌, if◌then◌else◌,
}
use odyssey_tasks.Wasm.Types.{
  ValType, type_section, function_section, export_section, code_section, FuncType, ExportEntry,
  FunctionBody, Module, empty_module,
}
use odyssey_tasks.Prelude.Outcome.{Outcome, ok, reject, fault, out_of_fuel, ◌>>=◌, Reader}

-- The loop of `ReadVarUint32`. A shift of a 32-bit number by 32 or more has no defined result.
unfoldable pub read_uint32_loop : ℕ → ℕ → Reader ℕ
read_uint32_loop result shift [] = ok (result, [])
read_uint32_loop result shift (byte ∷ stream) =
    let result' = bit_or result (bit_and byte 0x7F * 2 ^ shift % 2 ^ 32) in
    let more = read_uint32_loop result' (shift + 7) stream in
    if leb 32 shift then fault else if bit_and byte 0x80 == 0 then ok (result', stream) else more

unfoldable pub read_var_uint32 : Reader ℕ
read_var_uint32 stream = read_uint32_loop 0 0 stream

-- The end of `ReadVarInt32` and `ReadVarInt64`: `~0 << shift` is joined where the last byte has its
-- sign bit set. The result is a bit pattern of `width` bits.
sign_extend : ℕ → ℕ → ℕ → ℕ → ℕ
sign_extend width result shift byte =
    if ltb shift width && not (bit_and byte 0x40 == 0)
    then bit_or result (2 ^ width - 2 ^ shift)
    else result

-- The loop of the two, which adds to `shift` before it looks at the byte's last bit.
read_int_loop : ℕ → ℕ → ℕ → ℕ → Reader ℕ
read_int_loop width result shift byte [] = ok (sign_extend width result shift byte, [])
read_int_loop width result shift byte (byte' ∷ stream) =
    let result' = bit_or result (bit_and byte' 0x7F * 2 ^ shift % 2 ^ width) in
    let more = read_int_loop width result' (shift + 7) byte' stream in
    if leb width shift
    then fault
    else if bit_and byte' 0x80 == 0
    then ok (sign_extend width result' (shift + 7) byte', stream)
    else more

pub read_var_int32 : Reader ℕ
read_var_int32 stream = read_int_loop 32 0 0 0 stream

pub read_var_int64 : Reader ℕ
read_var_int64 stream = read_int_loop 64 0 0 0 stream

pub read_string : Reader (List ℕ)
read_string stream = do
  (len, stream') ← read_var_uint32 stream
  if ltb (length stream') len then ok ([], stream') else ok (take len stream', drop len stream')

-- `stream[0]` and `stream.subspan(1)`, which an empty stream does not allow.
read_byte : Reader ℕ
read_byte [] = fault
read_byte (byte ∷ stream) = ok (byte, stream)

-- A loop of `count` rounds that puts each value at the end of a vector.
times : {A : Type 0} → ℕ → Reader A → Reader (List A)
times zero read stream = ok ([], stream)
times (suc count) read stream = do
  (value, stream') ← read stream
  (values, stream'') ← times count read stream'
  ok (value ∷ values, stream'')

pub read_counted : {A : Type 0} → Reader A → Reader (List A)
read_counted read stream = do (count, stream') ← read_var_uint32 stream; times count read stream'

read_func_type : Reader FuncType
read_func_type stream = do
  (params, stream') ← read_counted read_byte stream
  (returns, stream'') ← read_counted read_byte stream'
  ok (record { params = params; returns = returns }, stream'')

-- The loop over the types, which stops at the first that does not begin with 0x60.
pub read_types : ℕ → Reader (List FuncType)
read_types zero stream = ok ([], stream)
read_types (suc count) [] = ok ([], [])
read_types (suc count) (byte ∷ stream) =
    let type = do
      (ft, stream') ← read_func_type stream
      (fts, stream'') ← read_types count stream'
      ok (ft ∷ fts, stream'')
    in if byte == 0x60 then type else ok ([], byte ∷ stream)

pub read_export : Reader ExportEntry
read_export stream = do
  (name, stream₁) ← read_string stream
  (kind, stream₂) ← read_byte stream₁
  (index, stream₃) ← read_var_uint32 stream₂
  ok (record { name = name; kind = kind; index = index }, stream₃)

read_local : Reader (ℕ × ValType)
read_local stream = do
  (num, stream₁) ← read_var_uint32 stream
  (type, stream₂) ← read_byte stream₁
  ok ((num, type), stream₂)

-- A body within its own bytes: the locals, and the rest as code.
read_body_payload : List ℕ → Outcome FunctionBody
read_body_payload payload = do
  (locals, code) ← read_counted read_local payload
  ok (record { locals = locals; code = code })

-- `subspan(0, body_len)` does not allow a length beyond the end.
pub read_body : Reader FunctionBody
read_body stream = do
  (body_len, stream') ← read_var_uint32 stream
  body ← if ltb (length stream') body_len then fault else read_body_payload (take body_len stream')
  ok (body, drop body_len stream')

read_section : ℕ → List ℕ → Module → Outcome Module
read_section sec_id payload mod' =
    if sec_id == type_section
    then (do
      (count, stream) ← read_var_uint32 payload
      (types, _) ← read_types count stream
      ok (record mod' { types = mod'.types ++ types }))
    else if sec_id == function_section
    then (do
      (functions, _) ← read_counted read_var_uint32 payload
      ok (record mod' { functions = mod'.functions ++ functions }))
    else if sec_id == export_section
    then (do
      (exports, _) ← read_counted read_export payload
      ok (record mod' { exports = mod'.exports ++ exports }))
    else if sec_id == code_section
    then (do
      (bodies, _) ← read_counted read_body payload
      ok (record mod' { bodies = mod'.bodies ++ bodies }))
    else ok mod'

-- The loop over the sections, with fuel for its rounds.
parse_sections : ℕ → List ℕ → Module → Outcome Module
parse_sections zero stream mod' = out_of_fuel
parse_sections (suc fuel) [] mod' = ok mod'
parse_sections (suc fuel) (sec_id ∷ stream) mod' = do
  (sec_len, stream') ← read_var_uint32 stream
  mod'' ←
      if ltb (length stream') sec_len
      then reject
      else read_section sec_id (take sec_len stream') mod'
  parse_sections fuel (drop sec_len stream') mod''

-- `bytes[0]` to `bytes[3]` against the magic number.
has_magic : List ℕ → Bool
has_magic (a ∷ b ∷ c ∷ d ∷ bytes) = a == 0x00 && (b == 0x61 && (c == 0x73 && d == 0x6D))
has_magic _ = false

pub parse : List ℕ → Outcome Module
parse bytes =
    if ltb (length bytes) 8
    then reject
    else if has_magic bytes
    then parse_sections (suc (length bytes)) (drop 8 bytes) empty_module
    else reject
