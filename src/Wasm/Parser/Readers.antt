-- ===== src/Wasm/Parser/Readers.antt =====
-- Each reader reads back what the format writes for it.
use mathlib.Core.List.{append_assoc}
use odyssey_tasks.Prelude.{
  ℕ, ◌≡◌, refl, List, [], ◌∷◌, ◌++◌, length, All, arith, ltb, length-append, drop-append,
  take-append, false,
}
use odyssey_tasks.Wasm.Types.{FuncType, FunctionBody}
use odyssey_tasks.Prelude.Outcome.{ok, Reader}
use odyssey_tasks.Wasm.Parser.{
  read_var_uint32, read_string, read_byte, times, read_counted, read_func_type, read_types,
  read_export, read_local, read_body_payload, read_body,
}
use odyssey_tasks.Wasm.Parser.Varint.{encode_uint32, read_var_uint32-encode}
use odyssey_tasks.Wasm.Parser.Wire.{
  encode_each, encode_vector, encode_byte, encode_string, encode_func_type, encode_export,
  encode_local, encode_content, encode_body, FitsNumber, FitsType, FitsExport, FitsLocal, FitsBody,
}

-- What `read` makes of what `enc` writes, where it fits.
abbrev pub Reads : {A : Type 0} → Reader A → (A → List ℕ) → (A → Type 0) → Type 0
Reads read enc Fits = (a : _) (rest : List ℕ) → Fits a → read (enc a ++ rest) ≡ ok (a, rest)

times-encode :
    {A : Type 0} (read : Reader A) (enc : A → List ℕ) (Fits : A → Type 0)
    → Reads read enc Fits
    → (xs : List A) (rest : List ℕ) → All Fits xs
    → times (length xs) read (encode_each enc xs ++ rest) ≡ ok (xs, rest)
unfolding times encode_each
times-encode read enc Fits reads [] rest fits = refl
times-encode read enc Fits reads (x ∷ xs) rest (fit, fits) =
    rw (append_assoc (enc x) (encode_each enc xs) rest, reads x (encode_each enc xs ++ rest) fit)
      (rw (times-encode read enc Fits reads xs rest fits) refl)

pub read_counted-encode :
    {A : Type 0} (read : Reader A) (enc : A → List ℕ) (Fits : A → Type 0)
    → Reads read enc Fits
    → (xs : List A) (rest : List ℕ) → FitsNumber (length xs)
    → All Fits xs
    → read_counted read (encode_vector enc xs ++ rest) ≡ ok (xs, rest)
unfolding read_counted encode_vector
read_counted-encode read enc Fits reads xs rest small fits =
    rw
      (
        append_assoc (encode_uint32 (length xs)) (encode_each enc xs) rest,
        read_var_uint32-encode (length xs) (encode_each enc xs ++ rest) small,
      )
      (times-encode read enc Fits reads xs rest fits)

All-trivial : (xs : List ℕ) → All (λ x. Unit {0}) xs
All-trivial [] = tt
All-trivial (x ∷ xs) = (tt, All-trivial xs)

read_byte-encode :
    (byte : ℕ) (rest : List ℕ) → read_byte (encode_byte byte ++ rest) ≡ ok (byte, rest)
unfolding read_byte
read_byte-encode byte rest = refl

-- Any list of bytes with its length before it.
read_string-encode :
    (string rest : List ℕ)
    → FitsNumber (length string)
    → read_string (encode_string string ++ rest) ≡ ok (string, rest)
unfolding read_string encode_string
read_string-encode string rest small =
    let room : ltb (length (string ++ rest)) (length string) ≡ false =
      ground (arith, length-append string rest) in
    rw
      (
        append_assoc (encode_uint32 (length string)) string rest,
        read_var_uint32-encode (length string) (string ++ rest) small,
        room,
        take-append string rest,
        drop-append string rest,
      )
      refl

read_func_type-encode :
    (type : FuncType) (rest : List ℕ)
    → FitsType type
    → read_func_type
        (encode_vector encode_byte type.params ++ (encode_vector encode_byte type.returns ++ rest))
      ≡ ok (type, rest)
unfolding read_func_type
read_func_type-encode type rest (small_ps, small_rs) =
    let bytes = encode_vector encode_byte type.returns ++ rest in
    rw
      (
        read_counted-encode read_byte encode_byte (λ b. Unit) (λ b r fits. read_byte-encode b r)
            type.params bytes small_ps (All-trivial type.params),
        read_counted-encode read_byte encode_byte (λ b. Unit) (λ b r fits. read_byte-encode b r)
            type.returns rest small_rs (All-trivial type.returns),
      )
      refl

pub read_export-encode : Reads read_export encode_export FitsExport
unfolding read_export encode_export
read_export-encode entry rest (small_name, small_index) =
    let bytes = encode_uint32 entry.index ++ rest in
    rw
      (
        append_assoc (encode_string entry.name) (entry.kind ∷ encode_uint32 entry.index) rest,
        read_string-encode entry.name (entry.kind ∷ bytes) small_name,
        read_byte-encode entry.kind bytes,
        read_var_uint32-encode entry.index rest small_index,
      )
      refl

read_local-encode : Reads read_local encode_local FitsLocal
unfolding read_local encode_local
read_local-encode (num, type) rest small =
    rw
      (
        append_assoc (encode_uint32 num) (encode_byte type) rest,
        read_var_uint32-encode num (type ∷ rest) small,
        read_byte-encode type rest,
      )
      refl

pub read_types-encode :
    (types : List FuncType) (rest : List ℕ)
    → All FitsType types
    → read_types (length types) (encode_each encode_func_type types ++ rest) ≡ ok (types, rest)
unfolding read_types encode_each encode_func_type
read_types-encode [] rest fits = refl
read_types-encode (type ∷ types) rest (fit, fits) =
    let more = encode_each encode_func_type types ++ rest in
    let returns = encode_vector encode_byte type.returns in
    rw
      (
        append_assoc (encode_vector encode_byte type.params ++ returns)
            (encode_each encode_func_type types) rest,
        append_assoc (encode_vector encode_byte type.params) returns more,
        read_func_type-encode type more fit,
      )
      (rw (read_types-encode types rest fits) refl)

read_body_payload-encode :
    (body : FunctionBody) → FitsBody body → read_body_payload (encode_content body) ≡ ok body
unfolding read_body_payload encode_content
read_body_payload-encode body (small, fits, _) =
    rw
      (read_counted-encode read_local encode_local FitsLocal read_local-encode body.locals body.code
        small fits)
      refl

-- A payload after its length, which is in the stream as a whole.
pub measured :
    (payload rest : List ℕ)
    → FitsNumber (length payload)
    → (read_var_uint32 (encode_string payload ++ rest) ≡ ok (length payload, payload ++ rest))
      × (ltb (length (payload ++ rest)) (length payload) ≡ false)
unfolding encode_string
measured payload rest small = (
  rw (append_assoc (encode_uint32 (length payload)) payload rest)
      (read_var_uint32-encode (length payload) (payload ++ rest) small),
  ground (arith, length-append payload rest),
)

pub read_body-encode : Reads read_body encode_body FitsBody
unfolding read_body encode_body
read_body-encode body rest fits =
    let content = encode_content body in
    let (len, room) = measured content rest fits.2 in
    rw
      (
        len,
        room,
        take-append content rest,
        drop-append content rest,
        read_body_payload-encode body fits,
      )
      refl
