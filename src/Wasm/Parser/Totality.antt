-- ===== src/Wasm/Parser/Totality.antt =====
-- The parser comes to an end: its readers never lengthen the stream, so its fuel is enough.
use Prim.Native.Nat.{bit_and, bit_or}
use mathlib.Core.Path.{subst}
use odyssey_tasks.Prelude.{
  ◌*◌, ◌%◌, ◌^◌, ℕ, zero, suc, ◌+◌, ◌≤◌, ◌<◌, ◌≢◌, Bool, true, false, List, [], ◌∷◌, length, take,
  drop, arith, ltb, leb, ◌==◌, length-drop, if◌then◌else◌,
}
use odyssey_tasks.Wasm.Types.{
  Module, empty_module, type_section, function_section, export_section, code_section,
}
use odyssey_tasks.Prelude.Outcome.{Outcome, ok, reject, fault, out_of_fuel, ◌>>=◌, Reader}
use odyssey_tasks.Wasm.Parser.{
  read_uint32_loop, read_var_uint32, read_string, read_byte, times, read_counted, read_func_type,
  read_types, read_export, read_local, read_body_payload, read_body, read_section, parse_sections,
  has_magic, parse,
}

-- Not out of fuel, and a value has the property.
abbrev Settles : {A : Type 0} → (A → Type 0) → Outcome A → Type 0
Settles P (ok a) = P a
Settles P reject = Unit
Settles P fault = Unit
Settles P out_of_fuel = ⊥

-- A value with at most `n` bytes left.
abbrev Left : {A : Type 0} → ℕ → A × List ℕ → Type 0
Left n (a, stream) = length stream ≤ n

abbrev Shrinks : {A : Type 0} → Reader A → Type 0
Shrinks read = (stream : List ℕ) (n : ℕ) → length stream ≤ n → Settles (Left n) (read stream)

>>=-Settles :
    {A B : Type 0} (P : A → Type 0) (Q : B → Type 0) (o : Outcome A) (f : A → Outcome B)
    → Settles P o
    → ((a : A) → P a → Settles Q (f a))
    → Settles Q (o >>= f)
>>=-Settles P Q (ok a) f p q = q a p
>>=-Settles P Q reject f p q = tt
>>=-Settles P Q fault f p q = tt
>>=-Settles P Q out_of_fuel f p q = absurd p

>>=-Left :
    {A B : Type 0} (n : ℕ) (o : Outcome (A × List ℕ)) (f : A × List ℕ → Outcome (B × List ℕ))
    → Settles (Left n) o
    → ((a : A) (stream : List ℕ) → length stream ≤ n → Settles (Left n) (f (a, stream)))
    → Settles (Left n) (o >>= f)
>>=-Left n o f p q = >>=-Settles (Left n) (Left n) o f p (λ (a, stream). q a stream)

if-Settles :
    {A : Type 0} (P : A → Type 0) (b : Bool) (x y : Outcome A)
    → Settles P x
    → Settles P y
    → Settles P (if b then x else y)
if-Settles P true x y p q = p
if-Settles P false x y p q = q

read_uint32_loop-Left : (result shift : ℕ) → Shrinks (read_uint32_loop result shift)
unfolding read_uint32_loop
read_uint32_loop-Left result shift [] n small = small
read_uint32_loop-Left result shift (byte ∷ stream) n small =
    if-Settles (Left n) (leb 32 shift) _ _ tt (
      if-Settles (Left n) (bit_and byte 0x80 == 0) _ _ (omega arith) (
        read_uint32_loop-Left (bit_or result (bit_and byte 0x7F * 2 ^ shift % 2 ^ 32)) (shift + 7)
          stream n (omega arith)))

read_var_uint32-Left : Shrinks read_var_uint32
unfolding read_var_uint32
read_var_uint32-Left stream n small = read_uint32_loop-Left 0 0 stream n small

read_string-Left : Shrinks read_string
unfolding read_string
read_string-Left stream n small =
    >>=-Left n (read_var_uint32 stream) _ (read_var_uint32-Left stream n small)
      (λ len stream' small'.
        if-Settles (Left n) (ltb (length stream') len) _ _ small'
          (omega (arith, length-drop len stream')))

read_byte-Left : Shrinks read_byte
unfolding read_byte
read_byte-Left [] n small = tt
read_byte-Left (byte ∷ stream) n small = omega arith

times-Left : {A : Type 0} (count : ℕ) (read : Reader A) → Shrinks read → Shrinks (times count read)
unfolding times
times-Left zero read shrinks stream n small = small
times-Left (suc count) read shrinks stream n small =
    >>=-Left n (read stream) _ (shrinks stream n small) (λ a stream₁ small₁.
      >>=-Left n (times count read stream₁) _ (times-Left count read shrinks stream₁ n small₁)
        (λ values stream₂ small₂. small₂))

read_counted-Left : {A : Type 0} (read : Reader A) → Shrinks read → Shrinks (read_counted read)
unfolding read_counted
read_counted-Left read shrinks stream n small =
    >>=-Left n (read_var_uint32 stream) _ (read_var_uint32-Left stream n small)
      (λ count stream' small'. times-Left count read shrinks stream' n small')

-- What comes after a reader settles where it does for each shorter stream.
read_func_type-Left : Shrinks read_func_type
unfolding read_func_type
read_func_type-Left stream n small =
    >>=-Left n (read_counted read_byte stream) _
      (read_counted-Left read_byte read_byte-Left stream n small)
      (λ params stream₁ small₁.
        >>=-Left n (read_counted read_byte stream₁) _
          (read_counted-Left read_byte read_byte-Left stream₁ n small₁)
          (λ returns stream₂ small₂. small₂))

read_types-Left : (count : ℕ) → Shrinks (read_types count)
unfolding read_types
read_types-Left zero stream n small = small
read_types-Left (suc count) [] n small = small
read_types-Left (suc count) (byte ∷ stream) n small =
    if-Settles (Left n) (byte == 0x60) _ _
      (>>=-Left n (read_func_type stream) _ (read_func_type-Left stream n (omega arith))
        (λ type stream₁ small₁.
          >>=-Left n (read_types count stream₁) _ (read_types-Left count stream₁ n small₁)
            (λ types stream₂ small₂. small₂)))
      small

read_export-Left : Shrinks read_export
unfolding read_export
read_export-Left stream n small =
    >>=-Left n (read_string stream) _ (read_string-Left stream n small) (λ name stream₁ small₁.
      >>=-Left n (read_byte stream₁) _ (read_byte-Left stream₁ n small₁) (λ kind stream₂ small₂.
        >>=-Left n (read_var_uint32 stream₂) _ (read_var_uint32-Left stream₂ n small₂)
          (λ index stream₃ small₃. small₃)))

read_local-Left : Shrinks read_local
unfolding read_local
read_local-Left stream n small =
    >>=-Left n (read_var_uint32 stream) _ (read_var_uint32-Left stream n small)
      (λ num stream₁ small₁.
        >>=-Left n (read_byte stream₁) _ (read_byte-Left stream₁ n small₁)
          (λ type stream₂ small₂. small₂))

Any : {A : Type 0} → A → Type 0
Any a = Unit

read_body_payload-Any : (payload : List ℕ) → Settles Any (read_body_payload payload)
unfolding read_body_payload Any
read_body_payload-Any payload =
    >>=-Settles (Left (length payload)) Any (read_counted read_local payload) _
      (read_counted-Left read_local read_local-Left payload (length payload) (omega arith))
      (λ value left. tt)

read_body-Left : Shrinks read_body
unfolding read_body
read_body-Left stream n small =
    >>=-Left n (read_var_uint32 stream) _ (read_var_uint32-Left stream n small)
      (λ len stream₁ small₁.
        >>=-Settles Any (Left n)
          (if ltb (length stream₁) len then fault else read_body_payload (take len stream₁)) _
          (if-Settles Any (ltb (length stream₁) len) _ _ tt
            (read_body_payload-Any (take len stream₁)))
          (λ body any. omega (arith, length-drop len stream₁)))

-- A section that is read from a vector and then joined to the module.
joined :
    {A : Type 0} (read : Reader A) (payload : List ℕ) (join : A × List ℕ → Outcome Module)
    → Shrinks read
    → ((a : A) (rest : List ℕ) → Settles Any (join (a, rest)))
    → Settles Any (read payload >>= join)
joined read payload join shrinks settles =
    >>=-Settles (Left (length payload)) Any (read payload) join
      (shrinks payload (length payload) (omega arith)) (λ (a, rest) left. settles a rest)

read_section-Any :
    (sec_id : ℕ) (payload : List ℕ) (module' : Module)
    → Settles Any (read_section sec_id payload module')
unfolding read_section Any
read_section-Any sec_id payload module' =
    if-Settles Any (sec_id == type_section) _ _
      (joined read_var_uint32 payload _ read_var_uint32-Left (λ count stream.
        joined (read_types count) stream _ (read_types-Left count) (λ types rest. tt)))
      (if-Settles Any (sec_id == function_section) _ _
        (joined (read_counted read_var_uint32) payload _
          (read_counted-Left read_var_uint32 read_var_uint32-Left) (λ functions rest. tt))
        (if-Settles Any (sec_id == export_section) _ _
          (joined (read_counted read_export) payload _
            (read_counted-Left read_export read_export-Left) (λ exports rest. tt))
          (if-Settles Any (sec_id == code_section) _ _
            (joined (read_counted read_body) payload _ (read_counted-Left read_body read_body-Left)
              (λ bodies rest. tt))
            tt)))

parse_sections-Any :
    (fuel : ℕ) (stream : List ℕ) (module' : Module)
    → length stream < fuel
    → Settles Any (parse_sections fuel stream module')
unfolding parse_sections Any
parse_sections-Any zero stream module' enough = absurd (omega arith)
parse_sections-Any (suc fuel) [] module' enough = tt
parse_sections-Any (suc fuel) (sec_id ∷ stream) module' enough =
    >>=-Settles (Left (length stream)) Any (read_var_uint32 stream) _
      (read_var_uint32-Left stream (length stream) (omega arith))
      (λ (len, stream₁) left.
        >>=-Settles Any Any
          (if ltb (length stream₁) len
            then reject
            else read_section sec_id (take len stream₁) module')
          _
          (if-Settles Any (ltb (length stream₁) len) _ _ tt
            (read_section-Any sec_id (take len stream₁) module'))
          (λ module'' any.
            parse_sections-Any fuel (drop len stream₁) module''
              (omega (arith, length-drop len stream₁))))

Settles-never_out : {A : Type 0} (P : A → Type 0) (o : Outcome A) → Settles P o → o ≢ out_of_fuel
Settles-never_out P o settles e = subst (Settles P) e settles

-- The parser never runs out of fuel: on every list of bytes it gives a module, or rejects it, or
-- comes upon behaviour that is undefined.
pub parse-total : (bytes : List ℕ) → parse bytes ≢ out_of_fuel
unfolding parse
parse-total bytes = Settles-never_out Any (parse bytes) (
    if-Settles Any (ltb (length bytes) 8) _ _ tt (
      if-Settles Any (has_magic bytes) _ _
        (parse_sections-Any (suc (length bytes)) (drop 8 bytes) empty_module
          (omega (arith, length-drop 8 bytes)))
        tt))
