-- ===== src/Wasm/Examples.antt =====
-- Theorems on WebAssembly modules at concrete values.
use odyssey_tasks.Prelude.{◌≡◌, ◌≢◌, refl, [], ◌∷◌, ◌++◌, arith}
use odyssey_tasks.Wasm.Types.{type_section, Module}
use odyssey_tasks.Prelude.Outcome.{ok, fault, out_of_fuel}
use odyssey_tasks.Wasm.Parser.{parse}
use odyssey_tasks.Wasm.Parser.Varint.{encode, encode_uint32}
use odyssey_tasks.Wasm.Parser.Wire.{
  magic, encode_each, encode_vector, encode_string, encode_func_type, encode_export, encode_local,
  encode_content, encode_body, encode_section, encode_sections,
}
use odyssey_tasks.Wasm.Parser.RoundTrip.{parse-encode}
use odyssey_tasks.Wasm.Parser.Overrun.{type_payload, parse-overrun}
use odyssey_tasks.Wasm.Parser.Totality.{parse-total}
use odyssey_tasks.Wasm.Runtime.{Native, same_name, new, invoke}
use odyssey_tasks.Wasm.Runtime.Exports.{exports_function, invoke-new}

-- A function `f` from an i32 to an i32 with a local of type i64 and the code `i32.const 42; end`.
abbrev answer : Module
answer = record {
  types = record { params = 0x7F ∷ []; returns = 0x7F ∷ [] } ∷ [];
  functions = 0 ∷ [];
  exports = record { name = 0x66 ∷ []; kind = 0; index = 0 } ∷ [];
  bodies = record { locals = (1, 0x7E) ∷ []; code = 0x41 ∷ 0x2A ∷ 0x0B ∷ [] } ∷ [];
  initial_memory_pages = 1;
  max_memory_pages = 1;
}

parse-encode_example : parse (magic ++ (1 ∷ 0 ∷ 0 ∷ 0 ∷ encode_sections answer)) ≡ ok answer
unfolding encode encode_each encode_vector encode_string encode_uint32 encode_func_type
    encode_export encode_local encode_content encode_body
parse-encode_example = parse-encode answer 1 0 0 0 (
  (omega arith, ((omega arith, omega arith), tt), omega arith),
  (omega arith, (omega arith, tt), omega arith),
  (omega arith, ((omega arith, omega arith), tt), omega arith),
  (omega arith, ((omega arith, (omega arith, tt), omega arith), tt), omega arith),
)

-- The first type promises three parameters and the section has one byte left.
parse-overrun_example :
    parse (
      magic ++ (1 ∷ 0 ∷ 0 ∷ 0 ∷ (encode_section type_section (type_payload 1 3 (0x7F ∷ [])) ++ [])))
    ≡ fault
unfolding encode encode_uint32 type_payload
parse-overrun_example =
    parse-overrun 1 0 0 0 0 3 (0x7F ∷ []) [] (omega arith) (omega arith) (omega arith) (omega arith)

parse-total_example : parse (magic ++ (1 ∷ 0 ∷ 0 ∷ 0 ∷ 10 ∷ 200 ∷ [])) ≢ out_of_fuel
parse-total_example = parse-total (magic ++ (1 ∷ 0 ∷ 0 ∷ 0 ∷ 10 ∷ 200 ∷ []))

-- A processor that returns the first argument, whatever the code.
abbrev first_of : Native
first_of code [] memory = (0, memory)
first_of code (arg ∷ args) memory = (arg, memory)

invoke-new_example : invoke first_of (0x66 ∷ []) (7 ∷ 8 ∷ []) (new answer) ≡ (7, new answer)
unfolding exports_function same_name
invoke-new_example =
    invoke-new first_of (λ rest args memory arg. refl) answer (0x66 ∷ []) (8 ∷ []) 7
