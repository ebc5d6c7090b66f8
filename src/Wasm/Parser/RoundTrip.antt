-- ===== src/Wasm/Parser/RoundTrip.antt =====
-- The parser reads back what the format writes.
use mathlib.Core.List.{append-nil}
use odyssey_tasks.Prelude.{
  ℕ, suc, ◌≡◌, refl, ap, sym, ◌∙◌, List, [], ◌∷◌, ◌++◌, length, arith, ltb, drop-append,
  take-append, false,
}
use odyssey_tasks.Wasm.Types.{
  type_section, function_section, export_section, code_section, FuncType, Module, empty_module,
}
use odyssey_tasks.Prelude.Outcome.{ok, Reader}
use odyssey_tasks.Wasm.Parser.{
  read_var_uint32, read_counted, read_types, read_export, read_body, read_section, parse_sections,
  has_magic, parse,
}
use odyssey_tasks.Wasm.Parser.Varint.{encode_uint32, read_var_uint32-encode}
use odyssey_tasks.Wasm.Parser.Wire.{
  encode_each, encode_vector, encode_func_type, encode_export, encode_body, encode_section, magic,
  encode_sections, FitsNumber, FitsType, FitsExport, FitsBody, FitsVector, FitsModule,
}
use odyssey_tasks.Wasm.Parser.Readers.{
  Reads, read_counted-encode, read_types-encode, read_export-encode, read_body-encode, measured,
}

-- One round of the loop over the sections reads one section.
parse_sections-encode :
    (fuel sec_id : ℕ) (payload rest : List ℕ) (module' module'' : Module)
    → FitsNumber (length payload)
    → read_section sec_id payload module' ≡ ok module''
    → parse_sections (suc fuel) (encode_section sec_id payload ++ rest) module'
      ≡ parse_sections fuel rest module''
unfolding parse_sections encode_section
parse_sections-encode fuel sec_id payload rest module' module'' small read =
    let (len, room) = measured payload rest small in
    rw (len, room, take-append payload rest, drop-append payload rest, read) refl

read_section-types :
    (types : List FuncType) (module' : Module)
    → FitsVector encode_func_type FitsType types
    → read_section type_section (encode_vector encode_func_type types) module'
      ≡ ok (record module' { types = module'.types ++ types })
unfolding read_section encode_vector
read_section-types types module' (small, fits, _) =
    let bytes = encode_each encode_func_type types in
    let each : read_types (length types) bytes ≡ ok (types, []) =
      rw (ap (read_types (length types)) (sym (append-nil bytes)))
        (read_types-encode types [] fits) in
    rw (read_var_uint32-encode (length types) bytes small, each) refl

read_counted-whole :
    {A : Type 0} (read : Reader A) (enc : A → List ℕ) (Fits : A → Type 0)
    → Reads read enc Fits
    → (xs : List A) → FitsVector enc Fits xs
    → read_counted read (encode_vector enc xs) ≡ ok (xs, [])
read_counted-whole read enc Fits reads xs (small, fits, _) =
    ap (read_counted read) (sym (append-nil (encode_vector enc xs)))
    ∙ read_counted-encode read enc Fits reads xs [] small fits

read_section-others :
    (module' parsed : Module)
    → FitsModule module'
    → (read_section function_section (encode_vector encode_uint32 module'.functions) parsed
        ≡ ok (record parsed { functions = parsed.functions ++ module'.functions }))
      × (read_section export_section (encode_vector encode_export module'.exports) parsed
          ≡ ok (record parsed { exports = parsed.exports ++ module'.exports }))
      × (read_section code_section (encode_vector encode_body module'.bodies) parsed
          ≡ ok (record parsed { bodies = parsed.bodies ++ module'.bodies }))
unfolding read_section
read_section-others module' parsed (_, functions, exports, bodies) = (
  rw
      (read_counted-whole read_var_uint32 encode_uint32 FitsNumber read_var_uint32-encode
        module'.functions functions)
      refl,
  rw
      (read_counted-whole read_export encode_export FitsExport read_export-encode module'.exports
        exports)
      refl,
  rw (read_counted-whole read_body encode_body FitsBody read_body-encode module'.bodies bodies)
      refl,
)

-- Five rounds of the loop over the sections read what `encode_sections` writes.
parse_sections-module :
    (fuel : ℕ) (module' : Module)
    → FitsModule module'
    → parse_sections (suc (suc (suc (suc (suc fuel))))) (encode_sections module') empty_module
      ≡ ok (record module' { initial_memory_pages = 1; max_memory_pages = 1 })
unfolding encode_sections empty_module parse_sections
parse_sections-module fuel module' fits =
    let (fits_types, fits_functions, fits_exports, fits_bodies) = fits in
    let types = encode_vector encode_func_type module'.types in
    let functions = encode_vector encode_uint32 module'.functions in
    let exports = encode_vector encode_export module'.exports in
    let bodies = encode_vector encode_body module'.bodies in
    let code = encode_section code_section bodies in
    let from_exports = encode_section export_section exports ++ code in
    let from_functions = encode_section function_section functions ++ from_exports in
    let m₁ : Module = record empty_module { types = module'.types } in
    let m₂ : Module = record m₁ { functions = module'.functions } in
    let m₃ : Module = record m₂ { exports = module'.exports } in
    let m₄ : Module = record m₃ { bodies = module'.bodies } in
    let reads₂ = (read_section-others module' m₁ fits).0 in
    let reads₃ = (read_section-others module' m₂ fits).1 in
    let reads₄ = (read_section-others module' m₃ fits).2 in
    parse_sections-encode (suc (suc (suc (suc fuel)))) type_section types from_functions
      empty_module m₁ fits_types.2 (read_section-types module'.types empty_module fits_types)
    ∙ parse_sections-encode (suc (suc (suc fuel))) function_section functions from_exports m₁ m₂
        fits_functions.2 reads₂
    ∙ parse_sections-encode (suc (suc fuel)) export_section exports code m₂ m₃ fits_exports.2 reads₃
    ∙ ap (λ (stream : List ℕ). parse_sections (suc (suc fuel)) stream m₃) (sym (append-nil code))
    ∙ parse_sections-encode (suc fuel) code_section bodies [] m₃ m₄ fits_bodies.2 reads₄

-- The parser reads back the types, functions, exports and bodies of a module that is written as the
-- format says, whatever the version, where each number and length fits into 32 bits.
pub parse-encode :
    (module' : Module) (v₀ v₁ v₂ v₃ : ℕ)
    → FitsModule module'
    → parse (magic ++ (v₀ ∷ v₁ ∷ v₂ ∷ v₃ ∷ encode_sections module'))
      ≡ ok (record module' { initial_memory_pages = 1; max_memory_pages = 1 })
unfolding parse has_magic
parse-encode module' v₀ v₁ v₂ v₃ fits =
    let bytes = encode_sections module' in
    let long : ltb (length (0 ∷ 0x61 ∷ 0x73 ∷ 0x6D ∷ v₀ ∷ v₁ ∷ v₂ ∷ v₃ ∷ bytes)) 8 ≡ false =
      ground arith in
    rw long (parse_sections-module (suc (suc (suc (suc (length bytes))))) module' fits)
