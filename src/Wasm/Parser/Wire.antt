-- ===== src/Wasm/Parser/Wire.antt =====
-- The binary format that the parser reads: how a module is written down.
use odyssey_tasks.Prelude.{ℕ, ◌^◌, ◌<◌, List, [], ◌∷◌, ◌++◌, length, All}
use odyssey_tasks.Wasm.Types.{
  ValType, type_section, function_section, export_section, code_section, FuncType, ExportEntry,
  FunctionBody, Module,
}
use odyssey_tasks.Wasm.Parser.Varint.{encode_uint32}

unfoldable pub encode_each : {A : Type 0} → (A → List ℕ) → List A → List ℕ
encode_each enc [] = []
encode_each enc (x ∷ xs) = enc x ++ encode_each enc xs

unfoldable pub encode_vector : {A : Type 0} → (A → List ℕ) → List A → List ℕ
encode_vector enc xs = encode_uint32 (length xs) ++ encode_each enc xs

abbrev pub encode_byte : ℕ → List ℕ
encode_byte byte = byte ∷ []

unfoldable pub encode_string : List ℕ → List ℕ
encode_string string = encode_uint32 (length string) ++ string

unfoldable pub encode_func_type : FuncType → List ℕ
encode_func_type type =
    0x60 ∷ (encode_vector encode_byte type.params ++ encode_vector encode_byte type.returns)

unfoldable pub encode_export : ExportEntry → List ℕ
encode_export entry = encode_string entry.name ++ (entry.kind ∷ encode_uint32 entry.index)

unfoldable pub encode_local : ℕ × ValType → List ℕ
encode_local (num, type) = encode_uint32 num ++ encode_byte type

unfoldable pub encode_content : FunctionBody → List ℕ
encode_content body = encode_vector encode_local body.locals ++ body.code

unfoldable pub encode_body : FunctionBody → List ℕ
encode_body body = encode_string (encode_content body)

unfoldable pub encode_section : ℕ → List ℕ → List ℕ
encode_section sec_id payload = sec_id ∷ encode_string payload

abbrev pub magic : List ℕ
magic = 0x00 ∷ 0x61 ∷ 0x73 ∷ 0x6D ∷ []

-- The sections that the parser reads, in the format's order, after any version.
unfoldable pub encode_sections : Module → List ℕ
encode_sections module' =
    encode_section type_section (encode_vector encode_func_type module'.types)
    ++ (encode_section function_section (encode_vector encode_uint32 module'.functions)
        ++ (encode_section export_section (encode_vector encode_export module'.exports)
            ++ encode_section code_section (encode_vector encode_body module'.bodies)))

-- What fits into numbers of 32 bits.
abbrev pub FitsNumber : ℕ → Type 0
FitsNumber v = v < 2 ^ 32

abbrev pub FitsType : FuncType → Type 0
FitsType type = FitsNumber (length type.params) × FitsNumber (length type.returns)

abbrev pub FitsExport : ExportEntry → Type 0
FitsExport entry = FitsNumber (length entry.name) × FitsNumber entry.index

abbrev pub FitsLocal : ℕ × ValType → Type 0
FitsLocal (num, type) = FitsNumber num

abbrev pub FitsBody : FunctionBody → Type 0
FitsBody body =
    FitsNumber (length body.locals)
    × All FitsLocal body.locals
    × FitsNumber (length (encode_content body))

-- A vector of things that fit, in a section that fits.
abbrev pub FitsVector : {A : Type 0} → (A → List ℕ) → (A → Type 0) → List A → Type 0
FitsVector enc Fits xs =
    FitsNumber (length xs) × All Fits xs × FitsNumber (length (encode_vector enc xs))

abbrev pub FitsModule : Module → Type 0
FitsModule module' =
    FitsVector encode_func_type FitsType module'.types
    × FitsVector encode_uint32 FitsNumber module'.functions
    × FitsVector encode_export FitsExport module'.exports
    × FitsVector encode_body FitsBody module'.bodies
