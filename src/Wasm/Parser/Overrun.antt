-- ===== src/Wasm/Parser/Overrun.antt =====
-- Sections that promise more than they hold: the section's own length is checked, the counts in it
-- are not.
use odyssey_tasks.Prelude.{
  ℕ, zero, suc, ◌<◌, ◌≡◌, refl, false, List, [], ◌∷◌, ◌++◌, length, arith, ltb, take-append,
}
use odyssey_tasks.Wasm.Types.{type_section, Module, empty_module}
use odyssey_tasks.Prelude.Outcome.{fault}
use odyssey_tasks.Wasm.Parser.{
  read_byte, times, read_counted, read_func_type, read_types, read_section, parse_sections,
  has_magic, parse,
}
use odyssey_tasks.Wasm.Parser.Varint.{encode_uint32, read_var_uint32-encode}
use odyssey_tasks.Wasm.Parser.Wire.{encode_section, magic, FitsNumber}
use odyssey_tasks.Wasm.Parser.Readers.{measured}

times-overrun :
    (count : ℕ) (stream : List ℕ) → length stream < count → times count read_byte stream ≡ fault
unfolding times read_byte
times-overrun zero stream short = absurd (omega arith)
times-overrun (suc count) [] short = refl
times-overrun (suc count) (byte ∷ stream) short = rw (times-overrun count stream (omega arith)) refl

-- The payload of a section of `count` types of which the first has `params` parameters.
unfoldable pub type_payload : ℕ → ℕ → List ℕ → List ℕ
type_payload count params bytes = encode_uint32 count ++ (0x60 ∷ (encode_uint32 params ++ bytes))

read_section-overrun :
    (count params : ℕ) (bytes : List ℕ) (module' : Module)
    → FitsNumber (suc count)
    → FitsNumber params
    → length bytes < params
    → read_section type_section (type_payload (suc count) params bytes) module' ≡ fault
unfolding read_section read_types read_func_type read_counted type_payload
read_section-overrun count params bytes module' fits_count fits_params short =
    rw
      (
        read_var_uint32-encode (suc count) (0x60 ∷ (encode_uint32 params ++ bytes)) fits_count,
        read_var_uint32-encode params bytes fits_params,
        times-overrun params bytes short,
      )
      refl

-- A well-measured TYPE section whose first type promises more parameters than the section has
-- bytes left makes the parser index beyond the end, whatever the version and the rest are, where
-- the numbers fit into 32 bits.
pub parse-overrun :
    (v₀ v₁ v₂ v₃ count params : ℕ) (bytes rest : List ℕ)
    → FitsNumber (suc count)
    → FitsNumber params
    → FitsNumber (length (type_payload (suc count) params bytes))
    → length bytes < params
    → parse (
        magic
        ++ (v₀
            ∷ v₁
            ∷ v₂
            ∷ v₃
            ∷ (encode_section type_section (type_payload (suc count) params bytes) ++ rest)))
      ≡ fault
unfolding parse has_magic parse_sections encode_section
parse-overrun v₀ v₁ v₂ v₃ count params bytes rest fits_count fits_params fits short =
    let payload = type_payload (suc count) params bytes in
    let (len, room) = measured payload rest fits in
    let long : ltb
          (length (magic ++ (v₀ ∷ v₁ ∷ v₂ ∷ v₃ ∷ (encode_section type_section payload ++ rest)))) 8
        ≡ false =
      ground arith in
    rw
      (
        long,
        len,
        room,
        take-append payload rest,
        read_section-overrun count params bytes empty_module fits_count fits_params short,
      )
      refl
