-- ===== src/Wasm/Types.antt =====
-- wasm_types.hpp: modules. A `ValType` is cast from any byte, so it is a number below 256; names and
-- code are lists of bytes.
use odyssey_tasks.Prelude.{ℕ, List, []}

abbrev pub ValType : Type 0
ValType = ℕ

-- The members of `SectionId` that the parser reads.
abbrev pub type_section : ℕ
type_section = 1

abbrev pub function_section : ℕ
function_section = 3

abbrev pub export_section : ℕ
export_section = 7

abbrev pub code_section : ℕ
code_section = 10

pub record FuncType : Type 0 where
  pub params : List ValType
  pub returns : List ValType

pub record ExportEntry : Type 0 where
  pub name : List ℕ
  pub kind : ℕ
  pub index : ℕ

pub record FunctionBody : Type 0 where
  pub locals : List (ℕ × ValType)
  pub code : List ℕ

pub record Module : Type 0 where
  pub types : List FuncType
  pub functions : List ℕ
  pub exports : List ExportEntry
  pub bodies : List FunctionBody
  pub initial_memory_pages : ℕ
  pub max_memory_pages : ℕ

unfoldable pub empty_module : Module
empty_module = record {
  types = [];
  functions = [];
  exports = [];
  bodies = [];
  initial_memory_pages = 1;
  max_memory_pages = 1;
}
