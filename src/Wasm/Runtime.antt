-- ===== src/Wasm/Runtime.antt =====
-- wasm_jit.cpp and wasm_runtime.cpp: the code buffer, the compiler and the table of exports. What the
-- processor makes of machine code is the parameter `Native`, from the code, the arguments and the
-- linear memory to the result and the memory; mapping memory for code is taken to succeed.
pub mod Exports
use odyssey_tasks.Prelude.{
  ℕ, zero, suc, ◌+◌, ◌-◌, ◌*◌, ◌/◌, ◌%◌, ◌^◌, Bool, true, false, ◌&&◌, Option, none, some, List, [],
  ◌∷◌, ◌++◌, length, take, drop, replicate, ltb, ◌==◌, if◌then◌else◌,
}
use odyssey_tasks.Wasm.Types.{ExportEntry, Module}

-- The capacity is the length of the memory.
pub record ExecutableBuffer : Type 0 where
  pub memory : List ℕ
  pub offset : ℕ

new_buffer : ℕ → ExecutableBuffer
new_buffer capacity = record { memory = replicate capacity 0; offset = 0 }

pub emit_byte : ℕ → ExecutableBuffer → ExecutableBuffer
emit_byte byte buf =
    if ltb buf.offset (length buf.memory)
    then record {
      memory = take buf.offset buf.memory ++ (byte ∷ drop (suc buf.offset) buf.memory);
      offset = suc buf.offset;
    }
    else buf

pub emit_bytes : List ℕ → ExecutableBuffer → ExecutableBuffer
emit_bytes [] buf = buf
emit_bytes (byte ∷ bytes) buf = emit_bytes bytes (emit_byte byte buf)

-- The loop of `Emit32` from `i` on, for `rounds` rounds.
emit32_loop : ℕ → ℕ → ℕ → ExecutableBuffer → ExecutableBuffer
emit32_loop zero i val buf = buf
emit32_loop (suc rounds) i val buf =
    emit32_loop rounds (suc i) val (emit_byte (val / 2 ^ (i * 8) % 256) buf)

pub emit32 : ℕ → ExecutableBuffer → ExecutableBuffer
emit32 val buf = emit32_loop 4 0 val buf

-- The code from an offset on.
get_function_pointer : ℕ → ExecutableBuffer → List ℕ
get_function_pointer offset buf = drop offset buf.memory

-- The body of the function is not looked at.
compile_function : Module → ℕ → ExecutableBuffer
compile_function module' func_idx =
    emit_byte 0xC3 (emit_byte 0x07 (emit_byte 0x8B (emit_byte 0x48 (new_buffer 4096))))

pub record RuntimeInstance : Type 0 where
  pub module' : Module
  pub memory : List ℕ
  pub compiled_exports : List (List ℕ × ExecutableBuffer)

-- `==` of strings.
unfoldable pub same_name : List ℕ → List ℕ → Bool
same_name [] [] = true
same_name [] (b ∷ right) = false
same_name (a ∷ left) [] = false
same_name (a ∷ left) (b ∷ right) = a == b && same_name left right

find_export : List ℕ → List (List ℕ × ExecutableBuffer) → Option ExecutableBuffer
find_export name [] = none
find_export name ((key, buf) ∷ table) =
    if same_name key name then some buf else find_export name table

assign_export :
    List ℕ → ExecutableBuffer → List (List ℕ × ExecutableBuffer) → List (List ℕ × ExecutableBuffer)
assign_export name code_buf [] = (name, code_buf) ∷ []
assign_export name code_buf ((key, buf) ∷ table) =
    if same_name key name
    then (key, code_buf) ∷ table
    else (key, buf) ∷ assign_export name code_buf table

-- The loop of the constructor over the exports, which leaves out those of memories and the like.
compile_exports :
    Module → List ExportEntry → List (List ℕ × ExecutableBuffer) → List (List ℕ × ExecutableBuffer)
compile_exports module' [] table = table
compile_exports module' (entry ∷ entries) table = compile_exports module' entries (
    if entry.kind == 0
    then assign_export entry.name (compile_function module' entry.index) table
    else table)

pub new : Module → RuntimeInstance
new module' = record {
  module' = module';
  memory = replicate (module'.initial_memory_pages * 65536 % 2 ^ 32) 0;
  compiled_exports = compile_exports module' module'.exports [];
}

abbrev pub Native : Type 0
Native = List ℕ → List ℕ → List ℕ → ℕ × List ℕ

-- What `Invoke` does with what it finds. The result is a bit pattern of 64 bits, so `-1` is the
-- greatest.
call_code : Native → List ℕ → RuntimeInstance → Option ExecutableBuffer → ℕ × RuntimeInstance
call_code execute args instance' none = (2 ^ 64 - 1, instance')
call_code execute args instance' (some buf) =
    let (result, memory) = execute (get_function_pointer 0 buf) args instance'.memory in
    (result, record instance' { memory = memory })

pub invoke : Native → List ℕ → List ℕ → RuntimeInstance → ℕ × RuntimeInstance
invoke execute export_name args instance' =
    call_code execute args instance' (find_export export_name instance'.compiled_exports)
