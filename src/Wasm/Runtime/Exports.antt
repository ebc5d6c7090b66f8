-- ===== src/Wasm/Runtime/Exports.antt =====
-- What calling an export comes to.
use mathlib.Core.List.{append_assoc}
use odyssey_tasks.Prelude.{
  ℕ, suc, ◌+◌, ◌-◌, ◌*◌, ◌%◌, ◌^◌, ◌≡◌, refl, ap, ap₂, sym, ◌∙◌, Bool, true, false, ◌&&◌, ◌||◌,
  some, List, [], ◌∷◌, ◌++◌, length, drop, inl, inr, replicate, ltb, ◌==◌, if◌then◌else◌,
  Bool-cases, arith, length-append, take-append,
}
use odyssey_tasks.Wasm.Types.{ExportEntry, Module}
use odyssey_tasks.Wasm.Runtime.{
  ExecutableBuffer, new_buffer, emit_byte, emit_bytes, get_function_pointer, compile_function,
  same_name, find_export, assign_export, compile_exports, new, Native, call_code, invoke,
}

drop-next :
    (front rest : List ℕ) (old : ℕ) → drop (suc (length front)) (front ++ (old ∷ rest)) ≡ rest
drop-next [] rest old = refl
drop-next (x ∷ front) rest old = drop-next front rest old

same_name→≡ : (a b : List ℕ) → same_name a b ≡ true → a ≡ b
unfolding same_name
same_name→≡ [] [] h = refl
same_name→≡ [] (y ∷ b) h = absurd (ground arith)
same_name→≡ (x ∷ a) [] h = absurd (ground arith)
same_name→≡ (x ∷ a) (y ∷ b) h = ground (arith, same_name→≡ a b)

same_name_refl : (a : List ℕ) → same_name a a ≡ true
unfolding same_name
same_name_refl [] = refl
same_name_refl (x ∷ a) = ground (arith, same_name_refl a)

find_export-assign :
    (k j : List ℕ) (buf : ExecutableBuffer) (table : List (List ℕ × ExecutableBuffer))
    → find_export j (assign_export k buf table)
      ≡ (if same_name k j then some buf else find_export j table)
unfolding find_export assign_export
find_export-assign k j buf [] = refl
find_export-assign k j buf ((key, old) ∷ table) = elim (Bool-cases (same_name key k)) [
  | inl same ↦ let e : key ≡ k = same_name→≡ key k same in rw (e, same_name_refl k) (ground arith)
  | inr other ↦ elim (Bool-cases (same_name key j)) [
    | inl found ↦
        let e : key ≡ j = same_name→≡ key j found in
        let apart : same_name k j ≡ false = elim (Bool-cases (same_name k j)) [
          | inl same ↦
              absurd (ground (arith, sym (e ∙ sym (same_name→≡ k j same)), same_name_refl k))
          | inr different ↦ different
        ] in
        rw (other, found, apart) (ground (arith, found))
    | inr missed ↦ rw (other, missed, find_export-assign k j buf table) refl
  ]
]

emit_byte-room :
    (byte : ℕ) (front rest : List ℕ) (old : ℕ)
    → emit_byte byte (record { memory = front ++ (old ∷ rest); offset = length front })
      ≡ record { memory = front ++ (byte ∷ rest); offset = suc (length front) }
unfolding emit_byte
emit_byte-room byte front rest old =
    let room : ltb (length front) (length (front ++ (old ∷ rest))) ≡ true =
      ground (arith, length-append front (old ∷ rest)) in
    rw (room, take-append front (old ∷ rest)) (rw (drop-next front rest old) refl)

buffer_at : List ℕ → ℕ → ExecutableBuffer
buffer_at memory offset = record { memory = memory; offset = offset }

emit_bytes-room :
    (bytes front : List ℕ) (k : ℕ)
    → emit_bytes bytes (buffer_at (front ++ replicate (length bytes + k) 0) (length front))
      ≡ buffer_at (front ++ (bytes ++ replicate k 0)) (length front + length bytes)
unfolding emit_bytes buffer_at
emit_bytes-room [] front k =
    let same_room : 0 + k ≡ k = omega arith in
    let same_offset : length front ≡ length front + 0 = omega arith in
    ap₂ buffer_at (ap (λ (n : ℕ). front ++ replicate n 0) same_room) same_offset
emit_bytes-room (byte ∷ bytes) front k =
    let zeros : List ℕ = replicate (length bytes + k) 0 in
    let count : suc (length bytes) + k ≡ suc (length bytes + k) = omega arith in
    let first : replicate (suc (length bytes) + k) 0 ≡ 0 ∷ zeros =
      ap (λ (n : ℕ). replicate n 0) count in
    let longer : suc (length front) ≡ length (front ++ (byte ∷ [])) =
      omega (arith, length-append front (byte ∷ [])) in
    let total : length (front ++ (byte ∷ [])) + length bytes ≡ length front + suc (length bytes) =
      omega (arith, longer) in
    let next = emit_bytes-room bytes (front ++ (byte ∷ [])) k in
    ap (λ (z : List ℕ). emit_bytes bytes (emit_byte byte (buffer_at (front ++ z) (length front))))
      first
    ∙ ap (emit_bytes bytes) (emit_byte-room byte front zeros 0)
    ∙ ap (emit_bytes bytes) (ap₂ buffer_at (sym (append_assoc front (byte ∷ []) zeros)) longer)
    ∙ next
    ∙ ap₂ buffer_at (append_assoc front (byte ∷ []) (bytes ++ replicate k 0)) total

-- The code of each function: it returns the first argument.
unfoldable pub first_argument : List ℕ → List ℕ
first_argument rest = 0x48 ∷ 0x8B ∷ 0x07 ∷ 0xC3 ∷ rest

compile_function_lem :
    (module' : Module) (func_idx : ℕ)
    → get_function_pointer 0 (compile_function module' func_idx) ≡ first_argument (replicate 4092 0)
unfolding get_function_pointer compile_function new_buffer first_argument emit_bytes buffer_at
compile_function_lem module' func_idx =
    ap ExecutableBuffer.memory (emit_bytes-room (0x48 ∷ 0x8B ∷ 0x07 ∷ 0xC3 ∷ []) [] 4092)

any_index : (module' : Module) (i : ℕ) → compile_function module' i ≡ compile_function module' 0
unfolding compile_function
any_index module' i = refl

-- Whether a function is exported by that name.
unfoldable pub exports_function : List ℕ → List ExportEntry → Bool
exports_function name [] = false
exports_function name (entry ∷ entries) =
    (entry.kind == 0 && same_name entry.name name) || exports_function name entries

find_export-compile :
    (module' : Module) (name : List ℕ) (entries : List ExportEntry)
    (table : List (List ℕ × ExecutableBuffer))
    → find_export name (compile_exports module' entries table) ≡ (
        if exports_function name entries
        then some (compile_function module' 0)
        else find_export name table)
unfolding compile_exports exports_function
find_export-compile module' name [] table = refl
find_export-compile module' name (entry ∷ entries) table =
    let code = compile_function module' entry.index in
    let earlier = find_export-compile module' name entries in
    elim (Bool-cases (entry.kind == 0)) [
      | inl function ↦ ground (
        arith,
        earlier (assign_export entry.name code table),
        find_export-assign entry.name name code table,
        any_index module' entry.index,
        function,
      )
      | inr other ↦ ground (arith, earlier table, other)
    ]

-- Where the processor returns the first argument for the code `mov rax, [rdi]; ret`, calling a name
-- returns the first argument if a function is exported by that name, and -1 otherwise; the bodies of
-- the functions play no part, and the instance stays as it was.
pub invoke-new :
    (execute : Native)
    → ((rest args memory : List ℕ) (arg : ℕ)
        → execute (first_argument rest) (arg ∷ args) memory ≡ (arg, memory))
    → (module' : Module) (name args : List ℕ) (arg : ℕ)
    → invoke execute name (arg ∷ args) (new module')
      ≡ ((if exports_function name module'.exports then arg else 2 ^ 64 - 1), new module')
unfolding invoke call_code new find_export
invoke-new execute returns_first module' name args arg =
    let memory : List ℕ = replicate (module'.initial_memory_pages * 65536 % 2 ^ 32) 0 in
    let found = find_export-compile module' name module'.exports [] in
    elim (Bool-cases (exports_function name module'.exports)) [
      | inl exported ↦
          rw
            (
              found,
              exported,
              compile_function_lem module' 0,
              returns_first (replicate 4092 0) args memory arg,
            )
            refl
      | inr missing ↦ rw (found, missing) refl
    ]
