-- ===== src/Bytecode/Tests.antt =====
-- The bytecode theorems at small pieces of code.
use wrenegade.Base.{
  ℕ, ◌+◌, ◌-◌, ◌%◌, ◌^◌, ◌≡◌, refl, inl, inr, true, false, some, List, [], ◌∷◌, ◌++◌, length, arith,
  ltb, if◌then◌else◌,
}
use wrenegade.Base.Int.{pos, ◌≤ℤ◌}
use wrenegade.Bytecode.Code.{to_byte, of_byte, load_local, pop, jump, end}
use wrenegade.Bytecode.Operands.{arguments, get_num_arguments}
use wrenegade.Bytecode.Dump.{dump_instruction, dump_code}
use wrenegade.Bytecode.Agreement.{dump_instruction-get_num_arguments}
use wrenegade.Bytecode.Emit.{Compiler, patch_jump, read_short_at}
use wrenegade.Bytecode.Emit.Slots.{
  Emission, op, byte_arg, emit_all, IsValid, emit_all-IsValid, emit_all-high_water,
}
use wrenegade.Bytecode.Emit.Jumps.{read_short_at-patch_jump}
use wrenegade.Bytecode.Loops.{resolve_breaks}
use wrenegade.Bytecode.Loops.Layout.{Instruction, assemble}
use wrenegade.Bytecode.Loops.Breaks.{resolve, resolve_breaks-resolve}

-- LOAD_LOCAL 9, POP, END.
abbrev load_pop : List ℕ
load_pop = 13 ∷ 9 ∷ 23 ∷ 75 ∷ []

abbrev no_upvalues : ℕ → ℕ
no_upvalues k = 0

dump_load_pop : dump_code 9 no_upvalues load_pop 0 ≡ some (0 ∷ 2 ∷ 3 ∷ [])
unfolding dump_code of_byte
dump_load_pop = refl

dump_instruction-get_num_arguments_example :
    (n : ℕ) × (get_num_arguments no_upvalues load_pop 0 ≡ some n)
    × (dump_instruction no_upvalues load_pop 0 ≡ some (1 + n))
unfolding of_byte
dump_instruction-get_num_arguments_example =
    dump_instruction-get_num_arguments no_upvalues load_pop 0 load_local refl (λ e. cc) (λ e. cc)

-- IMPORT_VARIABLE 7, POP, END: the compiler's count steps over the POP and the END.
import_variable_counted : get_num_arguments no_upvalues (74 ∷ 0 ∷ 7 ∷ 23 ∷ 75 ∷ []) 0 ≡ some 4
unfolding get_num_arguments of_byte arguments
import_variable_counted = refl

import_variable_dumped : dump_instruction no_upvalues (74 ∷ 0 ∷ 7 ∷ 23 ∷ 75 ∷ []) 0 ≡ some 3
unfolding dump_instruction of_byte
import_variable_dumped = refl

abbrev empty : Compiler
empty = record {
  code = [];
  source_lines = [];
  num_slots = pos 1;
  max_slots = pos 1;
  previous_line = 1;
  has_error = false;
}

abbrev calls : List Emission
calls = byte_arg load_local 9 ∷ op pop ∷ []

emit_all-IsValid_example : IsValid (emit_all empty calls)
emit_all-IsValid_example =
    emit_all-IsValid empty calls (record { lined = refl; within = omega arith })

emit_all-high_water_example :
    (emit_all empty (byte_arg load_local 9 ∷ [])).num_slots
    ≤ℤ (emit_all empty ((byte_arg load_local 9 ∷ []) ++ (op pop ∷ []))).max_slots
emit_all-high_water_example =
    emit_all-high_water empty (byte_arg load_local 9 ∷ []) (op pop ∷ [])
      (record { lined = refl; within = omega arith })

abbrev placeholder : Compiler
placeholder = record empty { code = to_byte jump ∷ 255 ∷ 255 ∷ 23 ∷ 23 ∷ [] }

read_short_at-patch_jump_example :
    (read_short_at (patch_jump placeholder 1).code 1 ≡ (length placeholder.code - 3) % 2 ^ 16)
    × (length (patch_jump placeholder 1).code ≡ length placeholder.code)
    × ((patch_jump placeholder 1).has_error
        ≡ (if ltb (2 ^ 16) (length placeholder.code - 3) then true else false))
read_short_at-patch_jump_example = read_short_at-patch_jump placeholder 1 (omega arith)

-- LOAD_LOCAL 9, a break, POP.
abbrev body : List Instruction
body =
    record { op = load_local; operands = 9 ∷ [] }
    ∷ record { op = end; operands = 255 ∷ 255 ∷ [] }
    ∷ record { op = pop; operands = [] }
    ∷ []

resolved_body : assemble (resolve body) ≡ 13 ∷ 9 ∷ to_byte jump ∷ 0 ∷ 1 ∷ 23 ∷ []
unfolding resolve to_byte
resolved_body = refl

resolve_breaks-resolve_example :
    resolve_breaks 7 no_upvalues (record empty { code = (23 ∷ []) ++ assemble body }) 1
    ≡ some (record empty { code = (23 ∷ []) ++ assemble (resolve body) })
unfolding arguments
resolve_breaks-resolve_example =
    resolve_breaks-resolve body 7 no_upvalues empty (23 ∷ []) (omega arith) (omega arith) (
      inl (record { not_end = λ e. cc; counted = refl }),
      (
        inr (record { is_end = refl; two = refl }),
        (inl (record { not_end = λ e. cc; counted = refl }), tt),
      ),
    )
