-- ===== src/Bytecode/Operands.antt =====
-- lib/wren/src/vm/wren_compiler.c: `getNumArguments`, by which the compiler and
-- `wrenBindMethodCode` step over the instructions of a function.
use wrenegade.Base.{ℕ, ◌+◌, ◌*◌, ◌^◌, bit_or, Option, none, some, List, get_or, drop}
use wrenegade.Bytecode.Code.{of_byte}
use wrenegade.Bytecode.Code.{
  Code, constant, null, false, true, load_local_0, load_local_1, load_local_2, load_local_3,
  load_local_4, load_local_5, load_local_6, load_local_7, load_local_8, load_local, store_local,
  load_upvalue, store_upvalue, load_module_var, store_module_var, load_field_this, store_field_this,
  load_field, store_field, pop, call_0, call_1, call_2, call_3, call_4, call_5, call_6, call_7,
  call_8, call_9, call_10, call_11, call_12, call_13, call_14, call_15, call_16, super_0, super_1,
  super_2, super_3, super_4, super_5, super_6, super_7, super_8, super_9, super_10, super_11,
  super_12, super_13, super_14, super_15, super_16, jump, loop, jump_if, and, or, close_upvalue,
  return, closure, construct, foreign_construct, class, foreign_class, method_instance,
  method_static, end_module, import_module, import_variable, end,
}

-- The `switch` on the instruction. `bytes` are those that follow it, and `upvalues k` is
-- `AS_FN(constants[k])->numUpvalues`; the two bytes of a closure's constant are taken to be there.
unfoldable pub arguments : (ℕ → ℕ) → Code → List ℕ → ℕ
arguments upvalues constant bytes = 2
arguments upvalues null bytes = 0
arguments upvalues false bytes = 0
arguments upvalues true bytes = 0
arguments upvalues load_local_0 bytes = 0
arguments upvalues load_local_1 bytes = 0
arguments upvalues load_local_2 bytes = 0
arguments upvalues load_local_3 bytes = 0
arguments upvalues load_local_4 bytes = 0
arguments upvalues load_local_5 bytes = 0
arguments upvalues load_local_6 bytes = 0
arguments upvalues load_local_7 bytes = 0
arguments upvalues load_local_8 bytes = 0
arguments upvalues load_local bytes = 1
arguments upvalues store_local bytes = 1
arguments upvalues load_upvalue bytes = 1
arguments upvalues store_upvalue bytes = 1
arguments upvalues load_module_var bytes = 2
arguments upvalues store_module_var bytes = 2
arguments upvalues load_field_this bytes = 1
arguments upvalues store_field_this bytes = 1
arguments upvalues load_field bytes = 1
arguments upvalues store_field bytes = 1
arguments upvalues pop bytes = 0
arguments upvalues call_0 bytes = 2
arguments upvalues call_1 bytes = 2
arguments upvalues call_2 bytes = 2
arguments upvalues call_3 bytes = 2
arguments upvalues call_4 bytes = 2
arguments upvalues call_5 bytes = 2
arguments upvalues call_6 bytes = 2
arguments upvalues call_7 bytes = 2
arguments upvalues call_8 bytes = 2
arguments upvalues call_9 bytes = 2
arguments upvalues call_10 bytes = 2
arguments upvalues call_11 bytes = 2
arguments upvalues call_12 bytes = 2
arguments upvalues call_13 bytes = 2
arguments upvalues call_14 bytes = 2
arguments upvalues call_15 bytes = 2
arguments upvalues call_16 bytes = 2
arguments upvalues super_0 bytes = 4
arguments upvalues super_1 bytes = 4
arguments upvalues super_2 bytes = 4
arguments upvalues super_3 bytes = 4
arguments upvalues super_4 bytes = 4
arguments upvalues super_5 bytes = 4
arguments upvalues super_6 bytes = 4
arguments upvalues super_7 bytes = 4
arguments upvalues super_8 bytes = 4
arguments upvalues super_9 bytes = 4
arguments upvalues super_10 bytes = 4
arguments upvalues super_11 bytes = 4
arguments upvalues super_12 bytes = 4
arguments upvalues super_13 bytes = 4
arguments upvalues super_14 bytes = 4
arguments upvalues super_15 bytes = 4
arguments upvalues super_16 bytes = 4
arguments upvalues jump bytes = 2
arguments upvalues loop bytes = 2
arguments upvalues jump_if bytes = 2
arguments upvalues and bytes = 2
arguments upvalues or bytes = 2
arguments upvalues close_upvalue bytes = 0
arguments upvalues return bytes = 0
arguments upvalues construct bytes = 0
arguments upvalues foreign_construct bytes = 0
arguments upvalues class bytes = 1
arguments upvalues foreign_class bytes = 0
arguments upvalues method_instance bytes = 2
arguments upvalues method_static bytes = 2
arguments upvalues end_module bytes = 0
arguments upvalues import_module bytes = 2
arguments upvalues import_variable bytes = 4
arguments upvalues end bytes = 0
arguments upvalues closure bytes =
    2 + upvalues (bit_or (get_or bytes 0 0 * 2 ^ 8) (get_or bytes 1 0)) * 2

-- `getNumArguments`. `none` is the `UNREACHABLE()` for a byte that is no instruction.
unfoldable pub get_num_arguments : (ℕ → ℕ) → List ℕ → ℕ → Option ℕ
get_num_arguments upvalues bytecode ip = elim (of_byte (get_or bytecode ip 0)) [
  | some c ↦ some (arguments upvalues c (drop (ip + 1) bytecode))
  | none ↦ none
]
