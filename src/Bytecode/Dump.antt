-- ===== src/Bytecode/Dump.antt =====
-- lib/wren/src/vm/wren_debug.c: how far `dumpInstruction` and `wrenDumpCode` read. What they print
-- is left out.
use wrenegade.Base.{
  ℕ, zero, suc, ◌+◌, ◌-◌, ◌*◌, ◌^◌, bit_or, Option, none, some, List, [], ◌∷◌, get_or,
}
use mathlib.Core.Option
use wrenegade.Bytecode.Code.{of_byte}
use wrenegade.Bytecode.Code.{
  Code, constant, null, false, true, load_local_0, load_local_1, load_local_2, load_local_3,
  load_local_4, load_local_5, load_local_6, load_local_7, load_local_8, load_local, store_local,
  load_upvalue, store_upvalue, load_module_var, store_module_var, load_field_this, store_field_this,
  load_field, store_field, pop, call_0, call_1, call_2, call_3, call_4, call_5, call_6, call_7,
  call_8, call_9, call_10, call_11, call_12, call_13, call_14, call_15, call_16, super_0, super_1,
  super_2, super_3, super_4, super_5, super_6, super_7, super_8, super_9, super_10, super_11,
  super_12, super_13, super_14, super_15, super_16, jump, loop, jump_if, and, or, close_upvalue,
  return, closure, construct, foreign_construct, class, foreign_class, method_instance,
  method_static, end_module, import_module, import_variable, end,
}

-- `READ_BYTE()` and `READ_SHORT()`, as what they do to `i`.
abbrev pub read_byte : ℕ → ℕ
read_byte i = i + 1

abbrev pub read_short : ℕ → ℕ
read_short i = i + 2

-- The loop over the upvalues of a closure, two bytes to each.
unfoldable pub read_pairs : ℕ → ℕ → ℕ
read_pairs zero i = i
read_pairs (suc n) i = read_pairs n (read_byte (read_byte i))

-- The `switch`: from `i`, behind the instruction's own byte, to where its operands end.
unfoldable pub dump_operands : (ℕ → ℕ) → Code → List ℕ → ℕ → ℕ
unfolding read_pairs
dump_operands upvalues constant bytecode i = read_short i
dump_operands upvalues null bytecode i = i
dump_operands upvalues false bytecode i = i
dump_operands upvalues true bytecode i = i
dump_operands upvalues load_local_0 bytecode i = i
dump_operands upvalues load_local_1 bytecode i = i
dump_operands upvalues load_local_2 bytecode i = i
dump_operands upvalues load_local_3 bytecode i = i
dump_operands upvalues load_local_4 bytecode i = i
dump_operands upvalues load_local_5 bytecode i = i
dump_operands upvalues load_local_6 bytecode i = i
dump_operands upvalues load_local_7 bytecode i = i
dump_operands upvalues load_local_8 bytecode i = i
dump_operands upvalues load_local bytecode i = read_byte i
dump_operands upvalues store_local bytecode i = read_byte i
dump_operands upvalues load_upvalue bytecode i = read_byte i
dump_operands upvalues store_upvalue bytecode i = read_byte i
dump_operands upvalues load_module_var bytecode i = read_short i
dump_operands upvalues store_module_var bytecode i = read_short i
dump_operands upvalues load_field_this bytecode i = read_byte i
dump_operands upvalues store_field_this bytecode i = read_byte i
dump_operands upvalues load_field bytecode i = read_byte i
dump_operands upvalues store_field bytecode i = read_byte i
dump_operands upvalues pop bytecode i = i
dump_operands upvalues call_0 bytecode i = read_short i
dump_operands upvalues call_1 bytecode i = read_short i
dump_operands upvalues call_2 bytecode i = read_short i
dump_operands upvalues call_3 bytecode i = read_short i
dump_operands upvalues call_4 bytecode i = read_short i
dump_operands upvalues call_5 bytecode i = read_short i
dump_operands upvalues call_6 bytecode i = read_short i
dump_operands upvalues call_7 bytecode i = read_short i
dump_operands upvalues call_8 bytecode i = read_short i
dump_operands upvalues call_9 bytecode i = read_short i
dump_operands upvalues call_10 bytecode i = read_short i
dump_operands upvalues call_11 bytecode i = read_short i
dump_operands upvalues call_12 bytecode i = read_short i
dump_operands upvalues call_13 bytecode i = read_short i
dump_operands upvalues call_14 bytecode i = read_short i
dump_operands upvalues call_15 bytecode i = read_short i
dump_operands upvalues call_16 bytecode i = read_short i
dump_operands upvalues super_0 bytecode i = read_short (read_short i)
dump_operands upvalues super_1 bytecode i = read_short (read_short i)
dump_operands upvalues super_2 bytecode i = read_short (read_short i)
dump_operands upvalues super_3 bytecode i = read_short (read_short i)
dump_operands upvalues super_4 bytecode i = read_short (read_short i)
dump_operands upvalues super_5 bytecode i = read_short (read_short i)
dump_operands upvalues super_6 bytecode i = read_short (read_short i)
dump_operands upvalues super_7 bytecode i = read_short (read_short i)
dump_operands upvalues super_8 bytecode i = read_short (read_short i)
dump_operands upvalues super_9 bytecode i = read_short (read_short i)
dump_operands upvalues super_10 bytecode i = read_short (read_short i)
dump_operands upvalues super_11 bytecode i = read_short (read_short i)
dump_operands upvalues super_12 bytecode i = read_short (read_short i)
dump_operands upvalues super_13 bytecode i = read_short (read_short i)
dump_operands upvalues super_14 bytecode i = read_short (read_short i)
dump_operands upvalues super_15 bytecode i = read_short (read_short i)
dump_operands upvalues super_16 bytecode i = read_short (read_short i)
dump_operands upvalues jump bytecode i = read_short i
dump_operands upvalues loop bytecode i = read_short i
dump_operands upvalues jump_if bytecode i = read_short i
dump_operands upvalues and bytecode i = read_short i
dump_operands upvalues or bytecode i = read_short i
dump_operands upvalues close_upvalue bytecode i = i
dump_operands upvalues return bytecode i = i
dump_operands upvalues construct bytecode i = i
dump_operands upvalues foreign_construct bytecode i = i
dump_operands upvalues class bytecode i = read_byte i
dump_operands upvalues foreign_class bytecode i = i
dump_operands upvalues method_instance bytecode i = read_short i
dump_operands upvalues method_static bytecode i = read_short i
dump_operands upvalues end_module bytecode i = i
dump_operands upvalues import_module bytecode i = read_short i
dump_operands upvalues import_variable bytecode i = read_short i
dump_operands upvalues end bytecode i = i
dump_operands upvalues closure bytecode i =
    let constant = bit_or (get_or bytecode i 0 * 2 ^ 8) (get_or bytecode (i + 1) 0) in
    read_pairs (upvalues constant) (read_short i)

-- The end of `dumpInstruction`: the bytes that the instruction takes. `none` is the -1 of an END.
unfoldable pub dump_length : (ℕ → ℕ) → Code → List ℕ → ℕ → Option ℕ
unfolding dump_operands
dump_length upvalues end bytecode start = none
dump_length upvalues code bytecode start =
    some (dump_operands upvalues code bytecode (start + 1) - start)

-- `dumpInstruction`. A byte that is no instruction is printed as such and takes one byte.
unfoldable pub dump_instruction : (ℕ → ℕ) → List ℕ → ℕ → Option ℕ
unfolding dump_length
dump_instruction upvalues bytecode start = elim (of_byte (get_or bytecode start 0)) [
  | some code ↦ dump_length upvalues code bytecode start
  | none ↦ some 1
]

-- `wrenDumpCode`: the offsets of the instructions that are printed, up to the END. `none`: the fuel
-- ran out, which the source does not have.
unfoldable pub dump_code : ℕ → (ℕ → ℕ) → List ℕ → ℕ → Option (List ℕ)
unfolding dump_instruction
dump_code zero upvalues bytecode i = none
dump_code (suc fuel) upvalues bytecode i = elim (dump_instruction upvalues bytecode i) [
  | none ↦ some (i ∷ [])
  | some offset ↦
      Option.map (λ offsets. i ∷ offsets) (dump_code fuel upvalues bytecode (i + offset))
]
