-- ===== src/Interpreter/Step.antt =====
-- The switch of `runInterpreter` (lib/wren/src/vm/wren_vm.c).
use wrenegade.Base.{Option, some, get_elem?}
use mathlib.Core.Option
use wrenegade.Bytecode.Code.{of_byte}
use wrenegade.Bytecode.Code.{
  Code, constant, null, false, true, load_local_0, load_local_1, load_local_2, load_local_3,
  load_local_4, load_local_5, load_local_6, load_local_7, load_local_8, load_local, store_local,
  load_upvalue, store_upvalue, load_module_var, store_module_var, load_field_this, store_field_this,
  load_field, store_field, pop, call_0, call_1, call_2, call_3, call_4, call_5, call_6, call_7,
  call_8, call_9, call_10, call_11, call_12, call_13, call_14, call_15, call_16, super_0, super_1,
  super_2, super_3, super_4, super_5, super_6, super_7, super_8, super_9, super_10, super_11,
  super_12, super_13, super_14, super_15, super_16, jump, loop, jump_if, and, or, close_upvalue,
  return, closure, construct, foreign_construct, class, foreign_class, method_instance,
  method_static, end_module, import_module, import_variable, end,
}
use wrenegade.Interpreter.{
  null_value, false_value, true_value, CallFrame, Running, byte_at, short_at, skip, push, drop_top,
  peek, push_elem, load_slot, store_slot, push_upvalue, write_upvalue, store_module_variable,
  push_field, write_field, jump_if_falsy, and_falsy, or_truthy, loop_back, close_top, make_closure,
}

-- An instruction went through, or it is one of those that are left to other parts.
pub data Outcome : Type 0 where
  went : Running → Outcome
  left : Code → Running → Outcome

abbrev pub went_on : Option Running → Option Outcome
went_on r = Option.map went r

-- The switch, behind the instruction.
unfoldable pub execute : CallFrame → Code → Running → Option Outcome
execute f load_local_0 r = went_on (load_slot f 0 r)
execute f load_local_1 r = went_on (load_slot f 1 r)
execute f load_local_2 r = went_on (load_slot f 2 r)
execute f load_local_3 r = went_on (load_slot f 3 r)
execute f load_local_4 r = went_on (load_slot f 4 r)
execute f load_local_5 r = went_on (load_slot f 5 r)
execute f load_local_6 r = went_on (load_slot f 6 r)
execute f load_local_7 r = went_on (load_slot f 7 r)
execute f load_local_8 r = went_on (load_slot f 8 r)
execute f load_local r = went_on (load_slot f (byte_at f r) (skip 1 r))
execute f load_field_this r = went_on (
    Option.bind (get_elem? r.vars.stack f.stack_start)
      λ receiver. push_field receiver (byte_at f r) (skip 1 r))
execute f pop r = went_on (Option.map (λ v. drop_top r) (peek r))
execute f null r = some (went (push null_value r))
execute f false r = some (went (push false_value r))
execute f true r = some (went (push true_value r))
execute f store_local r = went_on (store_slot f (byte_at f r) (skip 1 r))
execute f constant r = went_on (push_elem f.constants (short_at f r) (skip 2 r))
execute f load_upvalue r = went_on (push_upvalue f (byte_at f r) (skip 1 r))
execute f store_upvalue r = went_on (write_upvalue f (byte_at f r) (skip 1 r))
execute f load_module_var r = went_on (push_elem r.module_variables (short_at f r) (skip 2 r))
execute f store_module_var r = went_on (store_module_variable (short_at f r) (skip 2 r))
execute f store_field_this r = went_on (
    Option.bind (get_elem? r.vars.stack f.stack_start)
      λ receiver. write_field receiver (byte_at f r) (skip 1 r))
execute f load_field r =
    went_on
      (Option.bind (peek r) λ receiver. push_field receiver (byte_at f r) (skip 1 (drop_top r)))
execute f store_field r =
    went_on
      (Option.bind (peek r) λ receiver. write_field receiver (byte_at f r) (skip 1 (drop_top r)))
execute f jump r = some (went (skip (short_at f r) (skip 2 r)))
execute f loop r = went_on (loop_back (short_at f r) (skip 2 r))
execute f jump_if r = went_on (jump_if_falsy (short_at f r) (skip 2 r))
execute f and r = went_on (and_falsy (short_at f r) (skip 2 r))
execute f or r = went_on (or_truthy (short_at f r) (skip 2 r))
execute f close_upvalue r = went_on (close_top r)
execute f closure r = went_on (
    Option.bind (get_elem? f.constants (short_at f r))
      λ function. make_closure f function (skip 2 r))
execute f end_module r =
    some (went (push null_value (record r { last_module = some f.own_module })))
execute f call_0 r = some (left call_0 r)
execute f call_1 r = some (left call_1 r)
execute f call_2 r = some (left call_2 r)
execute f call_3 r = some (left call_3 r)
execute f call_4 r = some (left call_4 r)
execute f call_5 r = some (left call_5 r)
execute f call_6 r = some (left call_6 r)
execute f call_7 r = some (left call_7 r)
execute f call_8 r = some (left call_8 r)
execute f call_9 r = some (left call_9 r)
execute f call_10 r = some (left call_10 r)
execute f call_11 r = some (left call_11 r)
execute f call_12 r = some (left call_12 r)
execute f call_13 r = some (left call_13 r)
execute f call_14 r = some (left call_14 r)
execute f call_15 r = some (left call_15 r)
execute f call_16 r = some (left call_16 r)
execute f super_0 r = some (left super_0 r)
execute f super_1 r = some (left super_1 r)
execute f super_2 r = some (left super_2 r)
execute f super_3 r = some (left super_3 r)
execute f super_4 r = some (left super_4 r)
execute f super_5 r = some (left super_5 r)
execute f super_6 r = some (left super_6 r)
execute f super_7 r = some (left super_7 r)
execute f super_8 r = some (left super_8 r)
execute f super_9 r = some (left super_9 r)
execute f super_10 r = some (left super_10 r)
execute f super_11 r = some (left super_11 r)
execute f super_12 r = some (left super_12 r)
execute f super_13 r = some (left super_13 r)
execute f super_14 r = some (left super_14 r)
execute f super_15 r = some (left super_15 r)
execute f super_16 r = some (left super_16 r)
execute f return r = some (left return r)
execute f construct r = some (left construct r)
execute f foreign_construct r = some (left foreign_construct r)
execute f class r = some (left class r)
execute f foreign_class r = some (left foreign_class r)
execute f method_instance r = some (left method_instance r)
execute f method_static r = some (left method_static r)
execute f import_module r = some (left import_module r)
execute f import_variable r = some (left import_variable r)
execute f end r = some (left end r)

-- A round of the loop; none is no instruction, or an access out of range.
unfoldable pub dispatch : CallFrame → Running → Option Outcome
dispatch f r =
    Option.bind (get_elem? f.code r.ip)
      λ b. Option.bind (of_byte b) λ instruction. execute f instruction (skip 1 r)
