-- ===== src/Bytecode/Emit.antt =====
-- lib/wren/src/vm/wren_compiler.c: the functions that write bytecode (`emitByte` to `emitJump`) and
-- `patchJump`, over the fields of a `Compiler` that they use.
pub mod Slots
pub mod Jumps
use wrenegade.Base.{
  ℕ, suc, ◌+◌, ◌-◌, ◌/◌, ◌%◌, ◌*◌, ◌^◌, bit_and, bit_or, Bool, true, List, [], ◌∷◌, ◌++◌, length,
  get_or, set, ltb, if◌then◌else◌,
}
use wrenegade.Base.Int.{ℤ, ◌+ℤ◌, ltb_ℤ}
use wrenegade.Bytecode.Code.{Code, to_byte, stack_effect}

-- `fn->code`, `fn->debug->sourceLines`, `numSlots`, `fn->maxSlots`, the line of the token that was
-- consumed last, and the parser's `hasError`.
pub record Compiler : Type 0 where
  pub code : List ℕ
  pub source_lines : List ℕ
  pub num_slots : ℤ
  pub max_slots : ℤ
  pub previous_line : ℕ
  pub has_error : Bool

-- `MAX_JUMP`
abbrev pub max_jump : ℕ
max_jump = 2 ^ 16

-- `emitByte`. The index that it returns is `code.count - 1` afterwards.
unfoldable pub emit_byte : Compiler → ℕ → Compiler
emit_byte c byte = record c {
  code = c.code ++ (byte % 2 ^ 8 ∷ []);
  source_lines = c.source_lines ++ (c.previous_line ∷ []);
}

unfoldable pub emit_op : Compiler → Code → Compiler
unfolding emit_byte
emit_op c instruction =
    let written = emit_byte c (to_byte instruction) in
    let slots = c.num_slots +ℤ stack_effect instruction in
    record written {
      num_slots = slots;
      max_slots = if ltb_ℤ c.max_slots slots then slots else c.max_slots;
    }

unfoldable pub emit_short : Compiler → ℕ → Compiler
unfolding emit_byte
emit_short c arg = emit_byte (emit_byte c (bit_and (arg / 2 ^ 8) 0xff)) (bit_and arg 0xff)

unfoldable pub emit_byte_arg : Compiler → Code → ℕ → Compiler
unfolding emit_op emit_byte
emit_byte_arg c instruction arg = emit_byte (emit_op c instruction) arg

unfoldable pub emit_short_arg : Compiler → Code → ℕ → Compiler
unfolding emit_op emit_short
emit_short_arg c instruction arg = emit_short (emit_op c instruction) arg

-- `emitJump`, with the index of the placeholder.
unfoldable pub emit_jump : Compiler → Code → Compiler × ℕ
unfolding emit_op emit_byte
emit_jump c instruction =
    let written = emit_byte (emit_byte (emit_op c instruction) 0xff) 0xff in
    (written, length written.code - 1 - 1)

-- `patchJump`. The placeholder is in the code, so `code.count - offset - 2` is not negative.
unfoldable pub patch_jump : Compiler → ℕ → Compiler
patch_jump c offset =
    let jump = length c.code - offset - 2 in
    record c {
      code = set (set c.code offset (bit_and (jump / 2 ^ 8) 0xff)) (offset + 1) (bit_and jump 0xff);
      has_error = if ltb max_jump jump then true else c.has_error;
    }

-- `READ_SHORT()` of the interpreter, at an index into the code.
unfoldable pub read_short_at : List ℕ → ℕ → ℕ
read_short_at code i = bit_or (get_or code i 0 * 2 ^ 8) (get_or code (i + 1) 0)
