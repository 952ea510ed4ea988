-- ===== src/Bytecode/Loops.antt =====
-- lib/wren/src/vm/wren_compiler.c: `startLoop`, `testExitLoop` and `endLoop`, which turns the
-- placeholders of `break` into jumps. `upvalues k` is the count of the closure in constant `k`.
pub mod Layout
pub mod Breaks
use wrenegade.Base.{
  ℕ, zero, suc, ◌+◌, ◌-◌, Bool, true, false, Option, none, some, List, length, get_or, set, ltb,
  ◌==◌,
}
use wrenegade.Bytecode.Code.{to_byte, end, jump, jump_if, loop}
use wrenegade.Bytecode.Operands.{get_num_arguments}
use wrenegade.Bytecode.Emit.{Compiler, emit_short_arg, emit_jump, patch_jump}

-- The indices that a `Loop` keeps. `start` is the index before the first instruction of the loop,
-- so it is kept one higher here and cannot be negative: `start_after` is `start + 1`.
pub record Loop : Type 0 where
  pub start_after : ℕ
  pub exit_jump : ℕ
  pub body : ℕ

-- `startLoop`, and `testExitLoop` with the start of the body that `loopBody` notes.
unfoldable pub start_loop : Compiler → ℕ
start_loop c = length c.code

unfoldable pub test_exit_loop : Compiler → ℕ → Compiler × Loop
unfolding emit_jump
test_exit_loop c start_after =
    let (c', exit_jump) = emit_jump c jump_if in
    (c', record { start_after = start_after; exit_jump = exit_jump; body = length c'.code })

-- One `break` placeholder becomes a jump to the end of the code.
unfoldable pub resolve_break : Compiler → ℕ → Compiler
unfolding patch_jump
resolve_break c i = patch_jump (record c { code = set c.code i (to_byte jump) }) (i + 1)

-- The `while (i < code.count)` of `endLoop`. `none`: a byte that is no instruction was met, or the
-- fuel ran out.
unfoldable pub resolve_breaks : ℕ → (ℕ → ℕ) → Compiler → ℕ → Option Compiler
unfolding resolve_break
resolve_breaks zero upvalues c i = none
resolve_breaks (suc fuel) upvalues c i = elim (ltb i (length c.code)) [
  | false ↦ some c
  | true ↦ elim (get_or c.code i 0 == to_byte end) [
    | true ↦ resolve_breaks fuel upvalues (resolve_break c i) (i + 3)
    | false ↦ elim (get_num_arguments upvalues c.code i) [
      | none ↦ none
      | some n ↦ resolve_breaks fuel upvalues c (i + (1 + n))
    ]
  ]
]

-- `endLoop`. Each round of the scan steps on, so one round for each byte of the code is enough.
unfoldable pub end_loop : (ℕ → ℕ) → Compiler → Loop → Option Compiler
unfolding resolve_breaks
end_loop upvalues c l =
    let loop_offset = length c.code + 1 - l.start_after + 2 in
    let looped = patch_jump (emit_short_arg c loop loop_offset) l.exit_jump in
    resolve_breaks (length looped.code + 1) upvalues looped l.body
