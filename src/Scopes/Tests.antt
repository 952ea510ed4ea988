-- ===== src/Scopes/Tests.antt =====
-- The theorems on variables at a function within a function.
use wrenegade.Base.{ℕ, ◌≡◌, refl, false, some, List, [], ◌∷◌, length, arith}
use wrenegade.Base.Int.{pos}
use wrenegade.Bytecode.Emit.{Compiler, emit_byte}
use wrenegade.Bytecode.Code.{to_byte}
use mathlib.Core.Option
use wrenegade.Scopes.{
  Scopes, same_name, add_local, declared_in, declare_variable, push_scope, discard_loop,
  discard_locals, pop_scope, resolve_local, mark_upvalue, find_captured, add_upvalue, is_boundary,
  captured_outside, find_upvalue,
}
use wrenegade.Scopes.Locals.{
  Block, done, declare, capture, nest, compile_block, pop_scope-compile_block,
}
use wrenegade.Scopes.Upvalues.{follow, FindsUpvalue, find_upvalue-FindsUpvalue}

abbrev no_code : Compiler
no_code = record {
  code = [];
  source_lines = [];
  num_slots = pos 0;
  max_slots = pos 0;
  previous_line = 1;
  has_error = false;
}

abbrev a_name : List ℕ
a_name = 97 ∷ []

abbrev b_name : List ℕ
b_name = 98 ∷ []

-- A function body with the local `a` over the receiver.
abbrev with_a : Scopes
with_a = record {
  locals =
      record { name = a_name; depth = 1; is_upvalue = false }
      ∷ record { name = []; depth = 0; is_upvalue = false }
      ∷ [];
  scope_depth = 1;
  upvalues = [];
  in_class = false;
  output = no_code;
}

abbrev empty_function : Scopes
empty_function = record {
  locals = [];
  scope_depth = 1;
  upvalues = [];
  in_class = false;
  output = no_code;
}

-- `a` is shadowed, captured, and shadowed again in a block within.
abbrev block : Block
block =
    declare a_name (capture 2 (nest (declare a_name (declare b_name done)) (declare b_name done)))

run : Unit {0}
unfolding same_name add_local declared_in declare_variable push_scope discard_loop discard_locals
    pop_scope resolve_local mark_upvalue find_captured add_upvalue is_boundary captured_outside
    find_upvalue compile_block emit_byte to_byte follow Option.map
run = tt

block_output :
    (pop_scope (compile_block (push_scope with_a) block)).output.code ≡ 23 ∷ 23 ∷ 23 ∷ 63 ∷ []
unfolding run
block_output = refl

captured :
    Option.map (λ (i, c, ps). i) (find_upvalue empty_function (empty_function ∷ with_a ∷ []) a_name)
    ≡ some (some 0)
unfolding run
captured = refl

pop_scope-compile_block_example :
    ((pop_scope (compile_block (push_scope with_a) block)).scope_depth ≡ 1)
    × (length (pop_scope (compile_block (push_scope with_a) block)).locals ≡ 2)
    × (resolve_local (pop_scope (compile_block (push_scope with_a) block)).locals a_name
        ≡ resolve_local with_a.locals a_name)
pop_scope-compile_block_example =
    pop_scope-compile_block with_a block a_name (omega arith, (omega arith, tt))

find_upvalue-FindsUpvalue_example :
    FindsUpvalue empty_function
      (empty_function ∷ with_a ∷ [])
      a_name
      (find_upvalue empty_function (empty_function ∷ with_a ∷ []) a_name)
find_upvalue-FindsUpvalue_example =
    find_upvalue-FindsUpvalue empty_function (empty_function ∷ with_a ∷ []) a_name
