-- ===== src/Interpreter/Tests.antt =====
-- A short function, and its steps.
use wrenegade.Base.{Bool, ℕ, ◌≡◌, refl, arith, none, some, List, [], ◌∷◌}
use mathlib.Core.Option
use wrenegade.Base.Int.{pos}
use wrenegade.Closures.{open_at, open_slot, walk, capture_upvalue}
use wrenegade.Bytecode.Code.{to_byte, of_byte, load_local_0, constant, and}
use wrenegade.Bytecode.Emit.{Compiler, read_short_at}
use wrenegade.Bytecode.Emit.Slots.{Emission, op, short_arg}
use wrenegade.Interpreter.{
  Value, null_value, false_value, number, function, closure_object, CallFrame, Running, and_falsy,
  capture_all, make_closure,
}
use wrenegade.Interpreter.Step.{went, execute, dispatch}
use wrenegade.Interpreter.Effects.{Turns}
use wrenegade.Interpreter.Runs.{Follows, dispatch-Follows, Runs}

-- `LOAD_LOCAL_0`, `CONSTANT` 1, `AND` 2, `POP`, `CLOSURE` 0 over the local 1, in a frame from slot 1 on.
abbrev frame : CallFrame
frame = record {
  code = 4 ∷ 0 ∷ 0 ∷ 1 ∷ 61 ∷ 0 ∷ 2 ∷ 23 ∷ 65 ∷ 0 ∷ 0 ∷ 1 ∷ 1 ∷ 75 ∷ [];
  constants = function 9 1 ∷ number 5 ∷ [];
  own_module = 0;
  stack_start = 1;
  captured = [];
}

abbrev at : ℕ → List Value → Running
at ip stack = record {
  ip = ip;
  vars = record { stack = stack; upvalues = []; open_upvalues = [] };
  module_variables = [];
  instances = [];
  closures = [];
  last_module = none;
}

run : Unit {0}
unfolding dispatch execute of_byte to_byte and_falsy capture_all make_closure read_short_at
    capture_upvalue walk open_slot Option.bind
run = tt

loads_constant :
    dispatch frame (at 1 (null_value ∷ [])) ≡ some (went (at 4 (null_value ∷ number 5 ∷ [])))
unfolding run
loads_constant = refl

short_circuit :
    dispatch frame (at 4 (null_value ∷ false_value ∷ []))
    ≡ some (went (at 9 (null_value ∷ false_value ∷ [])))
unfolding run
short_circuit = refl

goes_on : dispatch frame (at 4 (null_value ∷ number 1 ∷ [])) ≡ some (went (at 7 (null_value ∷ [])))
unfolding run
goes_on = refl

makes_closure :
    dispatch frame (at 8 (null_value ∷ number 7 ∷ number 6 ∷ []))
    ≡ some (
        went (record {
          ip = 13;
          vars = record {
            stack = null_value ∷ number 7 ∷ number 6 ∷ closure_object 0 ∷ [];
            upvalues = open_at 2 ∷ [];
            open_upvalues = 0 ∷ [];
          };
          module_variables = [];
          instances = [];
          closures = (0 ∷ []) ∷ [];
          last_module = none;
        }))
unfolding run
makes_closure = refl

dispatch-Follows_example :
    (q : Running) × (dispatch frame (at 4 (null_value ∷ false_value ∷ [])) ≡ some (went q))
    × Turns frame and
        (at 5 (null_value ∷ false_value ∷ []))
        q
        (Follows frame and (at 4 (null_value ∷ false_value ∷ [])) q)
unfolding to_byte
dispatch-Follows_example =
    dispatch-Follows frame and (at 4 (null_value ∷ false_value ∷ [])) refl (omega arith)

abbrev compiler : Compiler
compiler = record {
  code = [];
  source_lines = [];
  num_slots = pos 1;
  max_slots = pos 1;
  previous_line = 1;
  has_error = Bool.false;
}

-- The emissions of the first two instructions, and of the third.
abbrev begun : List Emission
begun = op load_local_0 ∷ short_arg constant 1 ∷ []
