-- ===== src/Fibers/Interpreter.antt =====
-- What the interpreter (wren_vm.c) does with the fibers for one primitive, call or return.
use wrenegade.Base.{ℕ, Option, some, true, false}
use mathlib.Core.Option
use wrenegade.Fibers.{
  Passed, null, given, error_message, Machine, run_fiber, try_fiber, yield_fiber, abort_fiber,
  suspend_fiber, transfer_error, Outcome, running, after_primitive, call_function, create_fiber,
  return_from,
}

pub data Operation : Type 0 where
  call : ℕ → Option Passed → Operation
  try_call : ℕ → Operation
  yield : Option Passed → Operation
  abort : Passed → Operation
  suspend : Operation
  create : ℕ → ℕ → Operation
  call_block : ℕ → Operation
  return_value : Passed → Operation

-- `fiber_abort` gives true for null, so that the fiber goes on.
unfoldable pub perform_abort : Passed → Machine → ℕ → Option Outcome
perform_abort null m current = some (running (abort_fiber m current null))
perform_abort (given x) m current = after_primitive current (abort_fiber m current (given x))
perform_abort (error_message e) m current =
    after_primitive current (abort_fiber m current (error_message e))

unfoldable pub perform : Operation → Machine → ℕ → Option Outcome
perform (call target value) m current =
    Option.bind (run_fiber m current target value true) (after_primitive current)
perform (try_call target) m current =
    Option.bind (try_fiber m current target) (after_primitive current)
perform (yield value) m current =
    Option.bind (yield_fiber m current value) (after_primitive current)
perform (abort value) m current = perform_abort value m current
perform suspend m current = after_primitive current (suspend_fiber m)
perform (create closure arity) m current = create_fiber m current closure arity
perform (call_block start) m current = some (running (call_function m current start))
perform (return_value result) m current = return_from m current result

-- The transfers, which leave the callers as they are.
unfoldable pub perform_transfer : ℕ → Option Passed → Machine → ℕ → Option Outcome
perform_transfer target value m current =
    Option.bind (run_fiber m current target value false) (after_primitive current)

unfoldable pub perform_transfer_error : ℕ → Passed → Machine → ℕ → Option Outcome
perform_transfer_error target error m current =
    Option.bind (transfer_error m current target error) (after_primitive current)
