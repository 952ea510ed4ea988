-- ===== src/Fibers/Tests.antt =====
-- A root fiber that calls and tries two others.
use wrenegade.Base.{
  ℕ, ◌≡◌, refl, inl, inr, arith, false, Option, none, some, List, [], ◌∷◌, get_elem?,
}
use mathlib.Core.Option
use wrenegade.Fibers.{
  fiber_root, Passed, null, given, error_message, already_called, finished_fiber, Fiber, Machine,
  receive, enter, run_fiber, try_fiber, yield_fiber, abort_fiber, unwind, runtime_error, Outcome,
  running, succeeded, failed, raised, load_fiber, after_primitive, new_fiber, create_fiber,
  return_frame, return_from,
}
use wrenegade.Fibers.Chain.{IsRunning}
use wrenegade.Fibers.Errors.{catcher, Unwound, runtime_error-Unwound}
use wrenegade.Fibers.Handling.{GoesOn}
use wrenegade.Fibers.Interpreter.{
  Operation, call, try_call, yield, abort, return_value, perform_abort, perform, perform_transfer,
}
use wrenegade.Fibers.Runs.{HasTarget, ends, continues, Runs-GoesOn}
use wrenegade.Fibers.Transfers.{self_call-loses_frame}

abbrev root : Fiber
root = record {
  frames = 0 ∷ [];
  is_at_start = false;
  arity = 0;
  stack = null ∷ null ∷ [];
  caller = none;
  error = none;
  state = fiber_root;
}

abbrev machine : Machine
machine = record { fibers = root ∷ new_fiber 7 1 ∷ new_fiber 8 0 ∷ []; fiber = some 0 }

run : Unit {0}
unfolding receive enter run_fiber try_fiber yield_fiber abort_fiber unwind runtime_error raised
    load_fiber after_primitive create_fiber return_frame return_from perform_abort perform
    perform_transfer HasTarget Option.bind
run = tt

-- The operations that are left when the interpreter returns are not performed.
abbrev perform_all : Option Outcome → List Operation → Option Outcome
perform_all o [] = o
perform_all none (op ∷ ops) = none
perform_all (some (succeeded m)) (op ∷ ops) = some (succeeded m)
perform_all (some (failed m)) (op ∷ ops) = some (failed m)
perform_all (some (running m)) (op ∷ ops) = perform_all (Option.bind m.fiber (perform op m)) ops

abbrev outcome_fiber : Outcome → Option ℕ
outcome_fiber (running m) = m.fiber
outcome_fiber (succeeded m) = m.fiber
outcome_fiber (failed m) = m.fiber

abbrev outcome_stack : ℕ → Outcome → Option (List Passed)
outcome_stack i (running m) = Option.map (λ (g : Fiber). g.stack) (get_elem? m.fibers i)
outcome_stack i (succeeded m) = Option.map (λ (g : Fiber). g.stack) (get_elem? m.fibers i)
outcome_stack i (failed m) = Option.map (λ (g : Fiber). g.stack) (get_elem? m.fibers i)

abbrev outcome_error : ℕ → Outcome → Option (Option Passed)
outcome_error i (running m) = Option.map (λ (g : Fiber). g.error) (get_elem? m.fibers i)
outcome_error i (succeeded m) = Option.map (λ (g : Fiber). g.error) (get_elem? m.fibers i)
outcome_error i (failed m) = Option.map (λ (g : Fiber). g.error) (get_elem? m.fibers i)

abbrev after : List Operation → Option Outcome
after ops = perform_all (some (running machine)) ops

-- The parameter of the fiber is bound, and the value that it yields is the result of the call.
yielded :
    Option.bind (after (call 1 (some (given 5)) ∷ yield (some (given 6)) ∷ [])) (outcome_stack 0)
    ≡ some (given 6 ∷ [])
unfolding run
yielded = refl

bound :
    Option.bind (after (call 1 (some (given 5)) ∷ [])) (outcome_stack 1)
    ≡ some (given 5 ∷ given 7 ∷ [])
unfolding run
bound = refl

-- A fiber that is tried aborts with its callee, and its caller goes on with the error.
caught :
    Option.bind (after (try_call 1 ∷ call 2 none ∷ abort (given 9) ∷ [])) outcome_fiber ≡ some 0
unfolding run
caught = refl

caught_stack :
    Option.bind (after (try_call 1 ∷ call 2 none ∷ abort (given 9) ∷ [])) (outcome_stack 0)
    ≡ some (given 9 ∷ null ∷ [])
unfolding run
caught_stack = refl

-- A fiber that has finished: the first call says so, the second does not.
finished :
    Option.bind (after (call 2 none ∷ return_value null ∷ call 2 none ∷ [])) (outcome_error 0)
    ≡ some (some (error_message finished_fiber))
unfolding run
finished = refl

finished_again :
    Option.bind
      (after (call 2 none ∷ return_value null ∷ try_call 1 ∷ call 2 none ∷ call 2 none ∷ []))
      (outcome_error 0)
    ≡ some (some (error_message already_called))
unfolding run
finished_again = refl

-- The machine in the call.
abbrev called : Machine
called = record {
  fibers =
      record root { is_at_start = false; stack = null ∷ [] }
      ∷ record (new_fiber 7 1) { caller = some 0; stack = given 5 ∷ given 7 ∷ [] }
      ∷ new_fiber 8 0
      ∷ [];
  fiber = some 1;
}

machine-IsRunning : IsRunning machine
machine-IsRunning = record {
  current = 0;
  callers = [];
  now = refl;
  chain = ((root, refl, omega arith, (refl, refl)), tt);
  no_errors = ((root, refl, refl), tt);
  distinct = (λ i. i, tt);
}

Runs-GoesOn_example : GoesOn (perform (yield (some (given 6))) called 1)
unfolding run
Runs-GoesOn_example =
    Runs-GoesOn (perform (yield (some (given 6))) called 1) machine machine-IsRunning (
      continues machine called 0 (call 1 (some (given 5))) refl (_, refl) refl
        (ends called 1 (yield (some (given 6))) refl tt refl))

-- A fiber that was transferred to.
abbrev transferred : Machine
transferred = record machine { fiber = some 2 }

self_call-loses_frame_example :
    (m : Machine) × (perform (call 2 none) transferred 2 ≡ some (running m))
    × (m' : Machine) × (perform (return_value null) m 2 ≡ some (running m'))
    × (m'.fiber ≡ some 2)
    × (g : Fiber) × (get_elem? m'.fibers 2 ≡ some g)
    × (g.frames ≡ [])
self_call-loses_frame_example =
    self_call-loses_frame transferred 2 0 (new_fiber 8 0) null refl refl refl refl refl

runtime_error-Unwound_example :
    (m : Machine) × (runtime_error called 1 (given 9) ≡ some m)
    × Unwound (given 9) m (catcher called.fibers 1 (0 ∷ []))
runtime_error-Unwound_example =
    runtime_error-Unwound called 1 (0 ∷ []) (given 9) (_, refl, omega arith, (refl, refl))
      ((_, refl, omega arith, (refl, refl)), tt) ((_, refl, refl), tt)
      ((λ i. elim i [ inl e ↦ omega (arith, e) | inr n ↦ n ]), ((λ i. i), tt))
