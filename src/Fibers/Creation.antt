-- ===== src/Fibers/Creation.antt =====
-- Aborts, new fibers and calls of blocks (wren_core.c, wren_vm.c) keep the chain of callers.
use wrenegade.Base.{
  ℕ, refl, inl, inr, false, none, List, [], ◌∷◌, ◌++◌, ltb, length, drop, get_elem?-snoc, arith,
  Bool-cases,
}
use wrenegade.Fibers.{
  Passed, null, given, error_message, Fiber, Machine, change, with_error, abort_fiber, new_fiber,
  create_fiber, call_function, too_many_parameters, after_primitive,
}
use wrenegade.Fibers.Chain.{
  get_elem?-modify_self, IsChain, NoErrors, IsHarmless, IsChain-harmless, NoErrors-other, IsRunning,
}
use wrenegade.Fibers.Handling.{GoesOn, goes_on, after_primitive-GoesOn, with_error-IsHandled}
use wrenegade.Fibers.Interpreter.{perform_abort}
use wrenegade.Fibers.Returns.{frame-IsRunning, stack_only-IsRunning}

raised_error-GoesOn :
    (m : Machine) (k : IsRunning m) (v : Passed)
    → GoesOn (after_primitive k.current (change m k.current (with_error v)))
raised_error-GoesOn m k v =
    after_primitive-GoesOn k.current _
      (with_error-IsHandled m v k.current k.callers k.now k.chain (k.no_errors.1) k.distinct)

abbrev clear : Fiber → Fiber
clear g = record g { error = none; stack = drop 1 g.stack }

clear-IsHarmless : IsHarmless clear
clear-IsHarmless = record { frames = λ g. refl; caller = λ g. refl; state = λ g. refl }

-- Another fiber behind those of the chain.
IsChain-snoc :
    (fs : List Fiber) (f : Fiber) (path : List ℕ) → IsChain fs path → IsChain (fs ++ f ∷ []) path
IsChain-snoc fs f [] c = tt
IsChain-snoc fs f (i ∷ rest) ((g, at, p, w), c) =
    ((g, get_elem?-snoc fs i g f at, p, w), IsChain-snoc fs f rest c)

NoErrors-snoc :
    (fs : List Fiber) (f : Fiber) (path : List ℕ) → NoErrors fs path → NoErrors (fs ++ f ∷ []) path
NoErrors-snoc fs f [] c = tt
NoErrors-snoc fs f (i ∷ rest) ((g, at, e), c) =
    ((g, get_elem?-snoc fs i g f at, e), NoErrors-snoc fs f rest c)

added-IsRunning :
    (m : Machine) (f : Fiber) → IsRunning m → IsRunning (record m { fibers = m.fibers ++ f ∷ [] })
added-IsRunning m f k = record {
  current = k.current;
  callers = k.callers;
  now = k.now;
  chain = IsChain-snoc m.fibers f (k.current ∷ k.callers) k.chain;
  no_errors = NoErrors-snoc m.fibers f (k.current ∷ k.callers) k.no_errors;
  distinct = k.distinct;
}

pub abort-GoesOn :
    (m : Machine) (k : IsRunning m) (v : Passed) → GoesOn (perform_abort v m k.current)
unfolding perform_abort abort_fiber
abort-GoesOn m k null =
    let (g, at, p, w) = k.chain.0 in
    goes_on _ (record {
      current = k.current;
      callers = k.callers;
      now = k.now;
      chain =
          IsChain-harmless clear clear-IsHarmless m.fibers k.current (k.current ∷ k.callers)
            k.chain;
      no_errors = (
        (clear g, get_elem?-modify_self m.fibers k.current clear g at, refl),
        NoErrors-other clear m.fibers k.current k.callers (k.distinct.0) (k.no_errors.1),
      );
      distinct = k.distinct;
    })
abort-GoesOn m k (given x) = raised_error-GoesOn m k (given x)
abort-GoesOn m k (error_message e) = raised_error-GoesOn m k (error_message e)

pub create-GoesOn :
    (m : Machine) (k : IsRunning m) (closure arity : ℕ)
    → GoesOn (create_fiber m k.current closure arity)
unfolding create_fiber
create-GoesOn m k closure arity = elim (Bool-cases (ltb 1 arity)) [
  | inl t ↦ rw (create_fiber, t) (raised_error-GoesOn m k (error_message too_many_parameters))
  | inr t ↦
      rw (create_fiber, t)
        (goes_on _ (
          added-IsRunning _ (new_fiber closure arity)
            (stack_only-IsRunning m k.current (λ g. given (length m.fibers) ∷ drop 2 g.stack) k)))
]

pub call_block-IsRunning :
    (m : Machine) (k : IsRunning m) (start : ℕ) → IsRunning (call_function m k.current start)
call_block-IsRunning m k start =
    let (g, at, p, w) = k.chain.0 in
    frame-IsRunning m k.current k.callers
      (λ g. record g { frames = start ∷ g.frames; is_at_start = false }) g k.now at (omega arith)
      (λ g. refl) (λ g. refl) (λ g. refl) k.chain k.no_errors k.distinct
