-- ===== src/Fibers.antt =====
-- Switching between fibers: `runFiber` and the primitives of fibers in lib/wren/src/vm/wren_core.c,
-- `runtimeError` and `CODE_RETURN` in wren_vm.c. Fibers are named by their place in a list. The stack
-- and the call frames stand with the top first.
pub mod Chain
pub mod Errors
pub mod Interpreter
pub mod Handling
pub mod Calls
pub mod Tries
pub mod Returns
pub mod Creation
pub mod Runs
pub mod Transfers
mod Tests
use wrenegade.Base.{
  ℕ, zero, suc, ◌+◌, ◌-◌, Bool, true, false, not, ◌&&◌, Option, none, some, List, [], ◌∷◌, ◌++◌,
  length, drop, get_elem?, ◌==◌, if◌then◌else◌, ltb,
}
use mathlib.Core.Option

pub data FiberState : Type 0 where
  fiber_try fiber_root fiber_other : FiberState

pub data Message : Type 0 where
  aborted_fiber already_called call_root finished_fiber too_many_parameters : Message

-- The values that fibers pass to one another.
pub data Passed : Type 0 where
  null : Passed
  given : ℕ → Passed
  error_message : Message → Passed

-- `stackStart` of each call frame, whether the first frame is at the start of its code, the arity of
-- the fiber's function, and the error if there is one.
pub record Fiber : Type 0 where
  pub frames : List ℕ
  pub is_at_start : Bool
  pub arity : ℕ
  pub stack : List Passed
  pub caller : Option ℕ
  pub error : Option Passed
  pub state : FiberState

pub record Machine : Type 0 where
  pub fibers : List Fiber
  pub fiber : Option ℕ

abbrev pub modify {ℓ} : {A : Type ℓ} → List A → ℕ → (A → A) → List A
modify [] i f = []
modify (x ∷ xs) zero f = f x ∷ xs
modify (x ∷ xs) (suc i) f = x ∷ modify xs i f

abbrev pub change : Machine → ℕ → (Fiber → Fiber) → Machine
change m i f = record m { fibers = modify m.fibers i f }

abbrev pub is_some {ℓ} : {A : Type ℓ} → Option A → Bool
is_some none = false
is_some (some a) = true

abbrev pub is_root : FiberState → Bool
is_root fiber_root = true
is_root fiber_try = false
is_root fiber_other = false

abbrev pub is_try : FiberState → Bool
is_try fiber_try = true
is_try fiber_root = false
is_try fiber_other = false

-- `stackTop[-1] = value`
abbrev pub replace_top : Passed → Fiber → Fiber
replace_top v f = record f { stack = v ∷ drop 1 f.stack }

abbrev pub with_error : Passed → Fiber → Fiber
with_error v f = record f { error = some v }

abbrev pub with_caller : Option ℕ → Fiber → Fiber
with_caller c f = record f { caller = c }

abbrev pub or_null : Option Passed → Passed
or_null none = null
or_null (some v) = v

-- The value that goes into the fiber that is started or resumed.
unfoldable pub receive : Option Passed → Fiber → Fiber
receive value f =
    if length f.frames == 1 && f.is_at_start
    then if f.arity == 1 then record f { stack = or_null value ∷ f.stack } else f
    else replace_top (or_null value) f

-- `RETURN_ERROR`, in the fiber that calls the primitive.
abbrev pub raise : Machine → ℕ → Message → Machine
raise m current e = change m current (with_error (error_message e))

-- The end of `runFiber`, once the fiber may be entered.
unfoldable pub enter : Machine → ℕ → ℕ → Option Passed → Machine
enter m current target value =
    let popped =
      if is_some value then change m current (λ f. record f { stack = drop 1 f.stack }) else m in
    record (change popped target (receive value)) { fiber = some target }

-- `runFiber`, called by the current fiber. The error of a fiber that has finished comes after the
-- caller is noted.
unfoldable pub run_fiber : Machine → ℕ → ℕ → Option Passed → Bool → Option Machine
run_fiber m current target value is_call = Option.bind (get_elem? m.fibers target) λ f.
    if is_some f.error
    then some (raise m current aborted_fiber)
    else if is_call && is_some f.caller
    then some (raise m current already_called)
    else if is_call && is_root f.state
    then some (raise m current call_root)
    else let noted = if is_call then change m target (with_caller (some current)) else m in
      if length f.frames == 0
      then some (raise noted current finished_fiber)
      else some (enter noted current target value)

-- `fiber_try`, for which only the fiber that is then current is marked.
unfoldable pub try_fiber : Machine → ℕ → ℕ → Option Machine
try_fiber m current target = Option.bind (run_fiber m current target none true) λ m'.
    Option.bind m'.fiber λ now. Option.bind (get_elem? m'.fibers now) λ f.
      some (if is_some f.error then m' else change m' now (λ g. record g { state = fiber_try }))

-- `fiber_yield` and `fiber_yield1`, without and with a value.
unfoldable pub yield_fiber : Machine → ℕ → Option Passed → Option Machine
yield_fiber m current value = Option.bind (get_elem? m.fibers current) λ f.
    let unhooked = change m current (λ g. record g { caller = none; state = fiber_other }) in
    some (elim f.caller [
      | none ↦ record unhooked { fiber = none }
      | some caller ↦
          let resumed = change unhooked caller (replace_top (or_null value)) in
          record (if is_some value
            then change resumed current (λ g. record g { stack = drop 1 g.stack })
            else resumed) { fiber = some caller }
    ])

-- `fiber_abort` with an error; null is none, and the fiber goes on.
unfoldable pub abort_fiber : Machine → ℕ → Passed → Machine
abort_fiber m current null =
    change m current (λ g. record g { error = none; stack = drop 1 g.stack })
abort_fiber m current (given x) = change m current (with_error (given x))
abort_fiber m current (error_message e) = change m current (with_error (error_message e))

-- `fiber_suspend`
abbrev pub suspend_fiber : Machine → Machine
suspend_fiber m = record m { fiber = none }

-- A value as an error: null is none.
abbrev pub as_error : Passed → Option Passed
as_error null = none
as_error (given x) = some (given x)
as_error (error_message e) = some (error_message e)

-- `fiber_transferError`
unfoldable pub transfer_error : Machine → ℕ → ℕ → Passed → Option Machine
transfer_error m current target error =
    Option.bind (run_fiber m current target (some error) false) λ m'.
      Option.bind m'.fiber λ now. some (change m' now (λ g. record g { error = as_error error }))

-- The loop of `runtimeError`, along the callers; none is a fiber that is not there, or the end of the
-- fuel.
unfoldable pub unwind : ℕ → Machine → ℕ → Passed → Option Machine
unwind zero m current error = none
unwind (suc fuel) m current error = Option.bind (get_elem? m.fibers current) λ f.
    let marked = change m current (with_error error) in
    let unhooked = change marked current (with_caller none) in
    let further : Option Machine = elim f.caller [
      | none ↦ some (record unhooked { fiber = none })
      | some caller ↦ unwind fuel unhooked caller error
    ] in
    let tried : Option Machine = Option.bind f.caller (λ caller.
      some (record (change marked caller (replace_top error)) { fiber = some caller })) in
    if is_try f.state then tried else further

unfoldable pub runtime_error : Machine → ℕ → Passed → Option Machine
runtime_error m current error = unwind (length m.fibers + 1) m current error

-- What the interpreter does next: it goes on, or it returns with success or with an error.
pub data Outcome : Type 0 where
  running succeeded failed : Machine → Outcome

unfoldable pub raised : Option Machine → Option Outcome
raised r = Option.bind r λ m. some (elim m.fiber [ none ↦ failed m | some now ↦ running m ])

-- Stop without a fiber, and handle the error of the fiber.
unfoldable pub load_fiber : Machine → Option Outcome
load_fiber m = elim m.fiber [
  | none ↦ some (succeeded m)
  | some now ↦
      Option.bind (get_elem? m.fibers now)
        λ f. elim f.error [ none ↦ some (running m) | some e ↦ raised (runtime_error m now e) ]
]

-- `STORE_FRAME`: from then on the first frame is no more at the start of its code.
abbrev pub store_frame : Fiber → Fiber
store_frame f = record f { is_at_start = false }

-- After a primitive that gives false, called by the fiber that is given.
unfoldable pub after_primitive : ℕ → Machine → Option Outcome
after_primitive from m = load_fiber (change m from store_frame)

-- `wrenCallFunction`, from `METHOD_BLOCK`.
abbrev pub call_function : Machine → ℕ → ℕ → Machine
call_function m current start =
    change m current (λ g. record g { frames = start ∷ g.frames; is_at_start = false })

-- `wrenNewFiber` for a closure.
abbrev pub new_fiber : ℕ → ℕ → Fiber
new_fiber closure arity = record {
  frames = 0 ∷ [];
  is_at_start = true;
  arity = arity;
  stack = given closure ∷ [];
  caller = none;
  error = none;
  state = fiber_other;
}

-- `fiber_new`, for an argument that is a function. The new fiber goes behind the others.
unfoldable pub create_fiber : Machine → ℕ → ℕ → ℕ → Option Outcome
create_fiber m current closure arity =
    if ltb 1 arity
    then after_primitive current (raise m current too_many_parameters)
    else let result =
        change m current (λ g. record g { stack = given (length m.fibers) ∷ drop 2 g.stack }) in
      some (running (record result { fibers = result.fibers ++ new_fiber closure arity ∷ [] }))

-- The frame that `CODE_RETURN` leaves, and the result in the slot that its caller looks at.
unfoldable pub return_frame : Passed → ℕ → List ℕ → Fiber → Fiber
return_frame result start rest f = record f {
  frames = rest;
  stack = result ∷ drop (length f.stack - start) f.stack;
}

-- `CODE_RETURN`, with the result that is on the stack.
unfoldable pub return_from : Machine → ℕ → Passed → Option Outcome
return_from m current result = Option.bind (get_elem? m.fibers current) λ f. elim f.frames [
  | [] ↦ none
  | start ∷ rest ↦ elim rest [
    | frame ∷ frames ↦
        some (running (change m current (return_frame result start (frame ∷ frames))))
    | [] ↦ elim f.caller [
      | none ↦
          some (succeeded (change m current (λ g. record g { frames = []; stack = result ∷ [] })))
      | some caller ↦
          let ended =
            change m current
              (λ g. record g { frames = []; stack = drop 1 g.stack; caller = none }) in
          some (running (record (change ended caller (replace_top result)) { fiber = some caller }))
    ]
  ]
]
