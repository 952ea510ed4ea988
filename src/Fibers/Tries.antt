-- ===== src/Fibers/Tries.antt =====
-- `fiber_call` and `fiber_try` (wren_core.c) keep the chain of callers.
use wrenegade.Base.{ℕ, ◌≡◌, refl, true, Option, none, some, List, ◌∷◌, get_elem?, IsDistinct}
use mathlib.Core.Option
use wrenegade.Fibers.{
  fiber_try, Passed, Fiber, Machine, change, is_some, run_fiber, try_fiber, after_primitive,
}
use wrenegade.Fibers.Chain.{
  get_elem?-modify_self, IsChain, NoErrors, IsChain-other, NoErrors-other, IsRunning,
}
use wrenegade.Fibers.Handling.{GoesOn, IsHandled, handled, after_primitive-GoesOn}
use wrenegade.Fibers.Calls.{IsCalled, refused, entered, run_fiber-Calls, IsCalled-IsHandled}

pub call-GoesOn :
    (m : Machine) (k : IsRunning m) (target : ℕ) (value : Option Passed) (g : Fiber)
    → get_elem? m.fibers target ≡ some g
    → GoesOn (Option.bind (run_fiber m k.current target value true) (after_primitive k.current))
unfolding Option.bind
call-GoesOn m k target value g at =
    let (m', run, c) = run_fiber-Calls m k target value g at in
    rw run
      (after_primitive-GoesOn k.current m' (IsCalled-IsHandled k.current k.callers target m' c))

-- A fiber that has been entered by `fiber_try`.
abbrev tried : Machine → ℕ → Machine
tried m now = change m now (λ g. record g { state = fiber_try })

try_fiber-refused :
    (m m' : Machine) (current target : ℕ) (g : Fiber)
    → run_fiber m current target none true ≡ some m'
    → m'.fiber ≡ some current
    → get_elem? m'.fibers current ≡ some g
    → is_some g.error ≡ true
    → try_fiber m current target ≡ some m'
unfolding try_fiber Option.bind
try_fiber-refused m m' current target g run now at e = rw (try_fiber, run, now, at, e) refl

try_fiber-entered :
    (m m' : Machine) (current target : ℕ) (g : Fiber)
    → run_fiber m current target none true ≡ some m'
    → m'.fiber ≡ some target
    → get_elem? m'.fibers target ≡ some g
    → g.error ≡ none
    → try_fiber m current target ≡ some (tried m' target)
unfolding try_fiber Option.bind
try_fiber-entered m m' current target g run now at e = rw (try_fiber, run, now, at, e) refl

tried-IsHandled :
    (m : Machine) (current target : ℕ) (callers : List ℕ)
    → m.fiber ≡ some target
    → IsChain m.fibers (target ∷ current ∷ callers)
    → NoErrors m.fibers (current ∷ callers)
    → IsDistinct (target ∷ current ∷ callers)
    → IsHandled (tried m target)
tried-IsHandled m current target callers now ((g, at, p, (c, r)), chain) o (n, d) =
    let h : Fiber → Fiber = λ g. record g { state = fiber_try } in
    handled target (current ∷ callers) now
      (
        (h g, get_elem?-modify_self m.fibers target h g at, p, (c, refl)),
        IsChain-other h m.fibers target (current ∷ callers) n chain,
      )
      (NoErrors-other h m.fibers target (current ∷ callers) n o) (n, d)

try_fiber-IsHandled :
    (m m' : Machine) (current target : ℕ) (callers : List ℕ)
    → run_fiber m current target none true ≡ some m'
    → IsCalled current callers target m'
    → (m'' : Machine) × (try_fiber m current target ≡ some m'') × IsHandled m''
try_fiber-IsHandled m m' current target callers run (refused g now at e h) =
    (m', try_fiber-refused m m' current target g run now at e, h)
try_fiber-IsHandled m m' current target callers run (entered now c ((g, at, e), o) d) = (
  _,
  try_fiber-entered m m' current target g run now at e,
  tried-IsHandled m' current target callers now c o d,
)

pub try_call-GoesOn :
    (m : Machine) (k : IsRunning m) (target : ℕ) (g : Fiber)
    → get_elem? m.fibers target ≡ some g
    → GoesOn (Option.bind (try_fiber m k.current target) (after_primitive k.current))
unfolding Option.bind
try_call-GoesOn m k target g at =
    let (m', run, c) = run_fiber-Calls m k target none g at in
    let (m'', eq, h) = try_fiber-IsHandled m m' k.current target k.callers run c in
    rw eq (after_primitive-GoesOn k.current m'' h)
