-- ===== src/Fibers/Runs.antt =====
-- The interpreter with its fibers, as long as no fiber is transferred to.
use wrenegade.Base.{ℕ, ◌≡◌, ◌∙◌, sym, refl, Option, some, get_elem?}
use mathlib.Core.Path.{subst}
use wrenegade.Fibers.{Fiber, Machine, Outcome, running, suspend_fiber}
use wrenegade.Fibers.Chain.{IsRunning}
use wrenegade.Fibers.Handling.{GoesOn, goes_on, has_succeeded, has_failed}
use wrenegade.Fibers.Interpreter.{
  Operation, call, try_call, yield, abort, suspend, create, call_block, return_value, perform,
}
use wrenegade.Fibers.Tries.{call-GoesOn, try_call-GoesOn}
use wrenegade.Fibers.Returns.{yield-GoesOn, return-GoesOn, stopped-GoesOn}
use wrenegade.Fibers.Creation.{abort-GoesOn, create-GoesOn, call_block-IsRunning}

-- The fiber of a call is there.
unfoldable pub HasTarget : Machine → Operation → Type 0
HasTarget m (call target value) = (g : Fiber) × (get_elem? m.fibers target ≡ some g)
HasTarget m (try_call target) = (g : Fiber) × (get_elem? m.fibers target ≡ some g)
HasTarget m (yield value) = Unit
HasTarget m (abort value) = Unit
HasTarget m suspend = Unit
HasTarget m (create closure arity) = Unit
HasTarget m (call_block start) = Unit
HasTarget m (return_value result) = Unit

perform-GoesOn :
    (op : Operation) (m : Machine) (k : IsRunning m)
    → HasTarget m op
    → GoesOn (perform op m k.current)
unfolding perform HasTarget
perform-GoesOn (call target value) m k (g, at) = call-GoesOn m k target value g at
perform-GoesOn (try_call target) m k (g, at) = try_call-GoesOn m k target g at
perform-GoesOn (yield value) m k h = yield-GoesOn m k value
perform-GoesOn (abort value) m k h = abort-GoesOn m k value
perform-GoesOn suspend m k h = stopped-GoesOn k.current (suspend_fiber m) refl
perform-GoesOn (create closure arity) m k h = create-GoesOn m k closure arity
perform-GoesOn (call_block start) m k h = goes_on _ (call_block-IsRunning m k start)
perform-GoesOn (return_value result) m k h = return-GoesOn m k result

-- What comes of a machine after some operations of the fibers that are then current.
pub data Runs (o : Option Outcome) : Machine → Type 0 where
  stays : (m : Machine) → o ≡ some (running m) → Runs o m
  ends :
      (m : Machine) (current : ℕ) (op : Operation)
      → m.fiber ≡ some current
      → HasTarget m op
      → perform op m current ≡ o
      → Runs o m
  continues :
      (m m' : Machine) (current : ℕ) (op : Operation)
      → m.fiber ≡ some current
      → HasTarget m op
      → perform op m current ≡ some (running m')
      → Runs o m'
      → Runs o m

current_same :
    (m : Machine) (k : IsRunning m) (current : ℕ) → m.fiber ≡ some current → k.current ≡ current
current_same m k current now = cc (sym k.now ∙ now)

perform_current :
    (op : Operation) (m : Machine) (current : ℕ)
    → IsRunning m
    → m.fiber ≡ some current
    → HasTarget m op
    → GoesOn (perform op m current)
perform_current op m current k now t =
    subst (λ c. GoesOn (perform op m c)) (current_same m k current now) (perform-GoesOn op m k t)

GoesOn-IsRunning :
    (o : Option Outcome) (m : Machine) → GoesOn o → o ≡ some (running m) → IsRunning m
GoesOn-IsRunning o m (goes_on m' k) e = let same : m' ≡ m = cc e in subst IsRunning same k
GoesOn-IsRunning o m (has_succeeded m') e = cc e
GoesOn-IsRunning o m (has_failed m') e = cc e

-- If the current fiber starts a chain of distinct callers that ends with the root fiber, each
-- with a call frame and no error, then after any sequence of calls, tries, yields, aborts,
-- suspensions, new fibers, calls of blocks and returns, in which the fibers that are called
-- exist, the interpreter has returned or goes on with a fiber that starts such a chain.
pub Runs-GoesOn : (o : Option Outcome) (m : Machine) → IsRunning m → Runs o m → GoesOn o
Runs-GoesOn o m k (stays m' e) = rw e (goes_on m k)
Runs-GoesOn o m k (ends m' current op now t e) =
    subst GoesOn e (perform_current op m current k now t)
Runs-GoesOn o m k (continues m' next current op now t e rest) =
    Runs-GoesOn o next (GoesOn-IsRunning _ next (perform_current op m current k now t) e) rest
