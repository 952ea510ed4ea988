-- ===== src/Fibers/Handling.antt =====
-- What the interpreter does after a primitive that gives false (wren_vm.c).
use wrenegade.Base.{ℕ, ◌≡◌, refl, inl, inr, Option, Option-cases, some, List, ◌∷◌, IsDistinct}
use mathlib.Core.Option
use wrenegade.Fibers.{
  Passed, Machine, change, with_error, Outcome, running, succeeded, failed, raised, load_fiber,
  store_frame, after_primitive,
}
use wrenegade.Fibers.Chain.{
  IsChain, NoErrors, IsHarmless, IsChain-harmless, NoErrors-other, NoErrors-keep, IsRunning,
}
use wrenegade.Fibers.Errors.{StopsOrRuns, with_error-IsHarmless, runtime_error-StopsOrRuns}

-- The interpreter goes on with a fiber that can be resumed, or returns.
pub data GoesOn : Option Outcome → Type 0 where
  goes_on : (m : Machine) → IsRunning m → GoesOn (some (running m))
  has_succeeded : (m : Machine) → GoesOn (some (succeeded m))
  has_failed : (m : Machine) → GoesOn (some (failed m))

pub raised-GoesOn :
    (r : Option Machine) (m : Machine) → r ≡ some m → StopsOrRuns m → GoesOn (raised r)
unfolding raised Option.bind
raised-GoesOn r m e (inl n) = rw (e, raised, n) (has_failed m)
raised-GoesOn r m e (inr k) = rw (e, raised, k.now) (goes_on m k)

-- After a primitive that leaves a chain, and an error at most in the current fiber.
pub data IsHandled (m : Machine) : Type 0 where
  handled :
      (current : ℕ) (callers : List ℕ)
      → m.fiber ≡ some current
      → IsChain m.fibers (current ∷ callers)
      → NoErrors m.fibers callers
      → IsDistinct (current ∷ callers)
      → IsHandled m

load_fiber-GoesOn : (m : Machine) → IsHandled m → GoesOn (load_fiber m)
unfolding load_fiber Option.bind
load_fiber-GoesOn m (handled current callers now (l, c) o d) =
    let (g, at, p, k) = l in
    elim (Option-cases g.error) [
      | inl n ↦
          rw (load_fiber, now, at, n)
            (goes_on m (record {
              current = current;
              callers = callers;
              now = now;
              chain = (l, c);
              no_errors = ((g, at, n), o);
              distinct = d;
            }))
      | inr (e, n) ↦
          let (m', run, ends) = runtime_error-StopsOrRuns m current callers e l c o d in
          rw (load_fiber, now, at, n) (raised-GoesOn _ m' run ends)
    ]

store_frame-IsHarmless : IsHarmless store_frame
store_frame-IsHarmless = record { frames = λ g. refl; caller = λ g. refl; state = λ g. refl }

pub after_primitive-GoesOn :
    (from : ℕ) (m : Machine) → IsHandled m → GoesOn (after_primitive from m)
unfolding after_primitive
after_primitive-GoesOn from m (handled current callers now c o d) = load_fiber-GoesOn _ (
    handled current callers now
      (IsChain-harmless store_frame store_frame-IsHarmless m.fibers from (current ∷ callers) c)
      (NoErrors-keep store_frame (λ g. refl) m.fibers from callers o) d)

-- `with_error` leaves the callers of the fiber alone.
pub with_error-IsHandled :
    (m : Machine) (e : Passed) (current : ℕ) (callers : List ℕ)
    → m.fiber ≡ some current
    → IsChain m.fibers (current ∷ callers)
    → NoErrors m.fibers callers
    → IsDistinct (current ∷ callers)
    → IsHandled (change m current (with_error e))
with_error-IsHandled m e current callers now c o (n, d) =
    handled current callers now
      (IsChain-harmless (with_error e) (with_error-IsHarmless e) m.fibers current
        (current ∷ callers) c)
      (NoErrors-other (with_error e) m.fibers current callers n o) (n, d)
