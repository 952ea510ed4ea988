-- ===== src/Fibers/Returns.antt =====
-- Yields and returns (wren_core.c, wren_vm.c) keep the chain of callers.
use wrenegade.Base.{
  ℕ, ◌<◌, ◌≡◌, refl, sym, ap, ◌∙◌, inl, inr, Option, List-cases, none, some, List, [], ◌∷◌, length,
  drop, get_elem?, arith, IsDistinct,
}
use mathlib.Core.Option
use wrenegade.Fibers.{
  load_fiber, fiber_other, Passed, null, Fiber, Machine, change, is_root, replace_top, yield_fiber,
  running, succeeded, after_primitive, return_frame, return_from,
}
use wrenegade.Fibers.Chain.{
  get_elem?-modify_self, IsHooked, IsChain, NoErrors, IsChain-other, NoErrors-keep, IsRunning,
}
use wrenegade.Fibers.Calls.{IsChain-stack, stack-IsStackOnly}
use wrenegade.Fibers.Errors.{resumed, StopsOrRuns}
use wrenegade.Fibers.Handling.{
  GoesOn, goes_on, has_succeeded, IsHandled, handled, after_primitive-GoesOn,
}

IsRunning-IsHandled : (m : Machine) → IsRunning m → IsHandled m
IsRunning-IsHandled m k = handled k.current k.callers k.now k.chain (k.no_errors.1) k.distinct

IsRunning-GoesOn : (from : ℕ) (m : Machine) → IsRunning m → GoesOn (after_primitive from m)
IsRunning-GoesOn from m k = after_primitive-GoesOn from m (IsRunning-IsHandled m k)

pub stopped-GoesOn : (from : ℕ) (m : Machine) → m.fiber ≡ none → GoesOn (after_primitive from m)
unfolding after_primitive load_fiber
stopped-GoesOn from m n = rw (after_primitive, load_fiber, n) (has_succeeded _)

-- The changes of `fiber_yield` to the fiber that yields.
abbrev unhook : Fiber → Fiber
unhook g = record g { caller = none; state = fiber_other }

-- The value of `fiber_yield1` leaves the stack.
abbrev pop : Fiber → Fiber
pop g = record g { stack = drop 1 g.stack }

yield_fiber-last :
    (m : Machine) (current : ℕ) (value : Option Passed) (g : Fiber)
    → get_elem? m.fibers current ≡ some g
    → g.caller ≡ none
    → yield_fiber m current value ≡ some (record (change m current unhook) { fiber = none })
unfolding yield_fiber Option.bind
yield_fiber-last m current value g at c = rw (yield_fiber, at, c) refl

yield_fiber-null :
    (m : Machine) (current p : ℕ) (g : Fiber)
    → get_elem? m.fibers current ≡ some g
    → g.caller ≡ some p
    → yield_fiber m current none
      ≡ some (record (change (change m current unhook) p (replace_top null)) { fiber = some p })
unfolding yield_fiber Option.bind
yield_fiber-null m current p g at c = rw (yield_fiber, at, c) refl

yield_fiber-value :
    (m : Machine) (current p : ℕ) (v : Passed) (g : Fiber)
    → get_elem? m.fibers current ≡ some g
    → g.caller ≡ some p
    → yield_fiber m current (some v)
      ≡ some (record (change (change (change m current unhook) p (replace_top v)) current pop) {
        fiber = some p;
      })
unfolding yield_fiber Option.bind
yield_fiber-value m current p v g at c = rw (yield_fiber, at, c) refl

pub stack_only-IsRunning :
    (m : Machine) (i : ℕ) (s : Fiber → List Passed)
    → IsRunning m
    → IsRunning (change m i (λ g. record g { stack = s g }))
stack_only-IsRunning m i s k =
    let r =
      IsChain-stack _ (stack-IsStackOnly s) m.fibers i (k.current ∷ k.callers)
        (k.chain, k.no_errors) in
    record {
      current = k.current;
      callers = k.callers;
      now = k.now;
      chain = r.0;
      no_errors = r.1;
      distinct = k.distinct;
    }

yield_fiber-StopsOrRuns :
    (m : Machine) (current : ℕ) (callers : List ℕ) (value : Option Passed)
    → IsChain m.fibers (current ∷ callers)
    → NoErrors m.fibers callers
    → IsDistinct (current ∷ callers)
    → (m' : Machine) × (yield_fiber m current value ≡ some m') × StopsOrRuns m'
yield_fiber-StopsOrRuns m current [] value ((g, at, p, (c, r)), chain) o d =
    (_, yield_fiber-last m current value g at c, inl refl)
yield_fiber-StopsOrRuns m current (next ∷ rest) none ((g, at, p, (c, r)), chain) o (n, d) = (
  _,
  yield_fiber-null m current next g at c,
  inr (resumed m current next rest null unhook n chain o d),
)
yield_fiber-StopsOrRuns m current (next ∷ rest) (some v) ((g, at, p, (c, r)), chain) o (n, d) = (
  _,
  yield_fiber-value m current next v g at c,
  inr (
      stack_only-IsRunning _ current (λ g. drop 1 g.stack)
        (resumed m current next rest v unhook n chain o d)),
)

StopsOrRuns-GoesOn : (from : ℕ) (m : Machine) → StopsOrRuns m → GoesOn (after_primitive from m)
StopsOrRuns-GoesOn from m (inl n) = stopped-GoesOn from m n
StopsOrRuns-GoesOn from m (inr k) = IsRunning-GoesOn from m k

pub yield-GoesOn :
    (m : Machine) (k : IsRunning m) (value : Option Passed)
    → GoesOn (Option.bind (yield_fiber m k.current value) (after_primitive k.current))
unfolding Option.bind
yield-GoesOn m k value =
    let (m', run, s) =
      yield_fiber-StopsOrRuns m k.current k.callers value k.chain (k.no_errors.1) k.distinct in
    rw run (StopsOrRuns-GoesOn k.current m' s)

-- `CODE_RETURN`: from a frame, from the last fiber, and to the caller.
return_from-frame :
    (m : Machine) (current start frame : ℕ) (frames : List ℕ) (v : Passed) (g : Fiber)
    → get_elem? m.fibers current ≡ some g
    → g.frames ≡ start ∷ frame ∷ frames
    → return_from m current v
      ≡ some (running (change m current (return_frame v start (frame ∷ frames))))
unfolding return_from Option.bind
return_from-frame m current start frame frames v g at f = rw (return_from, at, f) refl

return_from-last :
    (m : Machine) (current start : ℕ) (v : Passed) (g : Fiber)
    → get_elem? m.fibers current ≡ some g
    → g.frames ≡ start ∷ []
    → g.caller ≡ none
    → return_from m current v
      ≡ some (succeeded (change m current (λ g. record g { frames = []; stack = v ∷ [] })))
unfolding return_from Option.bind
return_from-last m current start v g at f c = rw (return_from, at, f, c) refl

abbrev pub end : Fiber → Fiber
end g = record g { frames = []; stack = drop 1 g.stack; caller = none }

pub return_from-caller :
    (m : Machine) (current start p : ℕ) (v : Passed) (g : Fiber)
    → get_elem? m.fibers current ≡ some g
    → g.frames ≡ start ∷ []
    → g.caller ≡ some p
    → return_from m current v
      ≡ some (running (record (change (change m current end) p (replace_top v)) { fiber = some p }))
unfolding return_from Option.bind
return_from-caller m current start p v g at f c = rw (return_from, at, f, c) refl

IsHooked-same :
    (h : Fiber → Fiber)
    → ((g : Fiber) → (h g).caller ≡ g.caller)
    → ((g : Fiber) → (h g).state ≡ g.state)
    → (g : Fiber) (rest : List ℕ) → IsHooked g rest
    → IsHooked (h g) rest
IsHooked-same h c t g [] (a, b) = (c g ∙ a, ap is_root (t g) ∙ b)
IsHooked-same h c t g (p ∷ ps) (a, b) = (c g ∙ a, ap is_root (t g) ∙ b)

pub frame-IsRunning :
    (m : Machine) (current : ℕ) (callers : List ℕ) (h : Fiber → Fiber) (g : Fiber)
    → m.fiber ≡ some current
    → get_elem? m.fibers current ≡ some g
    → 0 < length (h g).frames
    → ((g : Fiber) → (h g).caller ≡ g.caller)
    → ((g : Fiber) → (h g).state ≡ g.state)
    → ((g : Fiber) → (h g).error ≡ g.error)
    → IsChain m.fibers (current ∷ callers)
    → NoErrors m.fibers (current ∷ callers)
    → IsDistinct (current ∷ callers)
    → IsRunning (change m current h)
frame-IsRunning m current callers h g now at p c t e ((g', at', p', k), chain) o (n, d) =
    let same : g' ≡ g = cc (sym at' ∙ at) in
    record {
      current = current;
      callers = callers;
      now = now;
      chain = (
        (
          h g,
          get_elem?-modify_self m.fibers current h g at,
          p,
          IsHooked-same h c t g callers (rw (sym same) k),
        ),
        IsChain-other h m.fibers current callers n chain,
      );
      no_errors = NoErrors-keep h e m.fibers current (current ∷ callers) o;
      distinct = (n, d);
    }

ended-GoesOn :
    (m : Machine) (current : ℕ) (callers : List ℕ) (v : Passed) (start : ℕ) (g : Fiber)
    → get_elem? m.fibers current ≡ some g
    → g.frames ≡ start ∷ []
    → IsHooked g callers
    → IsChain m.fibers callers
    → NoErrors m.fibers callers
    → IsDistinct (current ∷ callers)
    → GoesOn (return_from m current v)
ended-GoesOn m current [] v start g at f (c, r) chain o d =
    rw (return_from-last m current start v g at f c) (has_succeeded _)
ended-GoesOn m current (p ∷ rest) v start g at f (c, r) chain o (n, d) =
    rw (return_from-caller m current start p v g at f c)
      (goes_on _ (resumed m current p rest v end n chain o d))

pub return-GoesOn :
    (m : Machine) (k : IsRunning m) (v : Passed) → GoesOn (return_from m k.current v)
unfolding return_frame
return-GoesOn m k v =
    let (g, at, p, w) = k.chain.0 in
    elim (List-cases g.frames) [
      | inl z ↦ absurd (omega (arith, ap length z))
      | inr (start, rest, f) ↦ elim (List-cases rest) [
        | inl z ↦
            ended-GoesOn m k.current k.callers v start g at (f ∙ ap (λ r. start ∷ r) z) w
              (k.chain.1) (k.no_errors.1) k.distinct
        | inr (frame, frames, q) ↦
            rw (return_from-frame m k.current start frame frames v g at (f ∙ ap (λ r. start ∷ r) q))
              (goes_on _ (
                frame-IsRunning m k.current k.callers (return_frame v start (frame ∷ frames)) g
                  k.now at (omega arith) (λ g. refl) (λ g. refl) (λ g. refl) k.chain k.no_errors
                  k.distinct))
      ]
    ]
