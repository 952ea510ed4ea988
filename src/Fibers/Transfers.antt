-- ===== src/Fibers/Transfers.antt =====
-- A fiber that was transferred to has no caller, and `runFiber` (wren_core.c) lets it call itself.
use wrenegade.Base.{
  ℕ, ◌≡◌, ◌∙◌, refl, ap, Bool-cases, inl, inr, false, Option, none, some, [], ◌∷◌, length,
  get_elem?, ◌==◌, ◌&&◌,
}
use mathlib.Core.Option
use wrenegade.Fibers.{
  Passed, Fiber, Machine, running, is_root, is_some, receive, enter, change, with_caller,
  store_frame, replace_top, after_primitive, load_fiber,
}
use wrenegade.Fibers.Chain.{get_elem?-modify_self}
use wrenegade.Fibers.Calls.{call-enter, receive-IsStackOnly, noted}
use wrenegade.Fibers.Returns.{return_from-caller, end}
use wrenegade.Fibers.Interpreter.{perform, call, return_value}

receive-frames : (v : Option Passed) (g : Fiber) → (receive v g).frames ≡ g.frames
unfolding receive
receive-frames v g = elim (Bool-cases (length g.frames == 1 && g.is_at_start)) [
  | inl s ↦ elim (Bool-cases (g.arity == 1)) [
    | inl t ↦ rw (receive, s, t) refl
    | inr t ↦ rw (receive, s, t) refl
  ]
  | inr s ↦ rw (receive, s) refl
]

-- The fiber as it goes on.
self_called : ℕ → Fiber → Fiber
self_called current g = store_frame (receive none (with_caller (some current) g))

load_fiber-running :
    (m : Machine) (current : ℕ) (g : Fiber)
    → m.fiber ≡ some current
    → get_elem? m.fibers current ≡ some g
    → g.error ≡ none
    → load_fiber m ≡ some (running m)
unfolding load_fiber Option.bind
load_fiber-running m current g now at e =
    rw (load_fiber, now, at, e) (ap (λ f. some (running (record m { fiber = f }))) now)

self_called-frames : (current : ℕ) (g : Fiber) → (self_called current g).frames ≡ g.frames
unfolding self_called
self_called-frames current g = receive-frames none (with_caller (some current) g)

self_called-caller : (current : ℕ) (g : Fiber) → (self_called current g).caller ≡ some current
unfolding self_called
self_called-caller current g =
    (receive-IsStackOnly none).is_harmless.caller (with_caller (some current) g)

after_primitive-running :
    (m : Machine) (current : ℕ) (g : Fiber)
    → m.fiber ≡ some current
    → get_elem? m.fibers current ≡ some g
    → g.error ≡ none
    → after_primitive current m ≡ some (running (change m current store_frame))
unfolding after_primitive
after_primitive-running m current g now at e =
    load_fiber-running (change m current store_frame) current (store_frame g) now
      (get_elem?-modify_self m.fibers current store_frame g at) e

abbrev entered_machine : Machine → ℕ → Machine
entered_machine m current =
    change (enter (noted m current current) current current none) current store_frame

self_called-fiber :
    (m : Machine) (current : ℕ) (g : Fiber)
    → get_elem? m.fibers current ≡ some g
    → get_elem? (entered_machine m current).fibers current ≡ some (self_called current g)
unfolding enter self_called
self_called-fiber m current g at = get_elem?-modify_self _ current store_frame _ (
    get_elem?-modify_self _ current (receive none) _
      (get_elem?-modify_self m.fibers current (with_caller (some current)) g at))

perform-self_call :
    (m : Machine) (current start : ℕ) (g : Fiber)
    → get_elem? m.fibers current ≡ some g
    → g.error ≡ none
    → g.caller ≡ none
    → is_root g.state ≡ false
    → g.frames ≡ start ∷ []
    → perform (call current none) m current ≡ some (running (entered_machine m current))
unfolding perform Option.bind enter
perform-self_call m current start g at e c r f =
    let run =
      call-enter m current current none g at (ap is_some e) (ap is_some c) r
        (ap (λ l. length l == 0) f) in
    let here =
      get_elem?-modify_self _ current (receive none) _
        (get_elem?-modify_self m.fibers current (with_caller (some current)) g at) in
    rw (perform, run)
      (after_primitive-running _ current _ refl here
        ((receive-IsStackOnly none).error (with_caller (some current) g) ∙ e))

-- A fiber with one call frame, no error and no caller that is no root fiber can call itself
-- while it is current, and then its return makes it the current fiber again, with no call frame
-- left.
pub self_call-loses_frame :
    (m : Machine) (current start : ℕ) (g : Fiber) (v : Passed)
    → get_elem? m.fibers current ≡ some g
    → g.error ≡ none
    → g.caller ≡ none
    → is_root g.state ≡ false
    → g.frames ≡ start ∷ []
    → (called : Machine) × (perform (call current none) m current ≡ some (running called))
      × (returned : Machine) × (perform (return_value v) called current ≡ some (running returned))
      × (returned.fiber ≡ some current)
      × (g' : Fiber) × (get_elem? returned.fibers current ≡ some g')
      × (g'.frames ≡ [])
unfolding perform
self_call-loses_frame m current start g v at e c r f =
    let here = self_called-fiber m current g at in
    (
      entered_machine m current,
      perform-self_call m current start g at e c r f,
      _,
      return_from-caller (entered_machine m current) current start current v (self_called current g)
          here (self_called-frames current g ∙ f) (self_called-caller current g),
      refl,
      _,
      get_elem?-modify_self _ current (replace_top v) _
          (get_elem?-modify_self _ current end (self_called current g) here),
      refl,
    )
