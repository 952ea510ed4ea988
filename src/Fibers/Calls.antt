-- ===== src/Fibers/Calls.antt =====
-- `runFiber` as a call (wren_core.c): an error of the current fiber, or the target in front of the chain.
use wrenegade.Base.{
  ℕ, ◌<◌, ◌≡◌, refl, inl, inr, Bool, true, false, Option, none, some, List, ◌∷◌, length, drop,
  get_elem?, arith, In, IsDistinct, ◌==◌, if◌then◌else◌, Bool-cases,
}
use mathlib.Core.Option
use wrenegade.Fibers.{
  Message, aborted_fiber, already_called, call_root, finished_fiber, Passed, error_message, Fiber,
  Machine, modify, change, is_some, is_root, with_error, with_caller, or_null, receive, raise,
  enter, run_fiber,
}
use wrenegade.Fibers.Chain.{
  get_elem?-modify_self, IsChain, NoErrors, IsHarmless, IsChain-harmless, IsChain-other,
  NoErrors-other, NoErrors-keep, not-In-IsChain, IsRunning,
}
use wrenegade.Fibers.Handling.{IsHandled, handled, with_error-IsHandled}

-- A call leaves an error in the current fiber, or puts the target before it.
pub data IsCalled (current : ℕ) (callers : List ℕ) (target : ℕ) (m : Machine) : Type 0 where
  refused :
      (g : Fiber)
      → m.fiber ≡ some current
      → get_elem? m.fibers current ≡ some g
      → is_some g.error ≡ true
      → IsHandled m
      → IsCalled current callers target m
  entered :
      m.fiber ≡ some target
      → IsChain m.fibers (target ∷ current ∷ callers)
      → NoErrors m.fibers (target ∷ current ∷ callers)
      → IsDistinct (target ∷ current ∷ callers)
      → IsCalled current callers target m

raise-IsCalled :
    (m : Machine) (e : Message) (current : ℕ) (callers : List ℕ) (target : ℕ)
    → m.fiber ≡ some current
    → IsChain m.fibers (current ∷ callers)
    → NoErrors m.fibers callers
    → IsDistinct (current ∷ callers)
    → IsCalled current callers target (raise m current e)
raise-IsCalled m e current callers target now (l, c) o d =
    refused (with_error (error_message e) (l.0)) now
      (get_elem?-modify_self m.fibers current (with_error (error_message e)) (l.0) (l.1)) refl
      (with_error-IsHandled m (error_message e) current callers now (l, c) o d)

-- What `runFiber` does to the stacks.
pub record IsStackOnly (h : Fiber → Fiber) : Type 0 where
  pub is_harmless : IsHarmless h
  pub error : (g : Fiber) → (h g).error ≡ g.error

pub stack-IsStackOnly : (s : Fiber → List Passed) → IsStackOnly (λ g. record g { stack = s g })
stack-IsStackOnly s = record {
  is_harmless = record { frames = λ g. refl; caller = λ g. refl; state = λ g. refl };
  error = λ g. refl;
}

choose-IsStackOnly :
    (b : Fiber → Bool) (h k : Fiber → Fiber)
    → IsStackOnly h
    → IsStackOnly k
    → IsStackOnly (λ g. if b g then h g else k g)
choose-IsStackOnly b h k p q = record {
  is_harmless = record {
    frames = λ g. elim (Bool-cases (b g)) [
      | inl t ↦ rw t (p.is_harmless.frames g)
      | inr t ↦ rw t (q.is_harmless.frames g)
    ];
    caller = λ g. elim (Bool-cases (b g)) [
      | inl t ↦ rw t (p.is_harmless.caller g)
      | inr t ↦ rw t (q.is_harmless.caller g)
    ];
    state = λ g. elim (Bool-cases (b g)) [
      | inl t ↦ rw t (p.is_harmless.state g)
      | inr t ↦ rw t (q.is_harmless.state g)
    ];
  };
  error = λ g. elim (Bool-cases (b g)) [ inl t ↦ rw t (p.error g) | inr t ↦ rw t (q.error g) ];
}

pub receive-IsStackOnly : (v : Option Passed) → IsStackOnly (receive v)
unfolding receive
receive-IsStackOnly v =
    choose-IsStackOnly _ _ _
      (choose-IsStackOnly _ _ _ (stack-IsStackOnly (λ g. or_null v ∷ g.stack))
        (stack-IsStackOnly (λ g. g.stack)))
      (stack-IsStackOnly (λ g. or_null v ∷ drop 1 g.stack))

pub IsChain-stack :
    (h : Fiber → Fiber)
    → IsStackOnly h
    → (fs : List Fiber) (i : ℕ) (path : List ℕ) → IsChain fs path × NoErrors fs path
    → IsChain (modify fs i h) path × NoErrors (modify fs i h) path
IsChain-stack h k fs i path (c, o) =
    (IsChain-harmless h k.is_harmless fs i path c, NoErrors-keep h k.error fs i path o)

enter-IsCalled :
    (m : Machine) (current : ℕ) (callers : List ℕ) (target : ℕ) (value : Option Passed)
    → IsChain m.fibers (target ∷ current ∷ callers) × NoErrors m.fibers (target ∷ current ∷ callers)
    → IsDistinct (target ∷ current ∷ callers)
    → IsCalled current callers target (enter m current target value)
unfolding enter
enter-IsCalled m current callers target none c d =
    let r =
      IsChain-stack (receive none) (receive-IsStackOnly none) m.fibers target
        (target ∷ current ∷ callers) c in
    entered refl (r.0) (r.1) d
enter-IsCalled m current callers target (some v) c d =
    let p =
      IsChain-stack (λ g. record g { stack = drop 1 g.stack })
        (stack-IsStackOnly (λ g. drop 1 g.stack)) m.fibers current (target ∷ current ∷ callers) c in
    let r =
      IsChain-stack (receive (some v)) (receive-IsStackOnly (some v)) _ target
        (target ∷ current ∷ callers) p in
    entered refl (r.0) (r.1) d

-- The outcomes of a call, one lemma for each.
abbrev pub Calls : Machine → ℕ → List ℕ → ℕ → Option Passed → Type 0
Calls m current callers target value =
    (m' : Machine) × (run_fiber m current target value true ≡ some m')
    × IsCalled current callers target m'

call-aborted :
    (m : Machine) (current target : ℕ) (value : Option Passed) (g : Fiber)
    → get_elem? m.fibers target ≡ some g
    → is_some g.error ≡ true
    → run_fiber m current target value true ≡ some (raise m current aborted_fiber)
unfolding run_fiber Option.bind
call-aborted m current target value g at e = rw (run_fiber, at, e) refl

call-called :
    (m : Machine) (current target : ℕ) (value : Option Passed) (g : Fiber)
    → get_elem? m.fibers target ≡ some g
    → is_some g.error ≡ false
    → is_some g.caller ≡ true
    → run_fiber m current target value true ≡ some (raise m current already_called)
unfolding run_fiber Option.bind
call-called m current target value g at e c = rw (run_fiber, at, e, c) refl

call-root :
    (m : Machine) (current target : ℕ) (value : Option Passed) (g : Fiber)
    → get_elem? m.fibers target ≡ some g
    → is_some g.error ≡ false
    → is_some g.caller ≡ false
    → is_root g.state ≡ true
    → run_fiber m current target value true ≡ some (raise m current call_root)
unfolding run_fiber Option.bind
call-root m current target value g at e c r = rw (run_fiber, at, e, c, r) refl

abbrev pub noted : Machine → ℕ → ℕ → Machine
noted m current target = change m target (with_caller (some current))

call-finished :
    (m : Machine) (current target : ℕ) (value : Option Passed) (g : Fiber)
    → get_elem? m.fibers target ≡ some g
    → is_some g.error ≡ false
    → is_some g.caller ≡ false
    → is_root g.state ≡ false
    → (length g.frames == 0) ≡ true
    → run_fiber m current target value true
      ≡ some (raise (noted m current target) current finished_fiber)
unfolding run_fiber Option.bind
call-finished m current target value g at e c r f = rw (run_fiber, at, e, c, r, f) refl

pub call-enter :
    (m : Machine) (current target : ℕ) (value : Option Passed) (g : Fiber)
    → get_elem? m.fibers target ≡ some g
    → is_some g.error ≡ false
    → is_some g.caller ≡ false
    → is_root g.state ≡ false
    → (length g.frames == 0) ≡ false
    → run_fiber m current target value true
      ≡ some (enter (noted m current target) current target value)
unfolding run_fiber Option.bind
call-enter m current target value g at e c r f = rw (run_fiber, at, e, c, r, f) refl

-- A fiber that is not yet called goes in front of the chain.
noted-IsChain :
    (m : Machine) (current : ℕ) (callers : List ℕ) (target : ℕ) (g : Fiber)
    → get_elem? m.fibers target ≡ some g
    → is_root g.state ≡ false
    → g.error ≡ none
    → 0 < length g.frames
    → (In target (current ∷ callers) → ⊥)
    → IsChain m.fibers (current ∷ callers) × NoErrors m.fibers (current ∷ callers)
    → IsChain (noted m current target).fibers (target ∷ current ∷ callers)
      × NoErrors (noted m current target).fibers (target ∷ current ∷ callers)
noted-IsChain m current callers target g at r e p n (c, o) =
    let h = with_caller (some current) in
    let here = get_elem?-modify_self m.fibers target h g at in
    (
      ((h g, here, p, (refl, r)), IsChain-other h m.fibers target (current ∷ callers) n c),
      ((h g, here, e), NoErrors-other h m.fibers target (current ∷ callers) n o),
    )

none_of : {A : Type 0} (o : Option A) → is_some o ≡ false → o ≡ none
none_of none e = refl
none_of (some a) e = cc

refuse :
    (m : Machine) (k : IsRunning m) (target : ℕ) (e : Message)
    → IsCalled k.current k.callers target (raise m k.current e)
refuse m k target e =
    raise-IsCalled m e k.current k.callers target k.now k.chain (k.no_errors.1) k.distinct

pub run_fiber-Calls :
    (m : Machine) (k : IsRunning m) (target : ℕ) (value : Option Passed) (g : Fiber)
    → get_elem? m.fibers target ≡ some g
    → Calls m k.current k.callers target value
run_fiber-Calls m k target value g at = elim (Bool-cases (is_some g.error)) [
  | inl e ↦ (_, call-aborted m k.current target value g at e, refuse m k target aborted_fiber)
  | inr e ↦ elim (Bool-cases (is_some g.caller)) [
    | inl c ↦ (_, call-called m k.current target value g at e c, refuse m k target already_called)
    | inr c ↦ elim (Bool-cases (is_root g.state)) [
      | inl r ↦ (_, call-root m k.current target value g at e c r, refuse m k target call_root)
      | inr r ↦
          let h = with_caller (some k.current) in
          let new =
            not-In-IsChain m.fibers target g (k.current ∷ k.callers) at
              (inl (none_of g.caller c, r)) k.chain in
          elim (Bool-cases (length g.frames == 0)) [
            | inl f ↦ (
              _,
              call-finished m k.current target value g at e c r f,
              raise-IsCalled (noted m k.current target) finished_fiber k.current k.callers target
                  k.now (IsChain-other h m.fibers target (k.current ∷ k.callers) new k.chain)
                  (NoErrors-other h m.fibers target k.callers (λ i. new (inr i)) (k.no_errors.1))
                  k.distinct,
            )
            | inr f ↦ (
              _,
              call-enter m k.current target value g at e c r f,
              enter-IsCalled (noted m k.current target) k.current k.callers target value
                  (noted-IsChain m k.current k.callers target g at r (none_of g.error e)
                    (ground (arith, f)) new (k.chain, k.no_errors))
                  (new, k.distinct),
            )
          ]
    ]
  ]
]

pub IsCalled-IsHandled :
    (current : ℕ) (callers : List ℕ) (target : ℕ) (m : Machine)
    → IsCalled current callers target m
    → IsHandled m
IsCalled-IsHandled current callers target m (refused g now at e h) = h
IsCalled-IsHandled current callers target m (entered now c o d) =
    handled target (current ∷ callers) now c (o.1) d
