-- ===== src/Fibers/Errors.antt =====
-- A runtime error unwinds the chain of callers to the one that tries the fiber, or to the end.
use wrenegade.Base.{
  ℕ, zero, suc, sym, Bool, Option, ◌+◌, ◌≤◌, ◌<◌, ◌≡◌, refl, ap, ◌∙◌, ◌⊎◌, inl, inr, true, false,
  none, some, List, [], ◌∷◌, length, get_elem?, arith, In, IsDistinct, if◌then◌else◌, Bool-cases,
}
use mathlib.Core.Option
use wrenegade.Fibers.{
  Passed, Fiber, FiberState, fiber_try, fiber_root, fiber_other, Machine, is_root, is_some, is_try,
  modify, change, replace_top, with_error, with_caller, unwind, runtime_error,
}
use mathlib.Core.Path.{subst}
use wrenegade.Fibers.Chain.{
  get_elem?-modify_self, get_elem?-modify_other, IsLink, IsChain, NoErrors, IsHarmless,
  IsChain-harmless, IsChain-other, NoErrors-other, NoErrors-keep, IsRunning,
}

-- How many fibers have a caller.
abbrev pub hooked : List Fiber → ℕ
hooked [] = 0
hooked (g ∷ gs) = (if is_some g.caller then 1 else 0) + hooked gs

hooked-le_length : (fs : List Fiber) → hooked fs ≤ length fs
hooked-le_length [] = omega arith
hooked-le_length (g ∷ gs) = ground (arith, hooked-le_length gs)

-- Unhooking a fiber that has a caller, marked with an error.
hooked-unhook :
    (fs : List Fiber) (i : ℕ) (g : Fiber) (e : Passed)
    → get_elem? fs i ≡ some g
    → is_some g.caller ≡ true
    → hooked (modify (modify fs i (with_error e)) i (with_caller none)) + 1 ≡ hooked fs
hooked-unhook [] i g e h c = ground (arith, h)
hooked-unhook (x ∷ xs) zero g e h c = ground (arith, h, c)
hooked-unhook (x ∷ xs) (suc i) g e h c = ground (arith, hooked-unhook xs i g e h c)

pub with_error-IsHarmless : (e : Passed) → IsHarmless (with_error e)
with_error-IsHarmless e = record { frames = λ g. refl; caller = λ g. refl; state = λ g. refl }

pub replace_top-IsHarmless : (v : Passed) → IsHarmless (replace_top v)
replace_top-IsHarmless v = record { frames = λ g. refl; caller = λ g. refl; state = λ g. refl }

-- The machine stops, or goes on with a fiber that can be resumed.
abbrev pub StopsOrRuns : Machine → Type 0
StopsOrRuns m = (m.fiber ≡ none) ⊎ IsRunning m

-- The callers go on as they were when a fiber that they do not hold is changed.
resumed-IsChain :
    (m : Machine) (i caller : ℕ) (rest : List ℕ) (v : Passed) (h : Fiber → Fiber)
    → (In i (caller ∷ rest) → ⊥)
    → IsChain m.fibers (caller ∷ rest)
    → NoErrors m.fibers (caller ∷ rest)
    → IsChain (modify (modify m.fibers i h) caller (replace_top v)) (caller ∷ rest)
      × NoErrors (modify (modify m.fibers i h) caller (replace_top v)) (caller ∷ rest)
resumed-IsChain m i caller rest v h n c o = (
  IsChain-harmless (replace_top v) (replace_top-IsHarmless v) _ caller (caller ∷ rest)
      (IsChain-other h m.fibers i (caller ∷ rest) n c),
  NoErrors-keep (replace_top v) (λ g. refl) _ caller (caller ∷ rest)
      (NoErrors-other h m.fibers i (caller ∷ rest) n o),
)

-- The callers go on as they were when a fiber that they do not hold is changed twice.
pub resumed :
    (m : Machine) (i caller : ℕ) (rest : List ℕ) (v : Passed) (h : Fiber → Fiber)
    → (In i (caller ∷ rest) → ⊥)
    → IsChain m.fibers (caller ∷ rest)
    → NoErrors m.fibers (caller ∷ rest)
    → IsDistinct (caller ∷ rest)
    → IsRunning (record (change (change m i h) caller (replace_top v)) { fiber = some caller })
resumed m i caller rest v h n c o d = record {
  current = caller;
  callers = rest;
  now = refl;
  chain = (resumed-IsChain m i caller rest v h n c o).0;
  no_errors = (resumed-IsChain m i caller rest v h n c o).1;
  distinct = d;
}

root_not_try : (s : FiberState) → is_root s ≡ true → is_try s ≡ false
root_not_try fiber_root e = refl
root_not_try fiber_try e = cc
root_not_try fiber_other e = refl

-- The last fiber of the chain.
unwind-end :
    (fuel : ℕ) (m : Machine) (current : ℕ) (e : Passed) (g : Fiber)
    → get_elem? m.fibers current ≡ some g
    → is_try g.state ≡ false
    → g.caller ≡ none
    → unwind (suc fuel) m current e
      ≡ some (record (change (change m current (with_error e)) current (with_caller none)) {
        fiber = none;
      })
unfolding unwind Option.bind
unwind-end fuel m current e g at t c = rw (unwind, at, t, c) refl

unwind-try :
    (fuel : ℕ) (m : Machine) (current caller : ℕ) (e : Passed) (g : Fiber)
    → get_elem? m.fibers current ≡ some g
    → is_try g.state ≡ true
    → g.caller ≡ some caller
    → unwind (suc fuel) m current e
      ≡ some (record (change (change m current (with_error e)) caller (replace_top e)) {
        fiber = some caller;
      })
unfolding unwind Option.bind
unwind-try fuel m current caller e g at t c = rw (unwind, at, t, c) refl

unwind-next :
    (fuel : ℕ) (m : Machine) (current caller : ℕ) (e : Passed) (g : Fiber)
    → get_elem? m.fibers current ≡ some g
    → is_try g.state ≡ false
    → g.caller ≡ some caller
    → unwind (suc fuel) m current e
      ≡ unwind fuel (change (change m current (with_error e)) current (with_caller none)) caller e
unfolding unwind Option.bind
unwind-next fuel m current caller e g at t c = rw (unwind, at, t, c) refl

-- Along a chain the loop ends, and the callers that are left can be resumed.
unwind-StopsOrRuns :
    (fuel : ℕ) (m : Machine) (current : ℕ) (rest : List ℕ) (e : Passed)
    → hooked m.fibers < fuel
    → IsLink m.fibers current rest
    → IsChain m.fibers rest
    → NoErrors m.fibers rest
    → IsDistinct (current ∷ rest)
    → (m' : Machine) × (unwind fuel m current e ≡ some m') × StopsOrRuns m'
unwind-StopsOrRuns zero m current rest e h l c o d = absurd (omega arith)
unwind-StopsOrRuns (suc fuel) m current [] e h (g, at, p, (caller, root)) c o d =
    (_, unwind-end fuel m current e g at (root_not_try g.state root) caller, inl refl)
unwind-StopsOrRuns (suc fuel) m current (next ∷ rest) e h (g, at, p, (caller, root)) c o (n, d) =
    elim (Bool-cases (is_try g.state)) [
      | inl t ↦ (
        _,
        unwind-try fuel m current next e g at t caller,
        inr (resumed m current next rest e (with_error e) n c o d),
      )
      | inr t ↦
          let marked = modify m.fibers current (with_error e) in
          let chain =
            IsChain-other (with_caller none) marked current (next ∷ rest) n
              (IsChain-other (with_error e) m.fibers current (next ∷ rest) n c) in
          let errors =
            NoErrors-other (with_caller none) marked current (next ∷ rest) n
              (NoErrors-other (with_error e) m.fibers current (next ∷ rest) n o) in
          let (m', run, ends) =
            unwind-StopsOrRuns fuel
              (change (change m current (with_error e)) current (with_caller none)) next rest e
              (omega (arith, hooked-unhook m.fibers current g e at (ap is_some caller))) chain.0
              chain.1 errors.1 d in
          (m', unwind-next fuel m current next e g at t caller ∙ run, ends)
    ]

pub runtime_error-StopsOrRuns :
    (m : Machine) (current : ℕ) (rest : List ℕ) (e : Passed)
    → IsLink m.fibers current rest
    → IsChain m.fibers rest
    → NoErrors m.fibers rest
    → IsDistinct (current ∷ rest)
    → (m' : Machine) × (runtime_error m current e ≡ some m') × StopsOrRuns m'
unfolding runtime_error
runtime_error-StopsOrRuns m current rest e =
    unwind-StopsOrRuns (length m.fibers + 1) m current rest e
      (omega (arith, hooked-le_length m.fibers))

abbrev tries : List Fiber → ℕ → Bool
tries fs i = elim (get_elem? fs i) [ none ↦ false | some g ↦ is_try g.state ]

-- Along the callers, the caller of the first fiber that it tries, with its own callers.
abbrev pub catcher : List Fiber → ℕ → List ℕ → Option (ℕ × List ℕ)
catcher fs current [] = none
catcher fs current (next ∷ rest) =
    let further = catcher fs next rest in if tries fs current then some (next, rest) else further

-- The error went to the one that catches it, on its stack, or no fiber is left.
pub data Unwound (e : Passed) (m : Machine) : Option (ℕ × List ℕ) → Type 0 where
  uncaught : m.fiber ≡ none → Unwound e m none
  caught :
      (caller : ℕ) (rest : List ℕ) (g : Fiber)
      → m.fiber ≡ some caller
      → get_elem? m.fibers caller ≡ some g
      → get_elem? g.stack 0 ≡ some e
      → IsChain m.fibers (caller ∷ rest)
      → NoErrors m.fibers (caller ∷ rest)
      → Unwound e m (some (caller, rest))

tries-other :
    (h : Fiber → Fiber) (fs : List Fiber) (i j : ℕ)
    → (i ≡ j → ⊥)
    → tries (modify fs i h) j ≡ tries fs j
tries-other h fs i j n =
    ap (λ o. elim o as (λ x. Bool) [ none ↦ false | some g ↦ is_try g.state ])
      (get_elem?-modify_other fs i j h n)

catcher-other :
    (h : Fiber → Fiber) (fs : List Fiber) (i current : ℕ) (rest : List ℕ)
    → (In i (current ∷ rest) → ⊥)
    → catcher (modify fs i h) current rest ≡ catcher fs current rest
catcher-other h fs i current [] n = refl
catcher-other h fs i current (next ∷ rest) n =
    let here = tries-other h fs i current (λ d. n (inl (sym d))) in
    let further = catcher-other h fs i next rest (λ k. n (inr k)) in
    rw (catcher, here, further) refl

catcher-try :
    (fs : List Fiber) (current next : ℕ) (rest : List ℕ) (g : Fiber)
    → get_elem? fs current ≡ some g
    → is_try g.state ≡ true
    → catcher fs current (next ∷ rest) ≡ some (next, rest)
catcher-try fs current next rest g at t = rw (catcher, tries, at, t) refl

catcher-next :
    (fs : List Fiber) (current next : ℕ) (rest : List ℕ) (g : Fiber)
    → get_elem? fs current ≡ some g
    → is_try g.state ≡ false
    → catcher fs current (next ∷ rest) ≡ catcher fs next rest
catcher-next fs current next rest g at t = rw (catcher, tries, at, t) refl

unwind-Unwound :
    (fuel : ℕ) (m : Machine) (current : ℕ) (rest : List ℕ) (e : Passed)
    → hooked m.fibers < fuel
    → IsLink m.fibers current rest
    → IsChain m.fibers rest
    → NoErrors m.fibers rest
    → IsDistinct (current ∷ rest)
    → (m' : Machine) × (unwind fuel m current e ≡ some m')
      × Unwound e m' (catcher m.fibers current rest)
unwind-Unwound zero m current rest e h l c o d = absurd (omega arith)
unwind-Unwound (suc fuel) m current [] e h (g, at, p, (caller, root)) c o d =
    (_, unwind-end fuel m current e g at (root_not_try g.state root) caller, uncaught refl)
unwind-Unwound (suc fuel) m current (next ∷ rest) e h (g, at, p, (caller, root))
      ((k, here, l, w), c) o (n, d) =
    elim (Bool-cases (is_try g.state)) [
      | inl t ↦
          let marked = modify m.fibers current (with_error e) in
          let there =
            get_elem?-modify_other m.fibers current next (with_error e) (λ d. n (inl (sym d)))
            ∙ here in
          let (chain, errors) =
            resumed-IsChain m current next rest e (with_error e) n ((k, here, l, w), c) o in
          (
            _,
            unwind-try fuel m current next e g at t caller,
            subst (Unwound e _) (sym (catcher-try m.fibers current next rest g at t)) (
                caught next rest (replace_top e k) refl
                  (get_elem?-modify_self marked next (replace_top e) k there) refl chain errors),
          )
      | inr t ↦
          let marked = modify m.fibers current (with_error e) in
          let chain =
            IsChain-other (with_caller none) marked current (next ∷ rest) n (
              IsChain-other (with_error e) m.fibers current (next ∷ rest) n ((k, here, l, w), c)) in
          let errors =
            NoErrors-other (with_caller none) marked current (next ∷ rest) n
              (NoErrors-other (with_error e) m.fibers current (next ∷ rest) n o) in
          let (m', run, ends) =
            unwind-Unwound fuel
              (change (change m current (with_error e)) current (with_caller none)) next rest e
              (omega (arith, hooked-unhook m.fibers current g e at (ap is_some caller))) chain.0
              chain.1 errors.1 d in
          let same =
            catcher-other (with_caller none) marked current next rest n
            ∙ catcher-other (with_error e) m.fibers current next rest n
            ∙ sym (catcher-next m.fibers current next rest g at t) in
          (
            m',
            unwind-next fuel m current next e g at t caller ∙ run,
            subst (Unwound e m') same ends,
          )
    ]

-- At an error in a fiber whose callers are a chain of distinct fibers to the root, each with a
-- call frame and no error, the walk along the callers ends; of the fiber and its callers, the
-- first that is run by a try, if it has a caller, gives the error to that caller, which then is
-- the current fiber, with the error at the top of its stack and at the start of the chain of its
-- own callers, all with a call frame and no error; if there is none, no fiber is current
pub runtime_error-Unwound :
    (m : Machine) (current : ℕ) (rest : List ℕ) (e : Passed)
    → IsLink m.fibers current rest
    → IsChain m.fibers rest
    → NoErrors m.fibers rest
    → IsDistinct (current ∷ rest)
    → (m' : Machine) × (runtime_error m current e ≡ some m')
      × Unwound e m' (catcher m.fibers current rest)
unfolding runtime_error
runtime_error-Unwound m current rest e =
    unwind-Unwound (length m.fibers + 1) m current rest e (omega (arith, hooked-le_length m.fibers))
