-- ===== src/Closures/Tests.antt =====
-- Two closures over one variable, which then goes out of scope.
use wrenegade.Base.{
  ℕ, zero, suc, ◌≡◌, refl, inl, inr, arith, some, List, [], ◌∷◌, get_elem?, take, In,
}
use mathlib.Core.Option
use wrenegade.Closures.{
  Upvalue, open_at, closed, Variables, open_slot, walk, capture_upvalue, close_from, close_upvalues,
  discard_from, load_upvalue, store_upvalue,
}
use wrenegade.Closures.Lists.{IsValid}
use wrenegade.Closures.Close.{discard_from-Keeps}
use wrenegade.Closures.Capture.{Captured, capture_upvalue-Captures}
use wrenegade.Closures.Store.{Stores, store_upvalue-Stores}

-- Upvalue 0 is closed, 1 and 2 are open at the slots 3 and 1.
abbrev variables : Variables ℕ
variables = record {
  stack = 10 ∷ 11 ∷ 12 ∷ 13 ∷ [];
  upvalues = closed 7 ∷ open_at 3 ∷ open_at 1 ∷ [];
  open_upvalues = 1 ∷ 2 ∷ [];
}

run : Unit {0}
unfolding open_slot walk capture_upvalue close_from close_upvalues discard_from load_upvalue
    store_upvalue Option.bind
run = tt

captured :
    Option.bind {B = ℕ × List ℕ} (capture_upvalue variables 2) (λ r. some (r.1, r.0.open_upvalues))
    ≡ some (3, 1 ∷ 3 ∷ 2 ∷ [])
unfolding run
captured = refl

discarded :
    Option.bind {B = List ℕ × List (Upvalue ℕ) × List ℕ}
      (discard_from variables 1)
      (λ m. some (m.stack, m.upvalues, m.open_upvalues))
    ≡ some (10 ∷ [], closed 7 ∷ closed 13 ∷ closed 11 ∷ [], [])
unfolding run
discarded = refl

variables_complete :
    (u slot : ℕ)
    → get_elem? variables.upvalues u ≡ some (open_at slot)
    → In u variables.open_upvalues
variables_complete zero slot e = cc
variables_complete (suc zero) slot e = inl refl
variables_complete (suc (suc zero)) slot e = inr (inl refl)
variables_complete (suc (suc (suc u))) slot e = cc

variables-IsValid : IsValid variables
variables-IsValid = record {
  descending = (3, refl, omega arith, (1, refl, omega arith, tt));
  complete = variables_complete;
}

capture_upvalue-Captures_example : Captured variables 2
capture_upvalue-Captures_example =
    capture_upvalue-Captures variables 2 variables-IsValid (omega arith)

discard_from-Keeps_example :
    (m : Variables ℕ) × (discard_from variables 1 ≡ some m)
    × (m.stack ≡ take 1 variables.stack)
    × IsValid m
    × ((u : ℕ) (a : ℕ) → load_upvalue variables u ≡ some a → load_upvalue m u ≡ some a)
discard_from-Keeps_example = discard_from-Keeps variables 1 variables-IsValid (omega arith)

store_upvalue-Stores_example :
    (m : Variables ℕ) × (store_upvalue variables 2 5 ≡ some m) × Stores variables 2 5 m
unfolding run
store_upvalue-Stores_example = store_upvalue-Stores variables 2 5 11 variables-IsValid refl
