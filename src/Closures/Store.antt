-- ===== src/Closures/Store.antt =====
-- A write through an upvalue, which reaches one variable.
use wrenegade.Base.{
  ℕ, ◌≡◌, refl, sym, ap, ◌∙◌, inl, inr, Option-cases, some, List, length, get_elem?, set,
  length-set, get_elem?-set_self, get_elem?-set_other,
}
use mathlib.Core.Option
use mathlib.Core.Path.{subst}
use native.Mathlib.Decide.{ℕ_discrete}
use wrenegade.Closures.{Upvalue, open_at, closed, Variables, load_upvalue, store_upvalue}
use wrenegade.Closures.Lists.{IsDescending, IsDescending-keep, IsValid}
use wrenegade.Closures.Close.{value_at, load_upvalue_at, load_upvalue-none, loaded}
use wrenegade.Closures.Capture.{unique_in}

-- What a write promises.
pub record Stores {A : Type 0} (m : Variables A) (u : ℕ) (a : A) (m' : Variables A) : Type 0 where
  pub is_valid : IsValid m'
  pub reads : load_upvalue m' u ≡ some a
  pub others : (w : ℕ) → (u ≡ w → ⊥) → load_upvalue m' w ≡ load_upvalue m w

-- Two machines where an upvalue is the same and has the same value.
load_same :
    {A : Type 0} (m m' : Variables A) (w : ℕ)
    → get_elem? m'.upvalues w ≡ get_elem? m.upvalues w
    → ((v : Upvalue A) → get_elem? m.upvalues w ≡ some v → value_at m'.stack v ≡ value_at m.stack v)
    → load_upvalue m' w ≡ load_upvalue m w
load_same m m' w e f = elim (Option-cases (get_elem? m.upvalues w)) [
  | inl n ↦ load_upvalue-none m' w (e ∙ n) ∙ sym (load_upvalue-none m w n)
  | inr (v, at) ↦ load_upvalue_at m' w v (e ∙ at) ∙ f v at ∙ sym (load_upvalue_at m w v at)
]

store_open :
    {A : Type 0} (m : Variables A) (u slot : ℕ) (a : A)
    → get_elem? m.upvalues u ≡ some (open_at slot)
    → store_upvalue m u a ≡ some (record m { stack = set m.stack slot a })
unfolding store_upvalue Option.bind
store_open m u slot a at = rw (store_upvalue, at) refl

store_closed :
    {A : Type 0} (m : Variables A) (u : ℕ) (a b : A)
    → get_elem? m.upvalues u ≡ some (closed b)
    → store_upvalue m u a ≡ some (record m { upvalues = set m.upvalues u (closed a) })
unfolding store_upvalue Option.bind
store_closed m u a b at = rw (store_upvalue, at) refl

-- An upvalue other than the one that is written is not at its slot.
other_value :
    {A : Type 0} (m : Variables A) (u slot : ℕ) (a : A) (w : ℕ) (v : Upvalue A)
    → IsValid m
    → get_elem? m.upvalues u ≡ some (open_at slot)
    → (u ≡ w → ⊥)
    → get_elem? m.upvalues w ≡ some v
    → value_at (set m.stack slot a) v ≡ value_at m.stack v
unfolding value_at
other_value m u slot a w (closed b) k at n e = refl
other_value m u slot a w (open_at s) k at n e =
    get_elem?-set_other m.stack slot s a
      (λ p. n (sym (unique_in m slot u k at w (e ∙ ap (λ t. some (open_at t)) (sym p)))))

not_open :
    {A : Type 0} (upvalues : List (Upvalue A)) (u w s : ℕ) (b : A)
    → u ≡ w
    → get_elem? upvalues u ≡ some (closed b)
    → get_elem? upvalues w ≡ some (open_at s)
    → ⊥
not_open upvalues u w s b p at e = cc (sym at ∙ ap (get_elem? upvalues) p ∙ e)

old_open :
    {A : Type 0} (upvalues : List (Upvalue A)) (u w s : ℕ) (a b : A)
    → get_elem? upvalues u ≡ some (closed b)
    → get_elem? (set upvalues u (closed a)) w ≡ some (open_at s)
    → get_elem? upvalues w ≡ some (open_at s)
old_open upvalues u w s a b at e = elim (ℕ_discrete u w) [
  | yes p ↦
      let new = get_elem?-set_self upvalues u (closed a) (closed b) at in
      absurd (not_open (set upvalues u (closed a)) u w s a p new e)
  | no n ↦ sym (get_elem?-set_other upvalues u w (closed a) n) ∙ e
]

open-Stores :
    {A : Type 0} (m : Variables A) (u slot : ℕ) (a b : A)
    → IsValid m
    → get_elem? m.upvalues u ≡ some (open_at slot)
    → get_elem? m.stack slot ≡ some b
    → Stores m u a (record m { stack = set m.stack slot a })
unfolding value_at
open-Stores m u slot a b k at here = record {
  is_valid = record {
    descending =
        subst (λ n. IsDescending m.upvalues n m.open_upvalues) (sym (length-set m.stack slot a))
          k.descending;
    complete = k.complete;
  };
  reads =
      load_upvalue_at (record m { stack = set m.stack slot a }) u (open_at slot) at
      ∙ get_elem?-set_self m.stack slot a b here;
  others = λ w n.
      load_same m (record m { stack = set m.stack slot a }) w refl
        (λ v e. other_value m u slot a w v k at n e);
}

closed-Stores :
    {A : Type 0} (m : Variables A) (u : ℕ) (a b : A)
    → IsValid m
    → get_elem? m.upvalues u ≡ some (closed b)
    → Stores m u a (record m { upvalues = set m.upvalues u (closed a) })
unfolding value_at
closed-Stores m u a b k at =
    let new = get_elem?-set_self m.upvalues u (closed a) (closed b) at in
    let elsewhere : (w : ℕ)
        → (u ≡ w → ⊥)
        → get_elem? (set m.upvalues u (closed a)) w ≡ get_elem? m.upvalues w =
      λ w n. get_elem?-set_other m.upvalues u w (closed a) n in
    record {
      is_valid = record {
        descending =
            IsDescending-keep m.upvalues (set m.upvalues u (closed a)) (length m.stack)
              m.open_upvalues (λ w s i e. elsewhere w (λ p. not_open m.upvalues u w s b p at e) ∙ e)
              k.descending;
        complete = λ w s e. k.complete w s (old_open m.upvalues u w s a b at e);
      };
      reads =
          load_upvalue_at (record m { upvalues = set m.upvalues u (closed a) }) u (closed a) new;
      others = λ w n.
          load_same m (record m { upvalues = set m.upvalues u (closed a) }) w (elsewhere w n)
            (λ v e. refl);
    }

Stores-at :
    {A : Type 0} (m : Variables A) (u : ℕ) (a b : A) (v : Upvalue A)
    → IsValid m
    → get_elem? m.upvalues u ≡ some v
    → load_upvalue m u ≡ some b
    → (m' : Variables A) × (store_upvalue m u a ≡ some m') × Stores m u a m'
unfolding value_at
Stores-at m u a b (closed c) k at e = (_, store_closed m u a c at, closed-Stores m u a c k at)
Stores-at m u a b (open_at slot) k at e = (
  _,
  store_open m u slot a at,
  open-Stores m u slot a b k at (sym (load_upvalue_at m u (open_at slot) at) ∙ e),
)

-- With such a list, a write through an upvalue that has a value leaves such a list, the upvalue
-- then reads what was written, and every other upvalue reads what it read before.
pub store_upvalue-Stores :
    {A : Type 0} (m : Variables A) (u : ℕ) (a b : A)
    → IsValid m
    → load_upvalue m u ≡ some b
    → (m' : Variables A) × (store_upvalue m u a ≡ some m') × Stores m u a m'
store_upvalue-Stores m u a b k e = let (v, at) = loaded m u b e in Stores-at m u a b v k at e
