-- ===== src/Closures/Lists.antt =====
-- The list of open upvalues: by slots, from the top of the stack down.
use wrenegade.Base.{
  ℕ, ◌≤◌, ◌<◌, ◌≡◌, refl, sym, ap, ◌∙◌, inl, inr, some, List, [], ◌∷◌, length, get_elem?, arith, In,
}
use mathlib.Core.Option
use wrenegade.Closures.{Upvalue, open_at, Variables, open_slot}

-- Each upvalue of the list is open at a slot below the one before, the first below the bound.
abbrev pub IsDescending : {A : Type 0} → List (Upvalue A) → ℕ → List ℕ → Type 0
IsDescending upvalues bound [] = Unit
IsDescending upvalues bound (u ∷ us) =
    (slot : ℕ) × (get_elem? upvalues u ≡ some (open_at slot))
    × (slot < bound)
    × IsDescending upvalues slot us

pub open_slot_at :
    {A : Type 0} (upvalues : List (Upvalue A)) (u slot : ℕ)
    → get_elem? upvalues u ≡ some (open_at slot)
    → open_slot upvalues u ≡ some slot
unfolding open_slot Option.bind
open_slot_at upvalues u slot e = rw e refl

pub same_slot :
    {A : Type 0} (upvalues : List (Upvalue A)) (u s t : ℕ)
    → get_elem? upvalues u ≡ some (open_at s)
    → get_elem? upvalues u ≡ some (open_at t)
    → s ≡ t
same_slot upvalues u s t e f = cc (sym e ∙ f)

-- An upvalue of the list is open below the bound.
pub In-IsDescending :
    {A : Type 0} (upvalues : List (Upvalue A)) (bound : ℕ) (us : List ℕ) (u s : ℕ)
    → IsDescending upvalues bound us
    → In u us
    → get_elem? upvalues u ≡ some (open_at s)
    → s < bound
In-IsDescending upvalues bound [] u s d i e = absurd i
In-IsDescending upvalues bound (w ∷ us) u s (slot, f, l, d) (inl same) e =
    omega (arith, l, same_slot upvalues u s slot e (ap (get_elem? upvalues) (sym same) ∙ f))
In-IsDescending upvalues bound (w ∷ us) u s (slot, f, l, d) (inr i) e =
    omega (arith, l, In-IsDescending upvalues slot us u s d i e)

-- Two upvalues of the list at one slot are one.
pub IsDescending-unique :
    {A : Type 0} (upvalues : List (Upvalue A)) (bound : ℕ) (us : List ℕ) (u w s : ℕ)
    → IsDescending upvalues bound us
    → In u us
    → In w us
    → get_elem? upvalues u ≡ some (open_at s)
    → get_elem? upvalues w ≡ some (open_at s)
    → u ≡ w
IsDescending-unique upvalues bound [] u w s d i j e f = absurd i
IsDescending-unique upvalues bound (v ∷ us) u w s d (inl p) (inl q) e f = sym p ∙ q
IsDescending-unique upvalues bound (v ∷ us) u w s (slot, g, l, d) (inl p) (inr j) e f = absurd (
    omega (
      arith,
      In-IsDescending upvalues slot us w s d j f,
      same_slot upvalues u s slot e (ap (get_elem? upvalues) (sym p) ∙ g),
    ))
IsDescending-unique upvalues bound (v ∷ us) u w s (slot, g, l, d) (inr i) (inl q) e f = absurd (
    omega (
      arith,
      In-IsDescending upvalues slot us u s d i e,
      same_slot upvalues w s slot f (ap (get_elem? upvalues) (sym q) ∙ g),
    ))
IsDescending-unique upvalues bound (v ∷ us) u w s (slot, g, l, d) (inr i) (inr j) e f =
    IsDescending-unique upvalues slot us u w s d i j e f

-- Other upvalues, as long as those of the list stay.
pub IsDescending-keep :
    {A : Type 0} (upvalues upvalues' : List (Upvalue A)) (bound : ℕ) (us : List ℕ)
    → ((u s : ℕ)
        → In u us
        → get_elem? upvalues u ≡ some (open_at s)
        → get_elem? upvalues' u ≡ some (open_at s))
    → IsDescending upvalues bound us
    → IsDescending upvalues' bound us
IsDescending-keep upvalues upvalues' bound [] k d = tt
IsDescending-keep upvalues upvalues' bound (u ∷ us) k (slot, e, l, d) = (
  slot,
  k u slot (inl refl) e,
  l,
  IsDescending-keep upvalues upvalues' slot us (λ w s i. k w s (inr i)) d,
)

pub IsDescending-above :
    {A : Type 0} (upvalues : List (Upvalue A)) (bound bound' : ℕ) (us : List ℕ)
    → bound ≤ bound'
    → IsDescending upvalues bound us
    → IsDescending upvalues bound' us
IsDescending-above upvalues bound bound' [] h d = tt
IsDescending-above upvalues bound bound' (u ∷ us) h (slot, e, l, d) = (slot, e, omega arith, d)

-- What holds between the instructions: the list holds all the upvalues that are open.
pub record IsValid {A : Type 0} (m : Variables A) : Type 0 where
  pub descending : IsDescending m.upvalues (length m.stack) m.open_upvalues
  pub complete : (u slot : ℕ) → get_elem? m.upvalues u ≡ some (open_at slot) → In u m.open_upvalues
