-- ===== src/Fibers/Chain.antt =====
-- The chain of callers from the current fiber to the root fiber.
use wrenegade.Base.{
  ℕ, zero, suc, ◌<◌, ◌≡◌, refl, sym, ap, ◌∙◌, ◌⊎◌, inl, inr, true, false, none, some, List, [], ◌∷◌,
  length, get_elem?, arith, In, IsDistinct, ◌==◌, if◌then◌else◌, Bool-cases,
}
use mathlib.Core.Option
use wrenegade.Fibers.{Fiber, Machine, is_root, modify}

pub get_elem?-modify {ℓ} :
    {A : Type ℓ} (xs : List A) (i j : ℕ) (f : A → A)
    → get_elem? (modify xs i f) j
      ≡ (if i == j then Option.map f (get_elem? xs j) else get_elem? xs j)
get_elem?-modify [] i j f = ground arith
get_elem?-modify (x ∷ xs) zero zero f = refl
get_elem?-modify (x ∷ xs) zero (suc j) f = ground arith
get_elem?-modify (x ∷ xs) (suc i) zero f = ground arith
get_elem?-modify (x ∷ xs) (suc i) (suc j) f = get_elem?-modify xs i j f ∙ ground arith

pub get_elem?-modify_self {ℓ} :
    {A : Type ℓ} (xs : List A) (i : ℕ) (f : A → A) (a : A)
    → get_elem? xs i ≡ some a
    → get_elem? (modify xs i f) i ≡ some (f a)
get_elem?-modify_self xs i f a e =
    let t : (i == i) ≡ true = ground arith in get_elem?-modify xs i i f ∙ rw (t, e) refl

pub get_elem?-modify_other {ℓ} :
    {A : Type ℓ} (xs : List A) (i j : ℕ) (f : A → A)
    → (i ≡ j → ⊥)
    → get_elem? (modify xs i f) j ≡ get_elem? xs j
get_elem?-modify_other xs i j f n =
    let t : (i == j) ≡ false = ground (arith, n) in get_elem?-modify xs i j f ∙ rw t refl

-- The last fiber of a chain is a root fiber without a caller; any other is called by the next.
abbrev pub IsHooked : Fiber → List ℕ → Type 0
IsHooked g [] = (g.caller ≡ none) × (is_root g.state ≡ true)
IsHooked g (p ∷ ps) = (g.caller ≡ some p) × (is_root g.state ≡ false)

-- A fiber of the chain can be resumed: it has a call frame. The flag asks for no error.
abbrev pub IsLink : List Fiber → ℕ → List ℕ → Type 0
IsLink fs f rest = (g : Fiber) × (get_elem? fs f ≡ some g) × (0 < length g.frames) × IsHooked g rest

abbrev pub HasNoError : List Fiber → ℕ → Type 0
HasNoError fs f = (g : Fiber) × (get_elem? fs f ≡ some g) × (g.error ≡ none)

abbrev pub IsChain : List Fiber → List ℕ → Type 0
IsChain fs [] = Unit
IsChain fs (f ∷ rest) = IsLink fs f rest × IsChain fs rest

abbrev pub NoErrors : List Fiber → List ℕ → Type 0
NoErrors fs [] = Unit
NoErrors fs (f ∷ rest) = HasNoError fs f × NoErrors fs rest

-- What a change of one fiber has to leave alone.
pub record IsHarmless (h : Fiber → Fiber) : Type 0 where
  pub frames : (g : Fiber) → length (h g).frames ≡ length g.frames
  pub caller : (g : Fiber) → (h g).caller ≡ g.caller
  pub state : (g : Fiber) → is_root (h g).state ≡ is_root g.state

IsHooked-harmless :
    (h : Fiber → Fiber)
    → IsHarmless h
    → (g : Fiber) (rest : List ℕ) → IsHooked g rest
    → IsHooked (h g) rest
IsHooked-harmless h k g [] (c, s) = (k.caller g ∙ c, k.state g ∙ s)
IsHooked-harmless h k g (p ∷ ps) (c, s) = (k.caller g ∙ c, k.state g ∙ s)

pub IsLink-harmless :
    (h : Fiber → Fiber)
    → IsHarmless h
    → (fs : List Fiber) (i f : ℕ) (rest : List ℕ) → IsLink fs f rest
    → IsLink (modify fs i h) f rest
IsLink-harmless h k fs i f rest (g, e, p, w) = elim (Bool-cases (i == f)) [
  | inl t ↦ (
    h g,
    get_elem?-modify fs i f h ∙ rw (t, e) refl,
    omega (arith, k.frames g),
    IsHooked-harmless h k g rest w,
  )
  | inr t ↦ (g, get_elem?-modify fs i f h ∙ rw t e, p, w)
]

pub IsChain-harmless :
    (h : Fiber → Fiber)
    → IsHarmless h
    → (fs : List Fiber) (i : ℕ) (path : List ℕ) → IsChain fs path
    → IsChain (modify fs i h) path
IsChain-harmless h k fs i [] c = tt
IsChain-harmless h k fs i (f ∷ rest) (l, c) =
    (IsLink-harmless h k fs i f rest l, IsChain-harmless h k fs i rest c)

pub IsLink-other :
    (h : Fiber → Fiber) (fs : List Fiber) (i f : ℕ) (rest : List ℕ)
    → (i ≡ f → ⊥)
    → IsLink fs f rest
    → IsLink (modify fs i h) f rest
IsLink-other h fs i f rest n (g, e, p, w) = (g, get_elem?-modify_other fs i f h n ∙ e, p, w)

pub IsChain-other :
    (h : Fiber → Fiber) (fs : List Fiber) (i : ℕ) (path : List ℕ)
    → (In i path → ⊥)
    → IsChain fs path
    → IsChain (modify fs i h) path
IsChain-other h fs i [] n c = tt
IsChain-other h fs i (f ∷ rest) n (l, c) = (
  IsLink-other h fs i f rest (λ e. n (inl (sym e))) l,
  IsChain-other h fs i rest (λ k. n (inr k)) c,
)

pub NoErrors-other :
    (h : Fiber → Fiber) (fs : List Fiber) (i : ℕ) (path : List ℕ)
    → (In i path → ⊥)
    → NoErrors fs path
    → NoErrors (modify fs i h) path
NoErrors-other h fs i [] n c = tt
NoErrors-other h fs i (f ∷ rest) n ((g, e, l), c) = (
  (g, get_elem?-modify_other fs i f h (λ d. n (inl (sym d))) ∙ e, l),
  NoErrors-other h fs i rest (λ k. n (inr k)) c,
)

-- A change that adds no error.
pub NoErrors-keep :
    (h : Fiber → Fiber)
    → ((g : Fiber) → (h g).error ≡ g.error)
    → (fs : List Fiber) (i : ℕ) (path : List ℕ) → NoErrors fs path
    → NoErrors (modify fs i h) path
NoErrors-keep h k fs i [] c = tt
NoErrors-keep h k fs i (f ∷ rest) ((g, e, l), c) = (
  elim (Bool-cases (i == f)) [
    | inl t ↦ (h g, get_elem?-modify fs i f h ∙ rw (t, e) refl, k g ∙ l)
    | inr t ↦ (g, get_elem?-modify fs i f h ∙ rw t e, l)
  ],
  NoErrors-keep h k fs i rest c,
)

clash :
    (g : Fiber) (rest : List ℕ)
    → (g.caller ≡ none) × (is_root g.state ≡ false) ⊎ (length g.frames ≡ 0)
    → 0 < length g.frames
    → IsHooked g rest
    → ⊥
clash g rest (inr z) p w = omega arith
clash g [] (inl (c, s)) p (c', s') = cc (sym s ∙ s')
clash g (x ∷ xs) (inl (c, s)) p (c', s') = cc (sym c ∙ c')

-- A fiber with neither a caller nor the state of a root is not in a chain; nor is a finished one.
pub not-In-IsChain :
    (fs : List Fiber) (t : ℕ) (g : Fiber) (path : List ℕ)
    → get_elem? fs t ≡ some g
    → (g.caller ≡ none) × (is_root g.state ≡ false) ⊎ (length g.frames ≡ 0)
    → IsChain fs path
    → In t path
    → ⊥
not-In-IsChain fs t g [] e w c i = absurd i
not-In-IsChain fs t g (f ∷ rest) e w ((g', e', p, k), c) (inl same) =
    let eq : g' ≡ g = cc (sym e' ∙ ap (get_elem? fs) same ∙ e) in clash g' rest (rw eq w) p k
not-In-IsChain fs t g (f ∷ rest) e w (l, c) (inr i) = not-In-IsChain fs t g rest e w c i

pub record IsRunning (m : Machine) : Type 0 where
  pub current : ℕ
  pub callers : List ℕ
  pub now : m.fiber ≡ some current
  pub chain : IsChain m.fibers (current ∷ callers)
  pub no_errors : NoErrors m.fibers (current ∷ callers)
  pub distinct : IsDistinct (current ∷ callers)
