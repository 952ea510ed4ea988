-- ===== src/Closures/Capture.antt =====
-- `captureUpvalue`: one upvalue for a variable, however often it is captured.
use wrenegade.Base.{
  ℕ, ◌<◌, ◌≡◌, refl, sym, ap, ◌∙◌, inl, inr, Bool-cases, true, false, some, List, [], ◌∷◌, ◌++◌,
  length, get_elem?, arith, In, ltb, ◌==◌, get_elem?-snoc, get_elem?-snoc_last,
  get_elem?-snoc_cases,
}
use mathlib.Core.Option
use wrenegade.Closures.{
  Upvalue, open_at, Variables, Walk, existing, linked, link_before, walk, capture_upvalue,
  load_upvalue,
}
use wrenegade.Closures.Lists.{
  IsDescending, open_slot_at, IsDescending-keep, IsDescending-unique, IsValid,
}
use wrenegade.Closures.Close.{value_at, load_upvalue_at, loaded}

-- The outcome of the walk, for upvalues that hold the new one at its address.
data IsWalked {A : Type 0} (upvalues : List (Upvalue A)) (local created bound : ℕ) (us : List ℕ)
    : Walk → Type 0 where
  finds :
      (u : ℕ)
      → In u us
      → get_elem? upvalues u ≡ some (open_at local)
      → IsWalked upvalues local created bound us (existing u)
  links :
      (us' : List ℕ)
      → In created us'
      → ((u : ℕ) → In u us → In u us')
      → ((upvalues' : List (Upvalue A))
          → ((u s : ℕ)
              → get_elem? upvalues u ≡ some (open_at s)
              → get_elem? upvalues' u ≡ some (open_at s))
          → get_elem? upvalues' created ≡ some (open_at local)
          → IsDescending upvalues' bound us')
      → IsWalked upvalues local created bound us (linked us')

walk-further :
    {A : Type 0} (upvalues : List (Upvalue A)) (local created u slot : ℕ) (us : List ℕ) (w : Walk)
    → get_elem? upvalues u ≡ some (open_at slot)
    → ltb local slot ≡ true
    → walk upvalues local created us ≡ some w
    → walk upvalues local created (u ∷ us) ≡ some (link_before u w)
unfolding walk Option.bind
walk-further upvalues local created u slot us w at t run =
    rw (walk, open_slot_at upvalues u slot at, t, run) refl

walk-found :
    {A : Type 0} (upvalues : List (Upvalue A)) (local created u slot : ℕ) (us : List ℕ)
    → get_elem? upvalues u ≡ some (open_at slot)
    → ltb local slot ≡ false
    → (slot == local) ≡ true
    → walk upvalues local created (u ∷ us) ≡ some (existing u)
unfolding walk Option.bind
walk-found upvalues local created u slot us at t e =
    rw (walk, open_slot_at upvalues u slot at, t, e) refl

walk-past :
    {A : Type 0} (upvalues : List (Upvalue A)) (local created u slot : ℕ) (us : List ℕ)
    → get_elem? upvalues u ≡ some (open_at slot)
    → ltb local slot ≡ false
    → (slot == local) ≡ false
    → walk upvalues local created (u ∷ us) ≡ some (linked (created ∷ u ∷ us))
unfolding walk Option.bind
walk-past upvalues local created u slot us at t e =
    rw (walk, open_slot_at upvalues u slot at, t, e) refl

further-IsWalked :
    {A : Type 0} (upvalues : List (Upvalue A)) (local created bound u slot : ℕ) (us : List ℕ)
    (w : Walk)
    → get_elem? upvalues u ≡ some (open_at slot)
    → slot < bound
    → IsWalked upvalues local created slot us w
    → IsWalked upvalues local created bound (u ∷ us) (link_before u w)
further-IsWalked upvalues local created bound u slot us w at l (finds v i e) = finds v (inr i) e
further-IsWalked upvalues local created bound u slot us w at l (links us' i k d) =
    links (u ∷ us') (inr i) (λ v j. elim j [ inl p ↦ inl p | inr q ↦ inr (k v q) ])
      (λ upvalues' keep new. (slot, keep u slot at, l, d upvalues' keep new))

abbrev Walks : {A : Type 0} → List (Upvalue A) → ℕ → ℕ → ℕ → List ℕ → Type 0
Walks upvalues local created bound us =
    (w : Walk) × (walk upvalues local created us ≡ some w)
    × IsWalked upvalues local created bound us w

walk-Walks :
    {A : Type 0} (upvalues : List (Upvalue A)) (local created : ℕ) (us : List ℕ) (bound : ℕ)
    → local < bound
    → IsDescending upvalues bound us
    → Walks upvalues local created bound us
unfolding walk
walk-Walks upvalues local created [] bound h d = (
  _,
  refl,
  links (created ∷ []) (inl refl) (λ u i. absurd i) (λ upvalues' keep new. (local, new, h, tt)),
)
walk-Walks upvalues local created (u ∷ us) bound h (slot, at, l, d) =
    elim (Bool-cases (ltb local slot)) [
      | inl t ↦
          let (w, run, r) = walk-Walks upvalues local created us slot (ground (arith, t)) d in
          (
            _,
            walk-further upvalues local created u slot us w at t run,
            further-IsWalked upvalues local created bound u slot us w at l r,
          )
      | inr t ↦ elim (Bool-cases (slot == local)) [
        | inl e ↦
            let same : slot ≡ local = ground (arith, e) in
            (
              _,
              walk-found upvalues local created u slot us at t e,
              finds u (inl refl) (at ∙ ap (λ s. some (open_at s)) same),
            )
        | inr e ↦ (
          _,
          walk-past upvalues local created u slot us at t e,
          links (created ∷ u ∷ us) (inl refl) (λ v i. inr i)
              (λ upvalues' keep new. (
                local,
                new,
                h,
                (
                  slot,
                  keep u slot at,
                  ground (arith, t, e),
                  IsDescending-keep upvalues upvalues' slot us (λ v s i. keep v s) d,
                ),
              )),
        )
      ]
    ]

-- What a capture promises.
pub record Captures {A : Type 0} (m : Variables A) (local : ℕ) (m' : Variables A) (u : ℕ)
    : Type 0 where
  pub is_valid : IsValid m'
  pub stack : m'.stack ≡ m.stack
  pub open_there : get_elem? m'.upvalues u ≡ some (open_at local)
  pub unique : (w : ℕ) → get_elem? m'.upvalues w ≡ some (open_at local) → w ≡ u
  pub reads : load_upvalue m' u ≡ get_elem? m.stack local
  pub keeps : (w : ℕ) (a : A) → load_upvalue m w ≡ some a → load_upvalue m' w ≡ some a

pub unique_in :
    {A : Type 0} (m : Variables A) (local u : ℕ)
    → IsValid m
    → get_elem? m.upvalues u ≡ some (open_at local)
    → (w : ℕ) → get_elem? m.upvalues w ≡ some (open_at local)
    → w ≡ u
unique_in m local u k at w at' =
    IsDescending-unique m.upvalues (length m.stack) m.open_upvalues w u local k.descending
      (k.complete w local at') (k.complete u local at) at' at

load_open :
    {A : Type 0} (m : Variables A) (u local : ℕ)
    → get_elem? m.upvalues u ≡ some (open_at local)
    → load_upvalue m u ≡ get_elem? m.stack local
unfolding value_at
load_open m u local at = load_upvalue_at m u (open_at local) at

existing-Captures :
    {A : Type 0} (m : Variables A) (local u : ℕ)
    → IsValid m
    → get_elem? m.upvalues u ≡ some (open_at local)
    → Captures m local m u
existing-Captures m local u k at = record {
  is_valid = k;
  stack = refl;
  open_there = at;
  unique = unique_in m local u k at;
  reads = load_open m u local at;
  keeps = λ w a e. e;
}

-- The machine with a new upvalue.
abbrev with_upvalue : {A : Type 0} → Variables A → ℕ → List ℕ → Variables A
with_upvalue m local us = record m {
  upvalues = m.upvalues ++ open_at local ∷ [];
  open_upvalues = us;
}

with_upvalue-IsValid :
    {A : Type 0} (m : Variables A) (local : ℕ) (us : List ℕ)
    → IsValid m
    → In (length m.upvalues) us
    → ((u : ℕ) → In u m.open_upvalues → In u us)
    → IsDescending (m.upvalues ++ open_at local ∷ []) (length m.stack) us
    → IsValid (with_upvalue m local us)
with_upvalue-IsValid m local us k i more d = record {
  descending = d;
  complete = λ u slot e. elim (get_elem?-snoc_cases m.upvalues u (open_at slot) (open_at local) e) [
    | inl old ↦ more u (k.complete u slot old)
    | inr last ↦ rw last i
  ];
}

linked-Captures :
    {A : Type 0} (m : Variables A) (local : ℕ) (us : List ℕ)
    → IsValid (with_upvalue m local us)
    → Captures m local (with_upvalue m local us) (length m.upvalues)
linked-Captures m local us k =
    let new = get_elem?-snoc_last m.upvalues (open_at local) in
    record {
      is_valid = k;
      stack = refl;
      open_there = new;
      unique = unique_in (with_upvalue m local us) local (length m.upvalues) k new;
      reads = load_open (with_upvalue m local us) (length m.upvalues) local new;
      keeps = λ w a e.
          let (v, at) = loaded m w a e in
          load_upvalue_at (with_upvalue m local us) w v
            (get_elem?-snoc m.upvalues w v (open_at local) at)
          ∙ sym (load_upvalue_at m w v at)
          ∙ e;
    }

capture_existing :
    {A : Type 0} (m : Variables A) (local u : ℕ)
    → walk m.upvalues local (length m.upvalues) m.open_upvalues ≡ some (existing u)
    → capture_upvalue m local ≡ some (m, u)
unfolding capture_upvalue Option.bind
capture_existing m local u run = rw (capture_upvalue, run) refl

capture_linked :
    {A : Type 0} (m : Variables A) (local : ℕ) (us : List ℕ)
    → walk m.upvalues local (length m.upvalues) m.open_upvalues ≡ some (linked us)
    → capture_upvalue m local ≡ some (with_upvalue m local us, length m.upvalues)
unfolding capture_upvalue Option.bind
capture_linked m local us run = rw (capture_upvalue, run) refl

abbrev pub Captured : {A : Type 0} → Variables A → ℕ → Type 0
Captured m local =
    (m' : _) × (u : ℕ) × (capture_upvalue m local ≡ some (m', u)) × Captures m local m' u

walked-Captured :
    {A : Type 0} (m : Variables A) (local : ℕ) (w : Walk)
    → IsValid m
    → walk m.upvalues local (length m.upvalues) m.open_upvalues ≡ some w
    → IsWalked m.upvalues local (length m.upvalues) (length m.stack) m.open_upvalues w
    → Captured m local
walked-Captured m local (existing u) k run (finds _ i at) =
    (m, u, capture_existing m local u run, existing-Captures m local u k at)
walked-Captured m local (linked us) k run (links _ i more d) = (
  _,
  _,
  capture_linked m local us run,
  linked-Captures m local us (
      with_upvalue-IsValid m local us k i more (
        d _ (λ u s e. get_elem?-snoc m.upvalues u (open_at s) (open_at local) e)
          (get_elem?-snoc_last m.upvalues (open_at local)))),
)

-- With such a list, the capture of a variable on the stack ends without a fault and leaves such
-- a list and the same stack; it gives an upvalue that is open at the slot of the variable and
-- reads it, the only one there, and every upvalue with a value keeps it.
pub capture_upvalue-Captures :
    {A : Type 0} (m : Variables A) (local : ℕ)
    → IsValid m
    → local < length m.stack
    → Captured m local
capture_upvalue-Captures m local k h =
    let (w, run, r) =
      walk-Walks m.upvalues local (length m.upvalues) m.open_upvalues (length m.stack) h
        k.descending in
    walked-Captured m local w k run r
