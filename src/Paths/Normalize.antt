-- ===== src/Paths/Normalize.antt =====
-- The splitting of a path ends, and fails only for a path of too many components.
use wrenegade.Base.{
  ℕ, zero, suc, ◌+◌, ◌≤◌, ◌<◌, ◌≡◌, refl, inl, inr, true, false, Bool-cases, some, List, [], ◌∷◌,
  length, arith, leb, ◌==◌,
}
use mathlib.Core.Option
use wrenegade.Paths.{
  FilePath, is_separator, Split, walk_out, add_component, is_dot, is_double, component,
  skip_separators, split, normalize, rebuilt, max_components,
}

length-skip_separators : (chars : List ℕ) → length (skip_separators chars) ≤ length chars
unfolding skip_separators
length-skip_separators [] = omega arith
length-skip_separators (c ∷ cs) = elim (Bool-cases (is_separator c)) [
  | inl e ↦ rw e (omega (arith, length-skip_separators cs))
  | inr e ↦ rw e (omega arith)
]

length-component :
    (chars : List ℕ) → length (component chars).0 + length (component chars).1 ≡ length chars
unfolding component
length-component [] = refl
length-component (c ∷ cs) = elim (Bool-cases (is_separator c)) [
  | inl e ↦ rw (e, component) (omega arith)
  | inr e ↦ rw (e, component) (omega (arith, length-component cs))
]

component-separator :
    (c : ℕ) (cs : List ℕ) → is_separator c ≡ true → component (c ∷ cs) ≡ ([], c ∷ cs)
unfolding component
component-separator c cs e = rw (component, e) refl

component-other :
    (c : ℕ) (cs : List ℕ)
    → is_separator c ≡ false
    → component (c ∷ cs) ≡ (c ∷ (component cs).0, (component cs).1)
unfolding component
component-other c cs e = rw (component, e) refl

skip_separators-separator :
    (c : ℕ) (cs : List ℕ) → is_separator c ≡ true → skip_separators (c ∷ cs) ≡ skip_separators cs
unfolding skip_separators
skip_separators-separator c cs e = rw (skip_separators, e) refl

-- A round takes a character at least.
component-progress :
    (c : ℕ) (cs : List ℕ)
    → (length (skip_separators (component (c ∷ cs)).1) + length (component (c ∷ cs)).0
        ≤ length (c ∷ cs))
      × (length (skip_separators (component (c ∷ cs)).1) < length (c ∷ cs))
component-progress c cs = elim (Bool-cases (is_separator c)) [
  | inl e ↦
      let l = length-skip_separators cs in
      rw (component-separator c cs e, skip_separators-separator c cs e)
        (omega (arith, l), omega (arith, l))
  | inr e ↦
      let l = length-component cs in
      let m = length-skip_separators (component cs).1 in
      rw (component-other c cs e) (omega (arith, l, m), omega (arith, l, m))
]

length-walk_out :
    (n : ℕ) (parts : List (List ℕ)) → length (walk_out n parts).components ≤ length parts
unfolding walk_out
length-walk_out n [] = omega arith
length-walk_out n (part ∷ parts) = omega arith

add_component_lem :
    (s : Split) (part : List ℕ)
    → length s.components + length part ≤ 2048
    → (s' : Split) × (add_component s part ≡ some s')
      × (length s'.components ≤ length s.components + length part)
unfolding add_component
add_component_lem s part h = elim (Bool-cases (length part == 0)) [
  | inl e ↦ (s, rw e refl, omega arith)
  | inr e ↦ elim (Bool-cases (is_dot part)) [
    | inl f ↦ (s, rw (e, f) refl, omega arith)
    | inr f ↦ elim (Bool-cases (is_double part)) [
      | inl g ↦ (
        walk_out s.leading_doubles s.components,
        rw (e, f, g) refl,
        omega (arith, length-walk_out s.leading_doubles s.components),
      )
      | inr g ↦
          let room : leb max_components (length s.components) ≡ false = ground arith in
          (record s { components = part ∷ s.components }, rw (e, f, g, room) refl, ground arith)
    ]
  ]
]

split-ends :
    (fuel : ℕ) (s : Split) (chars : List ℕ)
    → length chars < fuel
    → length s.components + length chars ≤ 2048
    → (s' : Split) × (split fuel s chars ≡ some s')
unfolding split Option.bind
split-ends fuel s [] h b = (s, refl)
split-ends zero s (c ∷ cs) h b = absurd (omega arith)
split-ends (suc fuel) s (c ∷ cs) h b =
    let (taken, shorter) = component-progress c cs in
    let (s', added, few) = add_component_lem s (component (c ∷ cs)).0 (omega (arith, taken)) in
    let (s'', rest) =
      split-ends fuel s' (skip_separators (component (c ∷ cs)).1) (omega (arith, shorter))
        (omega (arith, taken, few)) in
    (s'', rw (split, added) rest)

-- Normalising a path of at most 2048 characters gives a path: the rounds of the loop are enough,
-- and the limit on components, at which the process exits, is not met.
pub normalize-ends :
    (path : FilePath)
    → length path.chars ≤ max_components
    → (path' : FilePath) × (normalize path ≡ some path')
unfolding normalize Option.bind
normalize-ends path h =
    let (s, e) =
      split-ends (length path.chars + 1) (record { components = []; leading_doubles = 0 })
        path.chars (omega arith) (omega arith) in
    (rebuilt path.chars s, rw e refl)
