-- ===== src/Scopes/Upvalues.antt =====
-- Upvalues: the chain of captures that `findUpvalue` builds leads to the variable.
use wrenegade.Base.{
  ℕ, zero, suc, ◌≡◌, refl, sym, ap, ◌∙◌, ◌⊎◌, inl, inr, Bool, true, false, ◌&&◌, Bool-cases, Option,
  Option-cases, none, some, List, [], ◌∷◌, ◌++◌, length, get_elem?, arith, ltb, ◌≤◌, ◌==◌,
  if◌then◌else◌,
}
use wrenegade.Scopes.{
  max_upvalues, Local, CompilerUpvalue, Scopes, resolve_local, mark_upvalue, same_bool,
  find_captured, add_upvalue, is_boundary, captured_outside, find_upvalue,
}

-- Where an upvalue leads: how many functions outwards, not counting the nearest, and the index of
-- the local there.
abbrev pub Target : Type 0
Target = ℕ × ℕ

abbrev pub outwards : Option Target → Option Target
outwards none = none
outwards (some (k, i)) = some (suc k, i)

unfoldable pub follow : Scopes → List Scopes → ℕ → Option Target
follow c [] i = none
follow c (p ∷ ps) i = elim (get_elem? c.upvalues i) [
  | none ↦ none
  | some u ↦ if u.is_local then some (0, u.index) else outwards (follow p ps u.index)
]

-- The local of an enclosing function that a name means: the nearest function that has one, short of
-- a method boundary.
unfoldable pub enclosing_local : List Scopes → List ℕ → Option Target
enclosing_local [] name = none
enclosing_local (p ∷ ps) name =
    if is_boundary p name then none else elim (resolve_local p.locals name) [
      | some i ↦ some (0, i)
      | none ↦ outwards (enclosing_local ps name)
    ]

-- The upvalues that led somewhere lead there still.
abbrev pub Keeps : Scopes → List Scopes → Scopes → List Scopes → Type 0
Keeps c ps c' ps' = (i : ℕ) (t : Target) → follow c ps i ≡ some t → follow c' ps' i ≡ some t

same_upvalue :
    (u : CompilerUpvalue) (is_local : Bool) (index : ℕ)
    → (u.index == index && same_bool u.is_local is_local) ≡ true
    → u ≡ record { is_local = is_local; index = index }
same_upvalue u is_local index e =
    let a : u.index ≡ index = ground arith in
    let b : u.is_local ≡ is_local = ground arith in rw (← a, ← b) refl

find_captured-cases :
    (us : List CompilerUpvalue) (is_local : Bool) (index : ℕ)
    → (find_captured us is_local index ≡ none)
      ⊎ ((i : ℕ) × (find_captured us is_local index ≡ some i)
          × (get_elem? us i ≡ some (record { is_local = is_local; index = index })))
unfolding find_captured
find_captured-cases [] is_local index = inl refl
find_captured-cases (u ∷ us) is_local index =
    elim (Bool-cases (u.index == index && same_bool u.is_local is_local)) [
      | inl e ↦ inr (0, rw e refl, ap some (same_upvalue u is_local index e))
      | inr e ↦ elim (find_captured-cases us is_local index) [
        | inl h ↦ inl (rw (e, h) refl)
        | inr (i, h, g) ↦ inr (suc i, rw (e, h) refl, g)
      ]
    ]

append-get_elem? :
    {A : Type 0} (xs : List A) (x : A) → get_elem? (xs ++ (x ∷ [])) (length xs) ≡ some x
append-get_elem? [] x = refl
append-get_elem? (y ∷ ys) x = append-get_elem? ys x

get_elem?-append :
    {A : Type 0} (xs ys : List A) (i : ℕ) (a : A)
    → get_elem? xs i ≡ some a
    → get_elem? (xs ++ ys) i ≡ some a
get_elem?-append [] ys i a e = ground arith
get_elem?-append (x ∷ xs) ys zero a e = e
get_elem?-append (x ∷ xs) ys (suc i) a e = get_elem?-append xs ys i a e

-- No upvalue has room behind those that are there.
abbrev pub IsFull : Scopes → Type 0
IsFull c = max_upvalues ≤ length c.upvalues

abbrev pub AnyFull : List Scopes → Type 0
AnyFull [] = ⊥
AnyFull (c ∷ cs) = IsFull c ⊎ AnyFull cs

abbrev pub KeepsUpvalues : Scopes → Scopes → Type 0
KeepsUpvalues c c' =
    (i : ℕ) (u : CompilerUpvalue)
    → get_elem? c.upvalues i ≡ some u
    → get_elem? c'.upvalues i ≡ some u

-- The upvalue that `addUpvalue` returns captures what was asked for, and the others are kept.
abbrev Adds : Scopes → Bool → ℕ → ℕ → Scopes → Type 0
Adds c is_local index k c' =
    (get_elem? c'.upvalues k ≡ some (record { is_local = is_local; index = index }))
    × KeepsUpvalues c c'

add_upvalue-cases :
    (c : Scopes) (is_local : Bool) (index : ℕ)
    → ((k : ℕ) × (c' : Scopes) × (add_upvalue c is_local index ≡ some (k, c'))
        × Adds c is_local index k c')
      ⊎ ((add_upvalue c is_local index ≡ none) × IsFull c)
unfolding add_upvalue
add_upvalue-cases c is_local index = elim (find_captured-cases c.upvalues is_local index) [
  | inl h ↦ elim (Bool-cases (ltb (length c.upvalues) max_upvalues)) [
    | inl e ↦ inl (
      length c.upvalues,
      record c { upvalues = c.upvalues ++ (record { is_local = is_local; index = index } ∷ []) },
      rw (add_upvalue, h, e) refl,
      (append-get_elem? c.upvalues _, λ i u g. get_elem?-append c.upvalues _ i u g),
    )
    | inr e ↦ inr (rw (add_upvalue, h, e) refl, ground arith)
  ]
  | inr (i, h, g) ↦ inl (i, c, rw (add_upvalue, h) refl, (g, λ j u e. e))
]

follow-at :
    (c p : Scopes) (ps : List Scopes) (i : ℕ) (u : CompilerUpvalue)
    → get_elem? c.upvalues i ≡ some u
    → follow c (p ∷ ps) i
      ≡ (if u.is_local then some (0, u.index) else outwards (follow p ps u.index))
unfolding follow
follow-at c p ps i u e = rw (e, follow) refl

follow-nothing :
    (c p : Scopes) (ps : List Scopes) (i : ℕ)
    → get_elem? c.upvalues i ≡ none
    → follow c (p ∷ ps) i ≡ none
unfolding follow
follow-nothing c p ps i e = rw (e, follow) refl

-- Only the upvalues of the enclosing function count.
follow-locals :
    (p : Scopes) (ls : List Local) (ps : List Scopes) (i : ℕ)
    → follow p ps i ≡ follow (record p { locals = ls }) ps i
unfolding follow
follow-locals p ls [] i = refl
follow-locals p ls (q ∷ qs) i = refl

outwards-Keeps :
    (c c' : Scopes) (ps ps' : List Scopes) (i : ℕ) (t : Target)
    → Keeps c ps c' ps'
    → outwards (follow c ps i) ≡ some t
    → outwards (follow c' ps' i) ≡ some t
outwards-Keeps c c' ps ps' i t k e = elim (Option-cases (follow c ps i)) [
  | inl h ↦ ground (arith, h, e)
  | inr (t', h) ↦ let h' = k i t' h in let e' = sym (ap outwards h) ∙ e in ap outwards h' ∙ e'
]

if-Keeps :
    {y z : Option Target} {t : Target} (b : Bool) (x : Option Target)
    → (y ≡ some t → z ≡ some t)
    → (if b then x else y) ≡ some t
    → (if b then x else z) ≡ some t
if-Keeps true x f e = e
if-Keeps false x f e = f e

Keeps-outer :
    (c c' p p' : Scopes) (ps ps' : List Scopes)
    → KeepsUpvalues c c'
    → Keeps p ps p' ps'
    → Keeps c (p ∷ ps) c' (p' ∷ ps')
Keeps-outer c c' p p' ps ps' k o i t e = elim (Option-cases (get_elem? c.upvalues i)) [
  | inl h ↦ ground (arith, follow-nothing c p ps i h, e)
  | inr (u, h) ↦
      let before = sym (follow-at c p ps i u h) ∙ e in
      let after = follow-at c' p' ps' i u (k i u h) in
      after ∙ if-Keeps u.is_local _ (outwards-Keeps p p' ps ps' u.index t o) before
]

-- What the search gives is what it should, and the upvalues that were there are kept; or it ran out
-- of the array of some function.
pub data FindsUpvalue (c : Scopes) (ps : List Scopes) (name : List ℕ)
    : Option (Option ℕ × Scopes × List Scopes) → Type 0 where
  not_found : enclosing_local ps name ≡ none → FindsUpvalue c ps name (some (none, c, ps))
  is_found :
      (i : ℕ) (c' : Scopes) (ps' : List Scopes) (t : Target)
      → enclosing_local ps name ≡ some t
      → follow c' ps' i ≡ some t
      → KeepsUpvalues c c'
      → Keeps c ps c' ps'
      → FindsUpvalue c ps name (some (some i, c', ps'))
  ran_out :
      (t : Target)
      → enclosing_local ps name ≡ some t
      → AnyFull (c ∷ ps)
      → FindsUpvalue c ps name none

found_here :
    (c p : Scopes) (ps : List Scopes) (name : List ℕ) (local : ℕ)
    → is_boundary p name ≡ false
    → resolve_local p.locals name ≡ some local
    → FindsUpvalue c (p ∷ ps) name (find_upvalue c (p ∷ ps) name)
unfolding find_upvalue enclosing_local
found_here c p ps name local b r = elim (add_upvalue-cases c true local) [
  | inl (k, c', e, (at, keeps)) ↦
      let p' : Scopes = record p { locals = mark_upvalue p.locals local } in
      rw (find_upvalue, b, r, e)
        (is_found k c' (p' ∷ ps) (0, local) (rw (enclosing_local, b, r) refl)
          (follow-at c' p' ps k _ at) keeps
          (Keeps-outer c c' p p' ps ps keeps (λ i t f. sym (follow-locals p _ ps i) ∙ f)))
  | inr (e, full) ↦
      rw (find_upvalue, b, r, e) (ran_out (0, local) (rw (enclosing_local, b, r) refl) (inl full))
]

find_upvalue-outside :
    (c p : Scopes) (ps : List Scopes) (name : List ℕ)
    → is_boundary p name ≡ false
    → resolve_local p.locals name ≡ none
    → find_upvalue c (p ∷ ps) name ≡ captured_outside c (find_upvalue p ps name)
unfolding find_upvalue
find_upvalue-outside c p ps name b r = rw (find_upvalue, b, r) refl

found_outside :
    (c p : Scopes) (ps : List Scopes) (name : List ℕ)
    → is_boundary p name ≡ false
    → resolve_local p.locals name ≡ none
    → (s : Option (Option ℕ × Scopes × List Scopes)) → FindsUpvalue p ps name s
    → FindsUpvalue c (p ∷ ps) name (captured_outside c s)
unfolding captured_outside enclosing_local
found_outside c p ps name b r s (not_found n) = not_found (rw (enclosing_local, b, r, n) refl)
found_outside c p ps name b r s (ran_out (k, j) n full) =
    ran_out (suc k, j) (rw (enclosing_local, b, r, n) refl) (inr full)
found_outside c p ps name b r s (is_found i p' ps' (k, j) n f _ o) =
    elim (add_upvalue-cases c false i) [
      | inl (u, c', e, (at, keeps)) ↦
          rw (captured_outside, e)
            (is_found u c' (p' ∷ ps') (suc k, j) (rw (enclosing_local, b, r, n) refl)
              (follow-at c' p' ps' u _ at ∙ ap outwards f) keeps
              (Keeps-outer c c' p p' ps ps' keeps o))
      | inr (e, full) ↦
          rw (captured_outside, e)
            (ran_out (suc k, j) (rw (enclosing_local, b, r, n) refl) (inl full))
    ]

-- The search for a name in the enclosing functions gives nothing and changes nothing if the name
-- means no local there, short of a method boundary; otherwise it gives an upvalue that leads,
-- over the captures of the functions between, to the very local that the name means, and every
-- upvalue that led somewhere before leads there still; or, if one of the functions has all of
-- its 256 upvalues in use, it may end with a write behind the array
pub find_upvalue-FindsUpvalue :
    (c : Scopes) (ps : List Scopes) (name : List ℕ)
    → FindsUpvalue c ps name (find_upvalue c ps name)
unfolding find_upvalue enclosing_local
find_upvalue-FindsUpvalue c [] name = not_found refl
find_upvalue-FindsUpvalue c (p ∷ ps) name = elim (Bool-cases (is_boundary p name)) [
  | inl b ↦ rw (find_upvalue, b) (not_found (rw (enclosing_local, b) refl))
  | inr b ↦ elim (Option-cases (resolve_local p.locals name)) [
    | inr (j, r) ↦ found_here c p ps name j b r
    | inl r ↦
        rw (find_upvalue-outside c p ps name b r)
          (found_outside c p ps name b r _ (find_upvalue-FindsUpvalue p ps name))
  ]
]
