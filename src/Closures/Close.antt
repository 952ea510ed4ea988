-- ===== src/Closures/Close.antt =====
-- `closeUpvalues`: what the upvalues refer to outlives the slots that are discarded.
use wrenegade.Base.{
  ℕ, ◌≤◌, ◌≡◌, refl, sym, ap, ◌∙◌, inl, inr, Bool-cases, Option-cases, true, false, Option, none,
  some, List, [], ◌∷◌, length, get_elem?, set, take, arith, In, leb, length-take,
  get_elem?-set_self, get_elem?-set_other, get_elem?-take, get_elem?-in,
}
use mathlib.Core.Option
use native.Mathlib.Decide.{ℕ_discrete}
use wrenegade.Closures.{
  Upvalue, open_at, closed, Variables, close_from, close_upvalues, discard_from, load_upvalue,
}
use wrenegade.Closures.Lists.{
  IsDescending, open_slot_at, same_slot, In-IsDescending, IsDescending-keep, IsDescending-above,
  IsValid,
}

-- The value of an upvalue.
unfoldable pub value_at : {A : Type 0} → List A → Upvalue A → Option A
value_at stack (open_at slot) = get_elem? stack slot
value_at stack (closed a) = some a

-- What the loop leaves, for a stack that is then cut.
record IsClosed {A : Type 0} (stack : List A) (last : ℕ) (upvalues : List (Upvalue A))
    (upvalues' : List (Upvalue A)) (us : List ℕ) : Type 0 where
  keeps :
      (u : ℕ) (v : Upvalue A) (a : A)
      → get_elem? upvalues u ≡ some v
      → value_at stack v ≡ some a
      → (v' : Upvalue A) × (get_elem? upvalues' u ≡ some v')
        × (value_at (take last stack) v' ≡ some a)
  descending : IsDescending upvalues' last us
  complete : (u slot : ℕ) → get_elem? upvalues' u ≡ some (open_at slot) → In u us

abbrev IsComplete : {A : Type 0} → List (Upvalue A) → List ℕ → Type 0
IsComplete upvalues us = (u slot : ℕ) → get_elem? upvalues u ≡ some (open_at slot) → In u us

-- An upvalue below the cut keeps its value.
value_at-take :
    {A : Type 0} (stack : List A) (last : ℕ) (upvalues : List (Upvalue A)) (us : List ℕ) (u : ℕ)
    (v : Upvalue A)
    → IsDescending upvalues last us
    → IsComplete upvalues us
    → get_elem? upvalues u ≡ some v
    → value_at (take last stack) v ≡ value_at stack v
unfolding value_at
value_at-take stack last upvalues us u (closed a) d c e = refl
value_at-take stack last upvalues us u (open_at slot) d c e =
    get_elem?-take last stack slot (In-IsDescending upvalues last us u slot d (c u slot e) e)

stays-IsClosed :
    {A : Type 0} (stack : List A) (last : ℕ) (upvalues : List (Upvalue A)) (us : List ℕ)
    → IsDescending upvalues last us
    → IsComplete upvalues us
    → IsClosed stack last upvalues upvalues us
stays-IsClosed stack last upvalues us d c = record {
  keeps = λ u v a e f. (v, e, value_at-take stack last upvalues us u v d c e ∙ f);
  descending = d;
  complete = c;
}

-- One upvalue is closed with its value.
module _ {A : Type 0} (stack : List A) (upvalues : List (Upvalue A)) (u slot : ℕ) (b : A)
    (at : get_elem? upvalues u ≡ some (open_at slot)) (here : get_elem? stack slot ≡ some b) where
  closing : List (Upvalue A)
  closing = set upvalues u (closed b)

  closing_keeps :
      (w : ℕ) (v : Upvalue A) (a : A)
      → get_elem? upvalues w ≡ some v
      → value_at stack v ≡ some a
      → (v' : Upvalue A) × (get_elem? closing w ≡ some v') × (value_at stack v' ≡ some a)
  unfolding value_at closing
  closing_keeps w v a e f = elim (ℕ_discrete u w) [
    | yes p ↦
        let same : v ≡ open_at slot = cc (sym e ∙ ap (get_elem? upvalues) (sym p) ∙ at) in
        let value : get_elem? stack slot ≡ some a = ap (value_at stack) (sym same) ∙ f in
        (
          closed b,
          ap (get_elem? (set upvalues u (closed b))) (sym p)
              ∙ get_elem?-set_self upvalues u (closed b) _ at,
          sym here ∙ value,
        )
    | no n ↦ (v, get_elem?-set_other upvalues u w (closed b) n ∙ e, f)
  ]

  closing-IsComplete : (us : List ℕ) → IsComplete upvalues (u ∷ us) → IsComplete closing us
  unfolding closing
  closing-IsComplete us c w s e = elim (ℕ_discrete u w) [
    | yes p ↦ cc (
        sym (
          ap (get_elem? (set upvalues u (closed b))) (sym p)
          ∙ get_elem?-set_self upvalues u (closed b) _ at)
        ∙ e)
    | no n ↦ elim (c w s (sym (get_elem?-set_other upvalues u w (closed b) n) ∙ e)) [
      | inl p ↦ absurd (n p)
      | inr i ↦ i
    ]
  ]

  closing-IsDescending :
      (us : List ℕ) → IsDescending upvalues slot us → IsDescending closing slot us
  unfolding closing
  closing-IsDescending us d =
      IsDescending-keep upvalues (set upvalues u (closed b)) slot us
        (λ w s i e.
          get_elem?-set_other upvalues u w (closed b) (λ p. absurd (
            omega (
              arith,
              In-IsDescending upvalues slot us w s d i e,
              same_slot upvalues u slot s at (ap (get_elem? upvalues) p ∙ e),
            )))
          ∙ e)
        d

close_from-close :
    {A : Type 0} (stack : List A) (last : ℕ) (upvalues : List (Upvalue A)) (u slot : ℕ)
    (us : List ℕ) (b : A)
    → get_elem? upvalues u ≡ some (open_at slot)
    → get_elem? stack slot ≡ some b
    → leb last slot ≡ true
    → close_from stack last upvalues (u ∷ us) ≡ close_from stack last (set upvalues u (closed b)) us
unfolding close_from Option.bind
close_from-close stack last upvalues u slot us b at here t =
    rw (close_from, open_slot_at upvalues u slot at, here, t) refl

close_from-stop :
    {A : Type 0} (stack : List A) (last : ℕ) (upvalues : List (Upvalue A)) (u slot : ℕ)
    (us : List ℕ)
    → get_elem? upvalues u ≡ some (open_at slot)
    → leb last slot ≡ false
    → close_from stack last upvalues (u ∷ us) ≡ some (upvalues, u ∷ us)
unfolding close_from Option.bind
close_from-stop stack last upvalues u slot us at t =
    rw (close_from, open_slot_at upvalues u slot at, t) refl

abbrev Closed : {A : Type 0} → List A → ℕ → List (Upvalue A) → List ℕ → Type 0
Closed stack last upvalues us =
    (upvalues' : _) × (us' : List ℕ) × (close_from stack last upvalues us ≡ some (upvalues', us'))
    × IsClosed stack last upvalues upvalues' us'

close_from-Closed :
    {A : Type 0} (stack : List A) (last : ℕ) (us : List ℕ) (upvalues : List (Upvalue A)) (bound : ℕ)
    → bound ≤ length stack
    → IsDescending upvalues bound us
    → IsComplete upvalues us
    → Closed stack last upvalues us
unfolding close_from closing
close_from-Closed stack last [] upvalues bound h d c =
    (upvalues, [], refl, stays-IsClosed stack last upvalues [] tt c)
close_from-Closed stack last (u ∷ us) upvalues bound h (slot, at, l, d) c =
    elim (Bool-cases (leb last slot)) [
      | inl t ↦
          let (b, here) = get_elem?-in stack slot (omega arith) in
          let next = closing stack upvalues u slot b at here in
          let (upvalues', us', run, r) =
            close_from-Closed stack last us next slot (omega arith)
              (closing-IsDescending stack upvalues u slot b at here us d)
              (closing-IsComplete stack upvalues u slot b at here us c) in
          (
            upvalues',
            us',
            close_from-close stack last upvalues u slot us b at here t ∙ run,
            record {
              keeps = λ w v a e f.
                  let (v', e', f') = closing_keeps stack upvalues u slot b at here w v a e f in
                  r.keeps w v' a e' f';
              descending = r.descending;
              complete = r.complete;
            },
          )
      | inr t ↦ (
        upvalues,
        u ∷ us,
        close_from-stop stack last upvalues u slot us at t,
        stays-IsClosed stack last upvalues (u ∷ us) (slot, at, ground (arith, t), d) c,
      )
    ]

pub load_upvalue_at :
    {A : Type 0} (m : Variables A) (u : ℕ) (v : Upvalue A)
    → get_elem? m.upvalues u ≡ some v
    → load_upvalue m u ≡ value_at m.stack v
unfolding load_upvalue value_at Option.bind
load_upvalue_at m u (open_at s) e = rw (load_upvalue, e) refl
load_upvalue_at m u (closed a) e = rw (load_upvalue, e) refl

pub load_upvalue-none :
    {A : Type 0} (m : Variables A) (u : ℕ) → get_elem? m.upvalues u ≡ none → load_upvalue m u ≡ none
unfolding load_upvalue Option.bind
load_upvalue-none m u e = rw (load_upvalue, e) refl

pub loaded :
    {A : Type 0} (m : Variables A) (u : ℕ) (a : A)
    → load_upvalue m u ≡ some a
    → (v : Upvalue A) × (get_elem? m.upvalues u ≡ some v)
loaded m u a e = elim (Option-cases (get_elem? m.upvalues u)) [
  | inl n ↦ cc (sym (load_upvalue-none m u n) ∙ e)
  | inr (v, at) ↦ (v, at)
]

discard_from-run :
    {A : Type 0} (m : Variables A) (last : ℕ) (upvalues' : List (Upvalue A)) (us' : List ℕ)
    → close_from m.stack last m.upvalues m.open_upvalues ≡ some (upvalues', us')
    → discard_from m last
      ≡ some (record { stack = take last m.stack; upvalues = upvalues'; open_upvalues = us' })
unfolding discard_from close_upvalues Option.bind
discard_from-run m last upvalues' us' run = rw (discard_from, close_upvalues, run) refl

-- When the list of open upvalues holds all of them, by slots from the top down and within the
-- stack, closing the upvalues from a slot of the stack on and discarding these slots ends
-- without a fault, leaves such a list, and every upvalue with a value keeps it.
pub discard_from-Keeps :
    {A : Type 0} (m : Variables A) (last : ℕ)
    → IsValid m
    → last ≤ length m.stack
    → (m' : Variables A) × (discard_from m last ≡ some m')
      × (m'.stack ≡ take last m.stack)
      × IsValid m'
      × ((u : ℕ) (a : A) → load_upvalue m u ≡ some a → load_upvalue m' u ≡ some a)
discard_from-Keeps m last k h =
    let (upvalues', us', run, r) =
      close_from-Closed m.stack last m.open_upvalues m.upvalues (length m.stack) (omega arith)
        k.descending k.complete in
    (
      _,
      discard_from-run m last upvalues' us' run,
      refl,
      record {
        descending =
            IsDescending-above upvalues' last _ us' (omega (arith, length-take last m.stack))
              r.descending;
        complete = r.complete;
      },
      λ u a e.
          let (v, at) = loaded m u a e in
          let (v', at', f) = r.keeps u v a at (sym (load_upvalue_at m u v at) ∙ e) in
          load_upvalue_at _ u v' at' ∙ f,
    )
