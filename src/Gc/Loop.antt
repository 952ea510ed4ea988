-- ===== src/Gc/Loop.antt =====
-- The loop over the gray stack ends, with exactly the reachable objects dark.
use wrenegade.Base.{
  ℕ, zero, suc, ◌+◌, ◌≤◌, ◌<◌, ◌≡◌, refl, sym, ap, ◌∙◌, ◌⊎◌, inl, inr, true, Option, some, List, [],
  ◌∷◌, length, List-cases, arith, In,
}
use mathlib.Core.Option
use mathlib.Core.Path.{subst}
use wrenegade.Gc.{Object, Marks, blacken_objects}
use wrenegade.Gc.Marking.{children, gray_all, blacken_object-children}
use wrenegade.Gc.Grays.{Grays, whites, gray_all-Grays}

module _ (memory : ℕ → Option Object) where
  blacken_objects-done :
      (fuel : ℕ) (m : Marks) → m.gray ≡ [] → blacken_objects memory (suc fuel) m ≡ some m
  unfolding blacken_objects
  blacken_objects-done fuel m e =
      rw (blacken_objects, e) (ap {B = Option Marks} (λ g. some (record m { gray = g })) e)

  blacken_objects-step :
      (fuel : ℕ) (m : Marks) (obj : ℕ) (rest : List ℕ) (o : Object)
      → m.gray ≡ obj ∷ rest
      → memory obj ≡ some o
      → blacken_objects memory (suc fuel) m
        ≡ blacken_objects memory fuel (gray_all (record m { gray = rest }) (children o))
  unfolding blacken_objects Option.bind
  blacken_objects-step fuel m obj rest o e h =
      rw (← blacken_object-children (record m { gray = rest }) o, blacken_objects, e, h) refl

  -- What the program can get at from some addresses.
  pub data Reaches (start : List ℕ) : ℕ → Type 0 where
    root : (r : ℕ) → In r start → Reaches start r
    child :
        (r : ℕ) (p : ℕ) (o : Object)
        → Reaches start p
        → memory p ≡ some o
        → In r (children o)
        → Reaches start r

  -- An address holds an object, and what that refers to is on the list of objects again.
  pub data Holds (first : List ℕ) (r : ℕ) : Type 0 where
    holds :
        (o : Object)
        → memory r ≡ some o
        → ((q : ℕ) → In q (children o) → In q first)
        → Holds first r

  module _ (first start : List ℕ) where
    -- Dark objects are reached; those that are not on the stack have only dark children.
    pub record IsMarking (m : Marks) : Type 0 where
      pub sound : (r : ℕ) → m.is_dark r ≡ true → Reaches start r
      pub black :
          (r : ℕ)
          → m.is_dark r ≡ true
          → In r m.gray
            ⊎ ((o : Object) → memory r ≡ some o → (q : ℕ) → In q (children o) → m.is_dark q ≡ true)
      pub gray_dark : (r : ℕ) → In r m.gray → m.is_dark r ≡ true
      pub room : length m.gray ≤ m.gray_capacity
      pub room_pos : 0 < m.gray_capacity

    module _ (closed : (r : ℕ) → In r first → Holds first r)
        (started : (r : ℕ) → In r start → In r first) where
      pub Reaches-first : (r : ℕ) → Reaches start r → In r first
      Reaches-first r (root _ h) = started r h
      Reaches-first r (child _ p o h e i) = elim (closed p (Reaches-first p h)) [
        | holds o' e' c ↦ c r (let same : o ≡ o' = cc (sym e ∙ e') in rw (← same) i)
      ]

      -- One round of the loop.
      popped-IsMarking :
          (m : Marks) (obj : ℕ) (rest : List ℕ) (o : Object)
          → IsMarking m
          → m.gray ≡ obj ∷ rest
          → memory obj ≡ some o
          → Grays first
              (record m { gray = rest })
              (children o)
              (gray_all (record m { gray = rest }) (children o))
          → IsMarking (gray_all (record m { gray = rest }) (children o))
      popped-IsMarking m obj rest o i e held g = record {
        sound = λ r d. elim (g.only r d) [
          | inl p ↦ i.sound r p
          | inr p ↦ child r obj o (i.sound obj (i.gray_dark obj (rw e (inl refl)))) held p
        ];
        black = λ r d. elim (g.stacks r d) [
          | inr p ↦ inl p
          | inl p ↦ elim (i.black r p) [
            | inr f ↦ inr (λ o' e' q h. g.keeps q (f o' e' q h))
            | inl h ↦ elim (subst (In r) e h) [
              | inr l ↦ inl (g.keeps_gray r l)
              | inl l ↦ inr (λ o' e' q h.
                  g.darkens q
                    (let same : o' ≡ o = cc (sym e' ∙ ap memory (sym l) ∙ held) in rw (← same) h))
            ]
          ]
        ];
        gray_dark = λ r h. elim (g.gray_dark r h) [
          | inl p ↦ g.keeps r (i.gray_dark r (rw e (inr p)))
          | inr p ↦ p
        ];
        room = (g.capacity (let h = i.room in omega (arith, ap length e)) i.room_pos).0;
        room_pos = (g.capacity (omega (arith, i.room, ap length e)) i.room_pos).1;
      }

      pub blacken_objects-IsMarking :
          (fuel : ℕ) (m : Marks)
          → whites first m.is_dark + length m.gray < fuel
          → IsMarking m
          → (m' : Marks) × (blacken_objects memory fuel m ≡ some m')
            × IsMarking m'
            × (m'.gray ≡ [])
            × ((r : ℕ) → m.is_dark r ≡ true → m'.is_dark r ≡ true)
      blacken_objects-IsMarking zero m h i = absurd (omega arith)
      blacken_objects-IsMarking (suc fuel) m h i = elim (List-cases m.gray) [
        | inl e ↦ (m, blacken_objects-done fuel m e, i, e, λ r d. d)
        | inr (obj, rest, e) ↦
            elim (closed obj
              (Reaches-first obj (i.sound obj (i.gray_dark obj (rw e (inl refl)))))) [
                | holds o held c ↦
                    let g = gray_all-Grays first (record m { gray = rest }) (children o) c in
                    let next = gray_all (record m { gray = rest }) (children o) in
                    let (m', run, marking, none_left, keeps) =
                      blacken_objects-IsMarking fuel next (omega (arith, g.measure, ap length e))
                        (popped-IsMarking m obj rest o i e held g) in
                    (
                      m',
                      blacken_objects-step fuel m obj rest o e held ∙ run,
                      marking,
                      none_left,
                      λ r d. keeps r (g.keeps r d),
                    )
              ]
      ]

      -- With an empty stack, everything that is reached is dark if the start is.
      pub IsMarking-done :
          (m : Marks)
          → IsMarking m
          → m.gray ≡ []
          → ((r : ℕ) → In r start → m.is_dark r ≡ true)
          → (r : ℕ) → Reaches start r
          → m.is_dark r ≡ true
      IsMarking-done m i e s r (root _ h) = s r h
      IsMarking-done m i e s r (child _ p o h held q) =
          elim (i.black p (IsMarking-done m i e s p h)) [
            | inl g ↦ absurd (subst (In p) e g)
            | inr f ↦ f o held r q
          ]
