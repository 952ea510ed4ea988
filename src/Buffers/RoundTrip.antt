-- ===== src/Buffers/RoundTrip.antt =====
-- An element that is inserted into a list and removed again.
use wrenegade.Base.{
  ℕ, suc, ◌^◌, ◌≤◌, ◌<◌, ◌≡◌, refl, ap, ◌∙◌, ◌⊎◌, inl, inr, arith, some, List, [], ◌∷◌, length,
  get_or,
}
use wrenegade.Buffers.{Buffer, list_insert, list_remove_at}
use wrenegade.Buffers.Insert.{HasRoom, Inserts, list_insert-Inserts}
use wrenegade.Buffers.Remove.{Removes, list_remove_at-Removes}

-- Two lists with the same elements.
pub same_elements :
    {A : Type 0} (d : A) (xs ys : List A)
    → length xs ≡ length ys
    → ((j : ℕ) → j < length xs → get_or xs j d ≡ get_or ys j d)
    → xs ≡ ys
same_elements d [] [] l e = refl
same_elements d [] (y ∷ ys) l e = absurd (omega (arith, l))
same_elements d (x ∷ xs) [] l e = absurd (omega (arith, l))
same_elements d (x ∷ xs) (y ∷ ys) l e =
    let head : x ≡ y = e 0 (omega arith) in
    let rest = same_elements d xs ys (omega (arith, l)) (λ j h. e (suc j) (omega arith)) in
    rw (head, rest) refl

below_cases : (j index : ℕ) → (j < index) ⊎ (index ≤ j)
below_cases j index = omega arith

removed_again :
    {A : Type 0} (null : A) (b : Buffer A) (v : A) (index : ℕ) (b' : Buffer A) (a : A)
    (b'' : Buffer A)
    → Inserts null b v index b'
    → Removes null b' index a b''
    → b''.elements ≡ b.elements
removed_again null b v index b' a b'' i r =
    same_elements null b''.elements b.elements (omega (arith, i.count, r.count)) (λ j h.
      elim (below_cases j index) [
        | inl l ↦ r.before j l ∙ i.before j l
        | inr g ↦ r.behind j g h ∙ i.behind j g
      ])

-- A value that is inserted into a list of fewer than 2 ^ 30 elements, at an index up to its
-- count, is what a removal at that index gives back, and the list then has the elements it had;
-- both buffers have room for their elements.
pub list_remove_at-list_insert :
    {A : Type 0} (null : A) (b : Buffer A) (v : A) (index : ℕ)
    → index ≤ length b.elements
    → length b.elements < 2 ^ 30
    → (b' b'' : Buffer A) × (list_insert null b v index ≡ some b')
      × (list_remove_at null b' index ≡ some (v, b''))
      × (b''.elements ≡ b.elements)
      × HasRoom b'
      × HasRoom b''
list_remove_at-list_insert null b v index h l =
    let (b', inserts, i) = list_insert-Inserts null b v index h l in
    let (a, b'', removes, r) =
      list_remove_at-Removes null b' index i.has_room (omega (arith, i.count)) in
    let same : a ≡ v = r.element ∙ i.here in
    (
      b',
      b'',
      inserts,
      removes ∙ ap (λ x. some (x, b'')) same,
      removed_again null b v index b' a b'' i r,
      i.has_room,
      r.has_room,
    )
