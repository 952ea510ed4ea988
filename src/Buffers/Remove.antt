-- ===== src/Buffers/Remove.antt =====
-- `wrenListRemoveAt`, whose buffer keeps room for the elements when it shrinks.
use wrenegade.Base.{
  ℕ, zero, suc, ◌+◌, ◌-◌, ◌/◌, ◌≤◌, ◌<◌, ◌≡◌, refl, sym, ◌∙◌, arith, some, List, [], ◌∷◌, length,
  get_elem?, get_or, take, length-take, get_elem?-in, leb, if◌then◌else◌,
}
use mathlib.Core.Option
use wrenegade.Buffers.{Buffer, shift_up, list_remove_at}
use wrenegade.Buffers.Shift.{length-shift_up, get_or-shift_up}
use wrenegade.Buffers.Insert.{HasRoom}

get_or-take :
    {A : Type 0} (n : ℕ) (xs : List A) (i : ℕ) (d : A)
    → i < n
    → get_or (take n xs) i d ≡ get_or xs i d
get_or-take zero xs i d h = absurd (omega arith)
get_or-take (suc n) [] i d h = refl
get_or-take (suc n) (x ∷ xs) zero d h = refl
get_or-take (suc n) (x ∷ xs) (suc i) d h = get_or-take n xs i d (omega arith)

get_or-get_elem? :
    {A : Type 0} (xs : List A) (i : ℕ) (d a : A) → get_elem? xs i ≡ some a → get_or xs i d ≡ a
get_or-get_elem? [] i d a e = cc
get_or-get_elem? (x ∷ xs) zero d a e = cc
get_or-get_elem? (x ∷ xs) (suc i) d a e = get_or-get_elem? xs i d a e

-- What a removal promises.
pub record Removes {A : Type 0} (null : A) (b : Buffer A) (index : ℕ) (removed : A) (b' : Buffer A)
    : Type 0 where
  pub has_room : HasRoom b'
  pub count : length b'.elements + 1 ≡ length b.elements
  pub element : removed ≡ get_or b.elements index null
  pub before : (j : ℕ) → j < index → get_or b'.elements j null ≡ get_or b.elements j null
  pub behind :
      (j : ℕ)
      → index ≤ j
      → j < length b'.elements
      → get_or b'.elements j null ≡ get_or b.elements (j + 1) null

abbrev removed_from : {A : Type 0} → A → Buffer A → ℕ → Buffer A
removed_from null b index = record {
  elements =
      take (length b.elements - 1) (shift_up null b.elements index (length b.elements - 1 - index));
  capacity = if leb (length b.elements) (b.capacity / 2) then b.capacity / 2 else b.capacity;
}

list_remove_at-run :
    {A : Type 0} (null : A) (b : Buffer A) (index : ℕ) (a : A)
    → get_elem? b.elements index ≡ some a
    → list_remove_at null b index ≡ some (a, removed_from null b index)
unfolding list_remove_at Option.bind
list_remove_at-run null b index a e = rw (list_remove_at, e) refl

get_or-removed_from :
    {A : Type 0} (null : A) (b : Buffer A) (index j : ℕ)
    → index < length b.elements
    → j < length b.elements - 1
    → get_or (removed_from null b index).elements j null
      ≡ (if leb index j then get_or b.elements (j + 1) null else get_or b.elements j null)
get_or-removed_from null b index j h g =
    let rounds = length b.elements - 1 - index in
    let cut =
      get_or-take (length b.elements - 1) (shift_up null b.elements index rounds) j null g in
    let moves = get_or-shift_up null b.elements index rounds j (omega arith) in
    ground (arith, cut, moves)

-- Removing the element at an index below the count, from a list whose buffer has room for its
-- elements, gives that element and a list of one element less with room for them, in which the
-- elements before the index are in their places and the others moved down by one.
pub list_remove_at-Removes :
    {A : Type 0} (null : A) (b : Buffer A) (index : ℕ)
    → HasRoom b
    → index < length b.elements
    → (a : A) × (b' : Buffer A) × (list_remove_at null b index ≡ some (a, b'))
      × Removes null b index a b'
list_remove_at-Removes null b index r h =
    let (a, e) = get_elem?-in b.elements index h in
    let rounds = length b.elements - 1 - index in
    let size : length (removed_from null b index).elements + 1 ≡ length b.elements = omega (
      arith,
      length-take (length b.elements - 1) (shift_up null b.elements index rounds),
      length-shift_up null b.elements index rounds,
    ) in
    (
      a,
      removed_from null b index,
      list_remove_at-run null b index a e,
      record {
        has_room = ground (arith, size);
        count = size;
        element = sym (get_or-get_elem? b.elements index null a e);
        before = λ j g. get_or-removed_from null b index j h (omega arith) ∙ ground arith;
        behind = λ j g l. get_or-removed_from null b index j h (omega (arith, size)) ∙ ground arith;
      },
    )
