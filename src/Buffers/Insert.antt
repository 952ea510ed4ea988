-- ===== src/Buffers/Insert.antt =====
-- `wrenListInsert` in a buffer that has room for its elements.
use wrenegade.Base.{
  ℕ, zero, suc, ◌+◌, ◌-◌, ◌^◌, ◌≤◌, ◌<◌, ◌≡◌, refl, ◌∙◌, arith, some, List, [], ◌∷◌, ◌++◌, length,
  get_or, set, length-set, length-append, get_or-set, ltb, leb, ◌==◌, ◌&&◌, if◌then◌else◌, true,
}
use mathlib.Core.Option
use wrenegade.Buffers.{Buffer, buffer_fill, buffer_write, list_insert}
use wrenegade.Buffers.Ceil.{power_of_2_ceil-above}
use wrenegade.Buffers.Shift.{
  moved_down, shift_down-moved_down, length-moved_down, get_or-moved_down,
}

abbrev pub HasRoom : {A : Type 0} → Buffer A → Type 0
HasRoom b = length b.elements ≤ b.capacity

pub buffer_write-HasRoom :
    {A : Type 0} (b : Buffer A) (v : A) → length b.elements < 2 ^ 30 → HasRoom (buffer_write b v)
unfolding buffer_write buffer_fill
buffer_write-HasRoom b v h =
    let n = length b.elements + 1 in
    let (above, below) = power_of_2_ceil-above n (omega arith) (omega arith) in
    ground (arith, above, length-append b.elements (v ∷ []))

get_or-write :
    {A : Type 0} (xs : List A) (null : A) (j : ℕ)
    → get_or (xs ++ null ∷ []) j null ≡ get_or xs j null
get_or-write [] null zero = refl
get_or-write [] null (suc j) = refl
get_or-write (x ∷ xs) null zero = refl
get_or-write (x ∷ xs) null (suc j) = get_or-write xs null j

-- What an insertion promises.
pub record Inserts {A : Type 0} (null : A) (b : Buffer A) (v : A) (index : ℕ) (b' : Buffer A)
    : Type 0 where
  pub has_room : HasRoom b'
  pub count : length b'.elements ≡ length b.elements + 1
  pub before : (j : ℕ) → j < index → get_or b'.elements j null ≡ get_or b.elements j null
  pub here : get_or b'.elements index null ≡ v
  pub behind : (j : ℕ) → index ≤ j → get_or b'.elements (j + 1) null ≡ get_or b.elements j null

get_or-end : {A : Type 0} (xs : List A) (null : A) (j : ℕ) → length xs ≤ j → get_or xs j null ≡ null
get_or-end [] null j l = refl
get_or-end (x ∷ xs) null zero l = absurd (omega arith)
get_or-end (x ∷ xs) null (suc j) l = get_or-end xs null j (omega arith)

write-HasRoom :
    {A : Type 0} (b : Buffer A) (null : A) (xs : List A)
    → HasRoom (buffer_write b null)
    → length xs ≡ length b.elements + 1
    → HasRoom (record (buffer_write b null) { elements = xs })
unfolding buffer_write buffer_fill
write-HasRoom b null xs r e = omega (arith, r, e, length-append b.elements (null ∷ []))

-- The elements, with a slot more, moved, and written.
module _ {A : Type 0} (null : A) (xs : List A) (v : A) (index : ℕ) where
  moved : List A
  moved = moved_down null (xs ++ null ∷ []) index (length (xs ++ null ∷ []) - 1 - index)

  length-grown : length (xs ++ null ∷ []) ≡ length xs + 1
  length-grown = length-append xs (null ∷ [])

  length-moved : length moved ≡ length xs + 1
  unfolding moved
  length-moved = length-moved_down null (xs ++ null ∷ []) index _ ∙ length-grown

  get_or-moved :
      index ≤ length xs
      → (j : ℕ)
      → get_or moved j null
        ≡ (if ltb index j && leb j (length xs) then get_or xs (j - 1) null else get_or xs j null)
  unfolding moved
  get_or-moved h j =
      let rounds : index + (length (xs ++ null ∷ []) - 1 - index) ≡ length xs =
        omega (arith, h, length-grown) in
      let moves =
        get_or-moved_down null (xs ++ null ∷ []) index (length (xs ++ null ∷ []) - 1 - index) j
          (omega (arith, rounds, length-grown)) in
      ground (arith, moves, rounds, get_or-write xs null j, get_or-write xs null (j - 1))

  get_or-inserted :
      index ≤ length xs
      → (j : ℕ)
      → get_or (set moved index v) j null ≡ (if index == j then v else get_or moved j null)
  get_or-inserted h j = get_or-set moved index j v null (omega (arith, h, length-moved))

list_insert-run :
    {A : Type 0} (null : A) (b : Buffer A) (v : A) (index : ℕ)
    → index ≤ length b.elements
    → list_insert null b v index
      ≡ some
          (record (buffer_write b null) { elements = set (moved null b.elements v index) index v })
unfolding list_insert moved buffer_write buffer_fill Option.bind
list_insert-run null b v index h =
    let xs = b.elements ++ null ∷ [] in
    let grown = length-grown null b.elements v index in
    let moves =
      shift_down-moved_down null xs index (length xs - 1 - index) (omega (arith, h, grown)) in
    let inside : ltb index (length (moved_down null xs index (length xs - 1 - index))) ≡ true =
      ground (arith, h, grown, length-moved_down null xs index (length xs - 1 - index)) in
    rw (list_insert, moves, inside) refl

-- Inserting a value into a list of fewer than 2 ^ 30 elements, at an index up to its count, ends
-- with every read and write within the elements in use and the one appended, and gives a buffer
-- with room for its elements and one element more: the value at the index, the elements before
-- it in their places, the others moved up by one
pub list_insert-Inserts :
    {A : Type 0} (null : A) (b : Buffer A) (v : A) (index : ℕ)
    → index ≤ length b.elements
    → length b.elements < 2 ^ 30
    → (b' : Buffer A) × (list_insert null b v index ≡ some b') × Inserts null b v index b'
list_insert-Inserts null b v index h l =
    let xs = b.elements in
    let room = buffer_write-HasRoom b null l in
    let size = length-set (moved null xs v index) index v ∙ length-moved null xs v index in
    (
      _,
      list_insert-run null b v index h,
      record {
        has_room = write-HasRoom b null _ room size;
        count = size;
        before = λ j g.
            ground (arith, get_or-inserted null xs v index h j, get_or-moved null xs v index h j);
        here = ground (arith, get_or-inserted null xs v index h index);
        behind = λ j g. ground (
          arith,
          get_or-inserted null xs v index h (j + 1),
          get_or-moved null xs v index h (j + 1),
          get_or-end xs null j,
          get_or-end xs null (j + 1),
        );
      },
    )
