-- ===== src/Buffers.antt =====
-- Growing buffers (`DEFINE_BUFFER` of lib/wren/src/vm/wren_utils.h) and the lists that stand on them
-- (wren_value.c). The elements in use are a list, so that its length is `count`.
pub mod Ceil
pub mod Shift
pub mod Insert
pub mod Remove
pub mod RoundTrip
mod Tests
use wrenegade.Base.{
  ℕ, zero, suc, ◌+◌, ◌-◌, ◌/◌, ◌^◌, Bool, Option, none, some, List, [], ◌∷◌, ◌++◌, length,
  get_elem?, get_or, set, take, replicate, bit_or, ltb, leb, ◌==◌, if◌then◌else◌,
}
use mathlib.Core.Option

pub record Buffer (A : Type 0) : Type 0 where
  pub elements : List A
  pub capacity : ℕ

-- `n |= n >> k`
abbrev pub or_shifted : ℕ → ℕ → ℕ
or_shifted k n = bit_or n (n / 2 ^ k)

-- `wrenPowerOf2Ceil`; at 0 the bits are those of -1.
unfoldable pub power_of_2_ceil : ℕ → ℕ
power_of_2_ceil n =
    if n == 0
    then 0
    else or_shifted 16 (or_shifted 8 (or_shifted 4 (or_shifted 2 (or_shifted 1 (n - 1))))) + 1

unfoldable pub buffer_fill : {A : Type 0} → Buffer A → A → ℕ → Buffer A
buffer_fill b v count = record {
  elements = b.elements ++ replicate count v;
  capacity =
      if ltb b.capacity (length b.elements + count)
      then power_of_2_ceil (length b.elements + count)
      else b.capacity;
}

unfoldable pub buffer_write : {A : Type 0} → Buffer A → A → Buffer A
buffer_write b v = buffer_fill b v 1

-- The loop of `wrenListInsert`, with its rounds, from the last element down to the index; none is an
-- access out of bounds.
unfoldable pub shift_down : {A : Type 0} → List A → ℕ → ℕ → Option (List A)
shift_down elements index zero = some elements
shift_down elements index (suc n) = Option.bind (get_elem? elements (index + n)) λ a.
    if ltb (index + suc n) (length elements)
    then shift_down (set elements (index + suc n) a) index n
    else none

-- `wrenListInsert`; none is an access out of bounds.
unfoldable pub list_insert : {A : Type 0} → A → Buffer A → A → ℕ → Option (Buffer A)
list_insert null b v index =
    let grown = buffer_write b null in
    Option.bind (shift_down grown.elements index (length grown.elements - 1 - index)) λ elements.
      if ltb index (length elements)
      then some (record grown { elements = set elements index v })
      else none

-- The loop of `wrenListRemoveAt`, with its rounds, from the index up.
unfoldable pub shift_up : {A : Type 0} → A → List A → ℕ → ℕ → List A
shift_up null elements i zero = elements
shift_up null elements i (suc n) =
    shift_up null (set elements i (get_or elements (i + 1) null)) (i + 1) n

-- `wrenListRemoveAt`, with the element; none is an access out of bounds.
unfoldable pub list_remove_at : {A : Type 0} → A → Buffer A → ℕ → Option (A × Buffer A)
list_remove_at null b index = Option.bind (get_elem? b.elements index) λ removed.
    let count = length b.elements in
    some (
      removed,
      record {
        elements = take (count - 1) (shift_up null b.elements index (count - 1 - index));
        capacity = if leb count (b.capacity / 2) then b.capacity / 2 else b.capacity;
      },
    )
