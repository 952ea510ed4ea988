-- ===== src/Index.antt =====
-- lib/wren/src/vm/wren_primitive.c: the checks of indices and ranges, and the loop by which
-- lib/wren/src/vm/wren_core.c copies a range of a list. An index of 2 ^ 53 or more in size, where
-- doubles leave integers out, stands here for itself: it is out of bounds either way.
pub mod Bounds
pub mod Exclusive
mod Tests
use wrenegade.Base.{
  ℕ, zero, suc, ◌+◌, ◌-◌, ◌*◌, ◌%◌, ◌^◌, Bool, true, false, ◌&&◌, ◌||◌, List, [], ◌∷◌, length,
  get_or, ◌==◌, ltb, leb, if◌then◌else◌, Option, none, some,
}
use wrenegade.Base.Int.{ℤ, pos, negsuc, ◌+ℤ◌, ltb_ℤ}

-- A double, as far as the checks tell doubles apart. `trunc` keeps an infinity as it is.
pub data Number : Type 0 where
  integer : ℤ → Number
  infinity negative_infinity fraction not_a_number : Number

pub data Failure : Type 0 where
  not_an_integer out_of_bounds : Failure

-- An index, or the error and UINT32_MAX.
pub data Index : Type 0 where
  valid : ℕ → Index
  failed : Failure → Index

unfoldable pub validate_int_value : Number → Bool
validate_int_value (integer z) = true
validate_int_value infinity = true
validate_int_value negative_infinity = true
validate_int_value fraction = false
validate_int_value not_a_number = false

-- `if (value < 0) value = count + value`
unfoldable pub from_end : ℕ → Number → Number
from_end count (integer (pos n)) = integer (pos n)
from_end count (integer (negsuc n)) = integer (pos count +ℤ negsuc n)
from_end count infinity = infinity
from_end count negative_infinity = negative_infinity
from_end count fraction = fraction
from_end count not_a_number = not_a_number

-- `value >= 0 && value < count`, and then the index.
unfoldable pub in_bounds : ℕ → Number → Index
in_bounds count (integer (pos n)) = if ltb n count then valid n else failed out_of_bounds
in_bounds count (integer (negsuc n)) = failed out_of_bounds
in_bounds count infinity = failed out_of_bounds
in_bounds count negative_infinity = failed out_of_bounds
in_bounds count fraction = failed out_of_bounds
in_bounds count not_a_number = failed out_of_bounds

unfoldable pub validate_index_value : ℕ → Number → Index
validate_index_value count value =
    if validate_int_value value
    then in_bounds count (from_end count value)
    else failed not_an_integer

-- The start, `*length` and `*step`, or the error.
pub data Range : Type 0 where
  range : ℕ → ℕ → ℤ → Range
  range_failed : Failure → Range

pub record ObjRange : Type 0 where
  pub from : Number
  pub to : Number
  pub is_inclusive : Bool

abbrev pub is_integer : Number → ℤ → Bool
is_integer (integer (pos n)) (pos m) = n == m
is_integer (integer (negsuc n)) (negsuc m) = n == m
is_integer _ _ = false

-- `abs((int)(from - to)) + 1` on 32 bits.
unfoldable pub distance : ℕ → ℕ → ℕ
distance from to =
    let word = (from + 2 ^ 32 - to) % 2 ^ 32 in
    if ltb word (2 ^ 31) then word + 1 else 2 ^ 32 - word + 1

-- From the bounds check of the end on.
unfoldable pub range_to : ℕ → ℕ → Number → Range
range_to length from value = elim (in_bounds length value) [
  | failed f ↦ range_failed out_of_bounds
  | valid to ↦ range from (distance from to) (if ltb from to then pos 1 else negsuc 0)
]

-- `value += value >= from ? -1 : 1`
unfoldable pub inclusive : ℕ → Number → Number
inclusive from (integer z) = integer (z +ℤ (if ltb_ℤ z (pos from) then pos 1 else negsuc 0))
inclusive from infinity = infinity
inclusive from negative_infinity = negative_infinity
inclusive from fraction = fraction
inclusive from not_a_number = not_a_number

-- From the check of the end on, with a start that is an index.
unfoldable pub range_from : ℕ → ObjRange → ℕ → Range
range_from length r from =
    let value = from_end length r.to in
    if validate_int_value r.to
    then if r.is_inclusive
      then range_to length from value
      else if is_integer value (pos from)
      then range from 0 (pos 0)
      else range_to length from (inclusive from value)
    else range_failed not_an_integer

unfoldable pub calculate_range : ObjRange → ℕ → Range
calculate_range r length =
    if is_integer r.from (pos length)
      && is_integer r.to (if r.is_inclusive then negsuc 0 else pos length)
    then range 0 0 (pos 0)
    else elim (validate_index_value length r.from) [
      | failed f ↦ range_failed f
      | valid from ↦ range_from length r from
    ]

-- `start + i * step` on 32 bits.
abbrev pub word : ℤ → ℕ
word (pos n) = n % 2 ^ 32
word (negsuc n) = 2 ^ 32 - 1 - n % 2 ^ 32

unfoldable pub element_index : ℕ → ℕ → ℤ → ℕ
element_index start i step = (start + i * word step) % 2 ^ 32
