-- ===== src/Index/Bounds.antt =====
-- What a range selects is inside the sequence.
use wrenegade.Base.{
  ℕ, ◌^◌, ◌≤◌, ◌<◌, ◌≡◌, refl, inl, inr, Bool, Bool-cases, ◌&&◌, arith, ltb, if◌then◌else◌,
}
use wrenegade.Base.Int.{ℤ, pos, negsuc}
use wrenegade.Index.{
  Number, integer, infinity, negative_infinity, fraction, not_a_number, Index, valid, failed,
  Failure, Range, range, range_failed, ObjRange, validate_int_value, from_end, in_bounds,
  validate_index_value, is_integer, distance, range_to, inclusive, range_from, calculate_range,
  element_index,
}

-- The elements that a range reaches.
pub data IsInside (length : ℕ) : Range → Type 0 where
  inside :
      (start count : ℕ) (step : ℤ)
      → ((i : ℕ) → i < count → element_index start i step < length)
      → IsInside length (range start count step)
  no_range : (f : Failure) → IsInside length (range_failed f)

up_inside :
    (length from to i : ℕ)
    → length ≤ 2 ^ 31
    → from < to
    → to < length
    → i < distance from to
    → element_index from i (pos 1) < length
unfolding distance element_index
up_inside length from to i b l t h = ground arith

down_inside :
    (length from to i : ℕ)
    → length ≤ 2 ^ 31
    → to ≤ from
    → from < length
    → i < distance from to
    → element_index from i (negsuc 0) < length
unfolding distance element_index
down_inside length from to i b l t h = ground arith

-- An index that is returned is in bounds.
pub data IsIndex (count : ℕ) : Index → Type 0 where
  is_valid : (i : ℕ) → i < count → IsIndex count (valid i)
  is_failed : (f : Failure) → IsIndex count (failed f)

in_bounds-IsIndex : (count : ℕ) (value : Number) → IsIndex count (in_bounds count value)
unfolding in_bounds
in_bounds-IsIndex count (integer (pos n)) = elim (Bool-cases (ltb n count)) [
  | inl e ↦ rw e (is_valid n (ground arith))
  | inr e ↦ rw e (is_failed _)
]
in_bounds-IsIndex count (integer (negsuc n)) = is_failed _
in_bounds-IsIndex count infinity = is_failed _
in_bounds-IsIndex count negative_infinity = is_failed _
in_bounds-IsIndex count fraction = is_failed _
in_bounds-IsIndex count not_a_number = is_failed _

validate_index_value-IsIndex :
    (count : ℕ) (value : Number) → IsIndex count (validate_index_value count value)
unfolding validate_index_value
validate_index_value-IsIndex count value = elim (Bool-cases (validate_int_value value)) [
  | inl e ↦ rw e (in_bounds-IsIndex count (from_end count value))
  | inr e ↦ rw e (is_failed _)
]

module _ (length : ℕ) (short : length ≤ 2 ^ 31) where
  IsInside-between :
      (from to : ℕ)
      → from < length
      → to < length
      → IsInside length (range from (distance from to) (if ltb from to then pos 1 else negsuc 0))
  IsInside-between from to p q = elim (Bool-cases (ltb from to)) [
    | inl e ↦ rw e (inside _ _ _ (λ i. up_inside length from to i short (ground arith) q))
    | inr e ↦ rw e (inside _ _ _ (λ i. down_inside length from to i short (ground arith) p))
  ]

  range_to-IsInside_of :
      (from : ℕ) (value : Number)
      → from < length
      → (x : Index) → IsIndex length x
      → in_bounds length value ≡ x
      → IsInside length (range_to length from value)
  unfolding range_to
  range_to-IsInside_of from value p (valid to) (is_valid _ q) e =
      rw (range_to, e) (IsInside-between from to p q)
  range_to-IsInside_of from value p (failed f) (is_failed _) e = rw (range_to, e) (no_range _)

  range_to-IsInside :
      (from : ℕ) (value : Number) → from < length → IsInside length (range_to length from value)
  range_to-IsInside from value p =
      range_to-IsInside_of from value p _ (in_bounds-IsIndex length value) refl

  nothing : (start : ℕ) → IsInside length (range start 0 (pos 0))
  nothing start = inside start 0 (pos 0) (λ i h. absurd (omega arith))

  range_from-IsInside :
      (r : ObjRange) (from : ℕ) → from < length → IsInside length (range_from length r from)
  unfolding range_from
  range_from-IsInside r from p = elim (Bool-cases (validate_int_value r.to)) [
    | inr e ↦ rw (range_from, e) (no_range _)
    | inl e ↦ elim (Bool-cases r.is_inclusive) [
      | inl f ↦ rw (range_from, e, f) (range_to-IsInside from (from_end length r.to) p)
      | inr f ↦ elim (Bool-cases (is_integer (from_end length r.to) (pos from))) [
        | inl g ↦ rw (range_from, e, f, g) (nothing from)
        | inr g ↦
            rw (range_from, e, f, g)
              (range_to-IsInside from (inclusive from (from_end length r.to)) p)
      ]
    ]
  ]

  range_of-IsInside :
      (r : ObjRange) (x : Index)
      → IsIndex length x
      → IsInside length
          (elim x [ failed f ↦ range_failed f | valid from ↦ range_from length r from ])
  range_of-IsInside r (valid i) (is_valid _ p) = range_from-IsInside r i p
  range_of-IsInside r (failed f) (is_failed _) = no_range f

-- For a sequence of at most 2 ^ 31 elements, whatever the bounds of a range are, if the check of
-- the range gives a start, a count and a step, then each of the count elements that the copy
-- loop reads, with its index computed on 32 bits, is inside the sequence.
pub calculate_range-IsInside :
    (r : ObjRange) (length : ℕ) → length ≤ 2 ^ 31 → IsInside length (calculate_range r length)
unfolding calculate_range
calculate_range-IsInside r length h =
    let edge : Bool =
      is_integer r.from (pos length)
      && is_integer r.to (if r.is_inclusive then negsuc 0 else pos length) in
    elim (Bool-cases edge) [
      | inl e ↦ rw (calculate_range, e) (nothing length h 0)
      | inr e ↦
          rw (calculate_range, e)
            (range_of-IsInside length h r _ (validate_index_value-IsIndex length r.from))
    ]
