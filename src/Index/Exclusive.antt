-- ===== src/Index/Exclusive.antt =====
-- The elements that an exclusive range selects.
use wrenegade.Base.{
  ℕ, zero, suc, ◌+◌, ◌-◌, ◌^◌, ◌≤◌, ◌<◌, ◌≡◌, refl, inl, inr, true, false, Bool-cases, arith, ◌==◌,
  ltb, if◌then◌else◌,
}
use wrenegade.Base.Int.{ℤ, pos, negsuc, ◌+ℤ◌, ltb_ℤ}
use wrenegade.Index.{
  integer, Range, range, ObjRange, validate_int_value, from_end, in_bounds, validate_index_value,
  distance, range_to, inclusive, range_from, element_index, calculate_range,
}

-- Up from the start to before the end, down from the start to behind the end, or nothing.
pub data Selects (from to : ℕ) : Range → Type 0 where
  upwards :
      from < to
      → (step : ℤ) → ((i : ℕ) → i < to - from → element_index from i step ≡ from + i)
      → Selects from to (range from (to - from) step)
  selects_none : from ≡ to → Selects from to (range from 0 (pos 0))
  downwards :
      to < from
      → (step : ℤ) → ((i : ℕ) → i < from - to → element_index from i step ≡ from - i)
      → Selects from to (range from (from - to) step)

range_to_lem :
    (length from to : ℕ)
    → to < length
    → range_to length from (integer (pos to))
      ≡ range from (distance from to) (if ltb from to then pos 1 else negsuc 0)
unfolding range_to in_bounds
range_to_lem length from to p =
    let e : ltb to length ≡ true = ground arith in rw (range_to, in_bounds, e) refl

distance-up : (from to : ℕ) → to < 2 ^ 31 → from ≤ to → distance from to ≡ to - from + 1
unfolding distance
distance-up from to b h = ground arith

distance-down : (from to : ℕ) → from < 2 ^ 31 → to < from → distance from (suc to) ≡ from - to
unfolding distance
distance-down from to b h = ground arith

pred_pos : (n : ℕ) → pos (suc n) +ℤ negsuc 0 ≡ pos n
unfolding ◌+ℤ◌
pred_pos n = ground arith

suc_pos : (n : ℕ) → pos n +ℤ pos 1 ≡ pos (suc n)
unfolding ◌+ℤ◌
suc_pos n = ground arith

inclusive-up :
    (from to : ℕ) → from ≤ to → inclusive from (integer (pos (suc to))) ≡ integer (pos to)
unfolding inclusive
inclusive-up from to h =
    let e : ltb_ℤ (pos (suc to)) (pos from) ≡ false = ground arith in rw (e, pred_pos) refl

inclusive-down :
    (from to : ℕ) → to < from → inclusive from (integer (pos to)) ≡ integer (pos (suc to))
unfolding inclusive
inclusive-down from to h =
    let e : ltb_ℤ (pos to) (pos from) ≡ true = ground arith in rw (e, suc_pos) refl

abbrev pub exclusive : ℕ → ℕ → ObjRange
exclusive from to = record {
  from = integer (pos from);
  to = integer (pos to);
  is_inclusive = false;
}

up_index :
    (from to i : ℕ)
    → from + i ≤ to
    → to < 2 ^ 31
    → element_index from i (if ltb from to then pos 1 else negsuc 0) ≡ from + i
unfolding element_index
up_index from to i h b = ground arith

down_index : (from i : ℕ) → i ≤ from → from < 2 ^ 31 → element_index from i (negsuc 0) ≡ from - i
unfolding element_index
down_index from i h b = ground arith

-- An exclusive range whose ends differ goes on to the check of its end, made inclusive.
range_from-other :
    (length from to : ℕ)
    → (to == from) ≡ false
    → range_from length (exclusive from to) from
      ≡ range_to length from (inclusive from (integer (pos to)))
unfolding range_from validate_int_value from_end
range_from-other length from to e = rw (range_from, e) refl

Selects-up :
    (length from to : ℕ)
    → length ≤ 2 ^ 31
    → from ≤ to
    → to < length
    → Selects from (suc to) (range_from length (exclusive from (suc to)) from)
Selects-up length from to b h p =
    let other : (suc to == from) ≡ false = ground arith in
    let count : to - from + 1 ≡ suc to - from = omega arith in
    rw
      (
        range_from-other length from (suc to) other,
        inclusive-up from to h,
        range_to_lem length from to p,
        distance-up from to (omega arith) h,
        count,
      )
      (upwards (omega arith) _ (λ i q. up_index from to i (omega arith) (omega arith)))

Selects-down :
    (length from to : ℕ)
    → length ≤ 2 ^ 31
    → to < from
    → from < length
    → Selects from to (range_from length (exclusive from to) from)
Selects-down length from to b h p =
    let other : (to == from) ≡ false = ground arith in
    let step : ltb from (suc to) ≡ false = ground arith in
    rw
      (
        range_from-other length from to other,
        inclusive-down from to h,
        range_to_lem length from (suc to) (omega arith),
        step,
      )
      (rw (distance-down from to (omega arith) h)
        (downwards h _ (λ i q. down_index from i (omega arith) (omega arith))))

Selects-equal :
    (length from to : ℕ) → from ≡ to → Selects from to (range_from length (exclusive from to) from)
unfolding range_from validate_int_value from_end
Selects-equal length from to e =
    let same : (to == from) ≡ true = ground arith in rw (range_from, same) (selects_none e)

range_from-Selects :
    (length from to : ℕ)
    → length ≤ 2 ^ 31
    → from < length
    → to ≤ length
    → Selects from to (range_from length (exclusive from to) from)
range_from-Selects length from zero b p q = elim (Bool-cases (ltb 0 from)) [
  | inl e ↦ Selects-down length from 0 b (ground arith) p
  | inr e ↦ Selects-equal length from 0 (ground arith)
]
range_from-Selects length from (suc to) b p q = elim (Bool-cases (ltb to from)) [
  | inr e ↦ Selects-up length from to b (ground arith) (omega arith)
  | inl e ↦ elim (Bool-cases (ltb (suc to) from)) [
    | inl g ↦ Selects-down length from (suc to) b (ground arith) p
    | inr g ↦ Selects-equal length from (suc to) (ground arith)
  ]
]

-- In a sequence of at most 2 ^ 31 elements, an exclusive range from an index to an index or the
-- length is accepted, and the copy loop reads exactly the elements from the start up to before
-- the end, or from the start down to behind the end, or none when the two are equal.
pub calculate_range-Selects :
    (length from to : ℕ)
    → length ≤ 2 ^ 31
    → from < length
    → to ≤ length
    → Selects from to (calculate_range (exclusive from to) length)
unfolding calculate_range validate_index_value validate_int_value from_end in_bounds
calculate_range-Selects length from to b p q =
    let edge : (from == length) ≡ false = ground arith in
    let start : ltb from length ≡ true = ground arith in
    rw (calculate_range, edge, validate_index_value, in_bounds, start)
      (range_from-Selects length from to b p q)
