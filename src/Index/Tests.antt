-- ===== src/Index/Tests.antt =====
-- The checks of indices and ranges at a list of five elements.
use wrenegade.Base.{◌≡◌, refl, true, arith}
use wrenegade.Base.Int.{pos, negsuc, ◌+ℤ◌}
use wrenegade.Index.{
  integer, infinity, fraction, valid, failed, not_an_integer, out_of_bounds, range, range_failed,
  ObjRange, validate_int_value, from_end, in_bounds, validate_index_value, distance, range_to,
  inclusive, range_from, calculate_range, element_index,
}
use wrenegade.Index.Bounds.{IsInside, calculate_range-IsInside}
use wrenegade.Index.Exclusive.{Selects, exclusive, calculate_range-Selects}

run : Unit {0}
unfolding validate_int_value from_end in_bounds validate_index_value distance range_to inclusive
    range_from calculate_range element_index ◌+ℤ◌
run = tt

last_element : validate_index_value 5 (integer (negsuc 0)) ≡ valid 4
unfolding run
last_element = refl

infinite_index : validate_index_value 5 infinity ≡ failed out_of_bounds
unfolding run
infinite_index = refl

half_index : validate_index_value 5 fraction ≡ failed not_an_integer
unfolding run
half_index = refl

abbrev backwards : ObjRange
backwards = record { from = integer (pos 3); to = integer (negsuc 4); is_inclusive = true }

backwards-range : calculate_range backwards 5 ≡ range 3 4 (negsuc 0)
unfolding run
backwards-range = refl

beyond : calculate_range (exclusive 0 6) 5 ≡ range_failed out_of_bounds
unfolding run
beyond = refl

calculate_range-IsInside_example : IsInside 5 (calculate_range backwards 5)
calculate_range-IsInside_example = calculate_range-IsInside backwards 5 (omega arith)

calculate_range-Selects_example : Selects 1 5 (calculate_range (exclusive 1 5) 5)
calculate_range-Selects_example =
    calculate_range-Selects 5 1 5 (omega arith) (omega arith) (omega arith)
