-- ===== src/Buffers/Tests.antt =====
-- Insertions and removals.
use wrenegade.Base.{ℕ, ◌≡◌, refl, arith, some, [], ◌∷◌}
use mathlib.Core.Option
use wrenegade.Buffers.{
  Buffer, power_of_2_ceil, buffer_fill, buffer_write, shift_down, list_insert, shift_up,
  list_remove_at,
}
use wrenegade.Buffers.Insert.{HasRoom, Inserts, list_insert-Inserts}
use wrenegade.Buffers.Remove.{Removes, list_remove_at-Removes}
use wrenegade.Buffers.RoundTrip.{list_remove_at-list_insert}

abbrev letters : Buffer ℕ
letters = record { elements = 97 ∷ 98 ∷ 99 ∷ []; capacity = 3 }

inserted :
    list_insert 0 letters 120 1 ≡ some (record { elements = 97 ∷ 120 ∷ 98 ∷ 99 ∷ []; capacity = 4 })
unfolding power_of_2_ceil buffer_fill buffer_write shift_down list_insert Option.bind
inserted = refl

removed : list_remove_at 0 letters 0 ≡ some (97, record { elements = 98 ∷ 99 ∷ []; capacity = 3 })
unfolding shift_up list_remove_at Option.bind
removed = refl

rounded : power_of_2_ceil 1000 ≡ 1024
unfolding power_of_2_ceil
rounded = refl

list_insert-Inserts_example :
    (b : Buffer ℕ) × (list_insert 0 letters 120 1 ≡ some b) × Inserts 0 letters 120 1 b
list_insert-Inserts_example = list_insert-Inserts 0 letters 120 1 (omega arith) (omega arith)

list_remove_at-Removes_example :
    (a : ℕ) × (b : Buffer ℕ) × (list_remove_at 0 letters 2 ≡ some (a, b)) × Removes 0 letters 2 a b
list_remove_at-Removes_example = list_remove_at-Removes 0 letters 2 (omega arith) (omega arith)

list_remove_at-list_insert_example :
    (b b' : Buffer ℕ) × (list_insert 0 letters 120 3 ≡ some b)
    × (list_remove_at 0 b 3 ≡ some (120, b'))
    × (b'.elements ≡ letters.elements)
    × HasRoom b
    × HasRoom b'
list_remove_at-list_insert_example =
    list_remove_at-list_insert 0 letters 120 3 (omega arith) (omega arith)
