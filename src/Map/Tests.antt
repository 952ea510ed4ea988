-- ===== src/Map/Tests.antt =====
-- The hash table with strings and ranges for keys.
use wrenegade.Base.{
  ℕ, zero, suc, ◌≡◌, refl, inl, ◌∙◌, sym, Bool, true, Option, some, List, [], ◌∷◌, length,
  replicate, arith,
}
use mathlib.Core.Option
use mathlib.Core.Path.{subst}
use wrenegade.Symbols.{string_equals}
use wrenegade.Strings.{same_bytes}
use wrenegade.Map.{
  Entry, empty, entry, Map, find_loop, find_entry, insert_entry, readd, resize_map, map_get,
  make_room, map_set, shrink, map_remove_key,
}
use wrenegade.Map.Values.{
  KeyObject, range_of, string_of, object_at, MapKey, double_equal, hash_bits, hash_object,
  objects_equal, hash_value, values_equal,
}
use wrenegade.Map.Equality.{map_key}
use wrenegade.Map.Outcome.{Outcome}
use wrenegade.Map.Insert.{Inserts}
use wrenegade.Map.Resize.{Resizes}
use wrenegade.Map.Methods.{IsValid, Sets}
use wrenegade.Map.Remove.{Removes}
use wrenegade.Map.Program.{
  set_value-Sets, remove_value-Removes, find_value-Outcome, resize_values-Resizes,
  insert_value-Inserts,
}

-- Two strings that collide in a table of 16 slots, a copy of the first, and a range from 0 to 0.
abbrev heap : ℕ → KeyObject
heap zero = string_of (record { value = b'a' ∷ []; hash = 1 })
heap (suc zero) = string_of (record { value = b'b' ∷ []; hash = 17 })
heap (suc (suc zero)) = string_of (record { value = b'a' ∷ []; hash = 1 })
heap (suc (suc (suc n))) = range_of 0 0 true

abbrev first : MapKey heap
first = record { value = object_at 0; is_key = tt }

abbrev second : MapKey heap
second = record { value = object_at 1; is_key = tt }

abbrev copy : MapKey heap
copy = record { value = object_at 2; is_key = tt }

abbrev range : MapKey heap
range = record { value = object_at 3; is_key = (refl, refl) }

abbrev no_entries : Map (MapKey heap) ℕ
no_entries = record { entries = []; count = 0 }

no_entries-IsValid : IsValid no_entries
no_entries-IsValid = record {
  table = record {
    reaches = λ i p. absurd (omega arith);
    unique = λ i j p q e. absurd (omega arith);
  };
  counted = refl;
  sized = inl refl;
  loaded = omega arith;
}

run : Unit {0}
unfolding find_loop find_entry insert_entry readd resize_map map_get make_room map_set shrink
    map_remove_key hash_bits hash_object objects_equal hash_value values_equal double_equal
    string_equals same_bytes
run = tt

-- The first insertion makes the table.
abbrev session : Option (Option ℕ × Option ℕ × ℕ)
session = Option.bind (map_set no_entries first 10) λ a.
    Option.bind (map_set a second 20) λ b.
      Option.bind (map_remove_key b copy) λ c. some (map_get c.1 second, c.0, length c.1.entries)

session_result : session ≡ some (some 20, some 10, 16)
unfolding run Option.bind
session_result = refl

set_value-Sets_example :
    (m' : Map (MapKey heap) ℕ) × (map_set no_entries range 10 ≡ some m')
    × Sets no_entries range 10 m'
set_value-Sets_example = set_value-Sets no_entries range 10 no_entries-IsValid (omega arith)

-- The map after that insertion.
abbrev one_entry : Map (MapKey heap) ℕ
one_entry = record { entries = empty ∷ entry first 10 ∷ replicate 14 empty; count = 1 }

made : map_set no_entries first 10 ≡ some one_entry
unfolding run
made = refl

one_entry-IsValid : IsValid one_entry
one_entry-IsValid =
    let (m', run', sets) = set_value-Sets no_entries first 10 no_entries-IsValid (omega arith) in
    let same : m' ≡ one_entry = cc (sym run' ∙ made) in subst IsValid same sets.valid

remove_value-Removes_example :
    (old : Option ℕ) × (m' : Map (MapKey heap) ℕ) × (map_remove_key one_entry copy ≡ some (old, m'))
    × Removes one_entry copy old m'
remove_value-Removes_example = remove_value-Removes one_entry copy one_entry-IsValid (omega arith)

find_value-Outcome_example : Outcome one_entry.entries second (find_entry one_entry.entries second)
find_value-Outcome_example =
    find_value-Outcome one_entry.entries second one_entry-IsValid.table.reaches

insert_value-Inserts_example :
    (es' : List (Entry (MapKey heap) ℕ)) × (is_new : Bool) × (insert_entry one_entry.entries second
        20
      ≡ some (es', is_new))
    × Inserts one_entry.entries second 20 es' is_new
insert_value-Inserts_example =
    insert_value-Inserts one_entry.entries second 20 one_entry-IsValid.table (omega arith)

resize_values-Resizes_example :
    (m' : Map (MapKey heap) ℕ) × (resize_map one_entry 32 ≡ some m') × Resizes one_entry 32 m'
resize_values-Resizes_example =
    resize_values-Resizes one_entry 32 one_entry-IsValid.table (omega arith)
