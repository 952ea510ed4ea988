-- ===== src/Map/Program.antt =====
-- The operations of a map on the keys of programs: wrenValuesEqual and hashValue for the interface Key.
use wrenegade.Base.{ℕ, ◌<◌, ◌≡◌, Bool, Option, some, List, length}
use wrenegade.Map.{Entry, Map, find_entry, insert_entry, resize_map, map_set, map_remove_key}
use wrenegade.Map.Values.{KeyObject, MapKey}
use wrenegade.Map.Equality.{map_key}
use wrenegade.Map.Outcome.{Reaches, Outcome}
use wrenegade.Map.Find.{find_entry-Outcome}
use wrenegade.Map.Table.{size, IsTable}
use wrenegade.Map.Insert.{Inserts, insert_entry-Inserts}
use wrenegade.Map.Resize.{Resizes, resize_map-Resizes}
use wrenegade.Map.Methods.{IsValid, IsSmall, Sets, map_set-Sets}
use wrenegade.Map.Remove.{Removes, map_remove_key-Removes}

module _ {V : Type 0} {heap : ℕ → KeyObject} where
  -- For the keys of programs, with wrenValuesEqual and hashValue (all values that can be hashed
  -- but ranges with an end -0.0): setting a key in any map of at most 2 ^ 25 slots that keeps
  -- the invariant (well-formed table, right count, capacity 0 or at least 16, load at most 75
  -- percent) finds a slot and gives a map that keeps the invariant, with the count raised
  -- exactly if the key was not there, the value under every key equal to the one set, and every
  -- other key as before
  pub set_value-Sets :
      (m : Map (MapKey heap) V) (k : MapKey heap) (v : V)
      → IsValid m
      → IsSmall m
      → (m' : Map (MapKey heap) V) × (map_set m k v ≡ some m') × Sets m k v m'
  set_value-Sets = map_set-Sets

  -- For the keys of programs, with wrenValuesEqual and hashValue (all values that can be hashed
  -- but ranges with an end -0.0): removing a key from any map of at most 2 ^ 25 slots that keeps
  -- the invariant returns the value that was there or null, and leaves a map that keeps the
  -- invariant, with the count lowered exactly if the key was there, the keys equal to it gone
  -- and every other key as before, whether the table is cleared, shrunk or kept
  pub remove_value-Removes :
      (m : Map (MapKey heap) V) (k : MapKey heap)
      → IsValid m
      → IsSmall m
      → (old : Option V) × (m' : Map (MapKey heap) V) × (map_remove_key m k ≡ some (old, m'))
        × Removes m k old m'
  remove_value-Removes = map_remove_key-Removes

  -- For the keys of programs, with wrenValuesEqual and hashValue (all values that can be hashed
  -- but ranges with an end -0.0): in a table whose entries are reached by the searches for their
  -- keys, the search ends with a slot that holds an equal key; or with an empty or deleted slot
  -- up to which the probe sequence is filled, and no slot of the table holds an equal key; or
  -- with no slot, and every slot holds another key
  pub find_value-Outcome :
      (es : List (Entry (MapKey heap) V)) (k : MapKey heap)
      → Reaches es
      → Outcome es k (find_entry es k)
  find_value-Outcome = find_entry-Outcome

  -- For the keys of programs, with wrenValuesEqual and hashValue (all values that can be hashed
  -- but ranges with an end -0.0): resizing a well-formed table to a capacity above its number of
  -- entries gives a well-formed table of that capacity with as many entries, which reads the
  -- same at every key
  pub resize_values-Resizes :
      (m : Map (MapKey heap) V) (capacity : ℕ)
      → IsTable m.entries
      → size m.entries < capacity
      → (m' : Map (MapKey heap) V) × (resize_map m capacity ≡ some m') × Resizes m capacity m'
  resize_values-Resizes = resize_map-Resizes

  -- For the keys of programs, with wrenValuesEqual and hashValue (all values that can be hashed
  -- but ranges with an end -0.0): inserting into a well-formed table with fewer entries than
  -- slots finds a slot, and gives a well-formed table of the same width with one entry more
  -- exactly if the key was not there, which reads the new value at every key equal to the
  -- inserted one and is unchanged at the others
  pub insert_value-Inserts :
      (es : List (Entry (MapKey heap) V)) (k : MapKey heap) (v : V)
      → IsTable es
      → size es < length es
      → (es' : List (Entry (MapKey heap) V)) × (is_new : Bool) × (insert_entry es k v
          ≡ some (es', is_new))
        × Inserts es k v es' is_new
  insert_value-Inserts = insert_entry-Inserts
