-- ===== src/Map.antt =====
-- lib/wren/src/vm/wren_value.c: the hash table of `Map` objects, with open addressing and linear
-- probing (`findEntry` to `wrenMapRemoveKey`). Memory is managed by the caller and left out.
pub mod Keys
pub mod Values
pub mod Equality
pub mod Probe
pub mod Outcome
pub mod Find
pub mod Table
pub mod Write
pub mod Insert
pub mod Resize
pub mod Methods
pub mod Remove
pub mod Program
mod Tests
use wrenegade.Base.{
  ℕ, zero, suc, ◌+◌, ◌-◌, ◌*◌, ◌/◌, ◌%◌, ◌^◌, Bool, true, false, ◌&&◌, Option, none, some, List, [],
  ◌∷◌, length, get_or, set, replicate, ltb, ◌==◌, if◌then◌else◌,
}
use mathlib.Core.Option
use wrenegade.Map.Keys.{Key}

-- A `MapEntry`: an empty slot has the key UNDEFINED and the value false, a deleted one has the key
-- UNDEFINED and the value true.
pub data Entry {ℓ} (K V : Type ℓ) : Type ℓ where
  empty tombstone : Entry K V
  entry : K → V → Entry K V

-- What `findEntry` returns: true with the slot of the key, or false with the slot for an insertion.
-- That slot is NULL when every slot holds another key.
pub data Search : Type 0 where
  found : ℕ → Search
  absent : Option ℕ → Search

-- `capacity` is the length of `entries`.
pub record Map {ℓ} (K V : Type ℓ) : Type ℓ where
  pub entries : List (Entry K V)
  pub count : ℕ

-- `MIN_CAPACITY`, `GROW_FACTOR`, `MAP_LOAD_PERCENT`
abbrev pub min_capacity : ℕ
min_capacity = 16

abbrev pub grow_factor : ℕ
grow_factor = 2

abbrev pub map_load_percent : ℕ
map_load_percent = 75

-- `tombstone != NULL ? tombstone : entry`, and the note of the first tombstone.
abbrev pub first_of_two : Option ℕ → ℕ → ℕ
first_of_two none i = i
first_of_two (some t) i = t

-- The load that a capacity allows, `capacity * MAP_LOAD_PERCENT / 100` on 32 bits.
abbrev pub allowed : ℕ → ℕ
allowed capacity = capacity * map_load_percent % 2 ^ 32 / 100

abbrev pub at_least_min : ℕ → ℕ
at_least_min capacity = if ltb capacity min_capacity then min_capacity else capacity

module _ {ℓ} {K V : Type ℓ} ⦃key : Key K⦄ where
  -- The `do` loop of `findEntry`, one round for each slot.
  unfoldable pub find_loop : ℕ → List (Entry K V) → ℕ → ℕ → Option ℕ → K → Search
  find_loop zero entries start index tomb k = absent tomb
  find_loop (suc rounds) entries start index tomb k =
      let next = (index + 1) % length entries in
      elim (get_or entries index empty) [
        | empty ↦ absent (some (first_of_two tomb index))
        | tombstone ↦
            let tomb' = some (first_of_two tomb index) in
            elim (next == start) [
              | true ↦ absent tomb'
              | false ↦ find_loop rounds entries start next tomb' k
            ]
        | entry k' v ↦ elim (key.equal k' k) [
          | true ↦ found index
          | false ↦ elim (next == start) [
            | true ↦ absent tomb
            | false ↦ find_loop rounds entries start next tomb k
          ]
        ]
      ]

  -- `findEntry`
  unfoldable pub find_entry : List (Entry K V) → K → Search
  unfolding find_loop
  find_entry entries k =
      let start = key.hash k % length entries in
      if length entries == 0
      then absent none
      else find_loop (length entries) entries start start none k

  -- `insertEntry`: the entries, and whether the key is new. With no slot the source writes through a
  -- NULL pointer, `none` here.
  unfoldable pub insert_entry : List (Entry K V) → K → V → Option (List (Entry K V) × Bool)
  insert_entry entries k v = elim (find_entry entries k) [
    | found i ↦ elim (get_or entries i empty) [
      | entry k' old ↦ some (set entries i (entry k' v), false)
      | _ ↦ none
    ]
    | absent (some i) ↦ some (set entries i (entry k v), true)
    | absent none ↦ none
  ]

  -- The loop of `resizeMap` over the old entries, which skips empty and deleted slots.
  unfoldable pub readd : List (Entry K V) → List (Entry K V) → Option (List (Entry K V))
  readd [] fresh = some fresh
  readd (empty ∷ old) fresh = readd old fresh
  readd (tombstone ∷ old) fresh = readd old fresh
  readd (entry k v ∷ old) fresh = elim (insert_entry fresh k v) [
    | none ↦ none
    | some (fresh', _) ↦ readd old fresh'
  ]

  -- `resizeMap`
  unfoldable pub resize_map : Map K V → ℕ → Option (Map K V)
  resize_map m capacity = elim (readd m.entries (replicate capacity empty)) [
    | none ↦ none
    | some entries ↦ some (record { entries = entries; count = m.count })
  ]

  -- `wrenMapGet`; `none` is UNDEFINED.
  unfoldable pub map_get : Map K V → K → Option V
  map_get m k = elim (find_entry m.entries k) [
    | found i ↦ elim (get_or m.entries i empty) [ entry k' v ↦ some v | _ ↦ none ]
    | absent slot ↦ none
  ]

  -- The test and the resizing at the head of `wrenMapSet`.
  unfoldable pub make_room : Map K V → Option (Map K V)
  make_room m =
      let capacity = length m.entries in
      if ltb (allowed capacity) (m.count + 1)
      then resize_map m (at_least_min (capacity * grow_factor % 2 ^ 32))
      else some m

  -- `wrenMapSet`
  unfoldable pub map_set : Map K V → K → V → Option (Map K V)
  map_set m k v = elim (make_room m) [
    | none ↦ none
    | some m' ↦ elim (insert_entry m'.entries k v) [
      | none ↦ none
      | some (entries, is_new) ↦
          some (record { entries = entries; count = if is_new then m'.count + 1 else m'.count })
    ]
  ]

  -- `wrenMapClear`
  abbrev pub map_clear : Map K V
  map_clear = record { entries = []; count = 0 }

  -- The end of `wrenMapRemoveKey`, from the test on the count on.
  unfoldable pub shrink : Map K V → Option (Map K V)
  shrink m =
      let capacity = length m.entries in
      if m.count == 0
      then some map_clear
      else if ltb min_capacity capacity && ltb m.count (allowed (capacity / grow_factor))
      then resize_map m (at_least_min (capacity / grow_factor))
      else some m

  -- `wrenMapRemoveKey`: the value that was there, or `none` for null.
  unfoldable pub map_remove_key : Map K V → K → Option (Option V × Map K V)
  map_remove_key m k = elim (find_entry m.entries k) [
    | absent slot ↦ some (none, m)
    | found i ↦ elim (get_or m.entries i empty) [
      | entry k' v ↦
          let removed : Map K V = record {
            entries = set m.entries i tombstone;
            count = m.count - 1;
          } in
          Option.map (λ m'. (some v, m')) (shrink removed)
      | _ ↦ none
    ]
  ]
