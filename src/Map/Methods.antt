-- ===== src/Map/Methods.antt =====
-- The methods of a map against the abstract map, a function from keys to values.
use wrenegade.Base.{
  ℕ, ◌+◌, ◌*◌, ◌/◌, ◌%◌, ◌^◌, ◌≤◌, ◌≡◌, refl, sym, ◌∙◌, ◌⊎◌, inl, inr, Bool, true, false,
  Bool-cases, some, length, arith, ltb, if◌then◌else◌,
}
use wrenegade.Map.{Map, allowed, at_least_min, map_get, make_room, map_set}
use wrenegade.Map.Keys.{Key}
use wrenegade.Map.Table.{size, IsTable, view}
use wrenegade.Map.Insert.{is_none, insert_entry-Inserts}
use wrenegade.Map.Resize.{resize_map-Resizes}

abbrev grown : ℕ → ℕ
grown capacity = at_least_min (capacity * 2 % 2 ^ 32)

-- Doubling a capacity of the invariant makes room for one more entry.
grown_bounds :
    (capacity count : ℕ)
    → capacity ≤ 2 ^ 25
    → (capacity ≡ 0) ⊎ (16 ≤ capacity)
    → count * 100 ≤ capacity * 75
    → (16 ≤ grown capacity) × ((count + 1) * 100 ≤ grown capacity * 75)
grown_bounds capacity count h (inl s) l = ground arith
grown_bounds capacity count h (inr s) l = ground arith

-- A load that the test of `wrenMapSet` lets pass.
fits_bounds :
    (capacity count : ℕ)
    → capacity ≤ 2 ^ 25
    → (capacity ≡ 0) ⊎ (16 ≤ capacity)
    → ltb (allowed capacity) (count + 1) ≡ false
    → (16 ≤ capacity) × ((count + 1) * 100 ≤ capacity * 75)
fits_bounds capacity count h (inl s) l = ground arith
fits_bounds capacity count h (inr s) l = ground arith

count_if : (b : Bool) (n : ℕ) → (if b then n + 1 else n) ≡ n + (if b then 1 else 0)
count_if b n = ground arith

load_if :
    (b : Bool) (n width : ℕ)
    → (n + 1) * 100 ≤ width * 75
    → (n + (if b then 1 else 0)) * 100 ≤ width * 75
load_if b n width h = ground arith

-- Halving leaves room for the entries that are there.
abbrev pub halved : ℕ → ℕ
halved capacity = at_least_min (capacity / 2)

pub halved_bounds :
    (capacity count : ℕ)
    → capacity ≤ 2 ^ 25
    → ltb count (allowed (capacity / 2)) ≡ true
    → (16 ≤ halved capacity) × (count * 100 ≤ halved capacity * 75)
halved_bounds capacity count h l = ground arith

module _ {ℓ} {K V : Type ℓ} ⦃key : Key K⦄ where
  -- The invariant of a map: a well-formed table, a count that is right, no capacity below the minimum
  -- but 0, and a load of at most 75 percent.
  pub record IsValid (m : Map K V) : Type 0 where
    pub table : IsTable m.entries
    pub counted : size m.entries ≡ m.count
    pub sized : (length m.entries ≡ 0) ⊎ (16 ≤ length m.entries)
    pub loaded : m.count * 100 ≤ length m.entries * 75

  -- `capacity * MAP_LOAD_PERCENT` does not wrap.
  abbrev pub IsSmall : Map K V → Type 0
  IsSmall m = length m.entries ≤ 2 ^ 25

  map_get-view : (m : Map K V) (q : K) → map_get m q ≡ view m.entries q
  unfolding map_get
  map_get-view m q = refl

  -- Room for one more entry, and nothing else changed.
  record HasRoom (m m' : Map K V) : Type ℓ where
    table : IsTable m'.entries
    counted : size m'.entries ≡ m'.count
    count : m'.count ≡ m.count
    sized : 16 ≤ length m'.entries
    room : (m.count + 1) * 100 ≤ length m'.entries * 75
    reads : (q : K) → view m'.entries q ≡ view m.entries q

  make_room-HasRoom :
      (m : Map K V)
      → IsValid m
      → IsSmall m
      → (m' : Map K V) × (make_room m ≡ some m') × HasRoom m m'
  unfolding make_room
  make_room-HasRoom m v small = elim (Bool-cases (ltb (allowed (length m.entries)) (m.count + 1))) [
    | inl full ↦
        let (wide, room) = grown_bounds (length m.entries) m.count small v.sized v.loaded in
        let (m', run, r) =
          resize_map-Resizes m (grown (length m.entries)) v.table (omega (arith, v.counted)) in
        (
          m',
          rw full run,
          record {
            table = r.table;
            counted = r.counted ∙ v.counted ∙ sym r.count;
            count = r.count;
            sized = rw r.width wide;
            room = rw r.width room;
            reads = r.reads;
          },
        )
    | inr fits ↦
        let (wide, room) = fits_bounds (length m.entries) m.count small v.sized fits in
        (
          m,
          rw fits,
          record {
            table = v.table;
            counted = v.counted;
            count = refl;
            sized = wide;
            room = room;
            reads = λ q. refl;
          },
        )
  ]

  -- What a `wrenMapSet` of `v` at `k` does: the invariant holds, the count goes up if the key is new,
  -- and the map reads as before but at keys equal to `k`.
  pub record Sets (m : Map K V) (k : K) (v : V) (m' : Map K V) : Type ℓ where
    pub valid : IsValid m'
    pub count : m'.count ≡ m.count + (if is_none (map_get m k) then 1 else 0)
    pub reads : (q : K) → map_get m' q ≡ (if key.equal k q then some v else map_get m q)

  -- Setting a key in any map of at most 2 ^ 25 slots that keeps the invariant (well-formed
  -- table, right count, capacity 0 or at least 16, load at most 75 percent) finds a slot and
  -- gives a map that keeps the invariant, with the count raised exactly if the key was not
  -- there, the value under every key equal to the one set, and every other key as before.
  pub map_set-Sets :
      (m : Map K V) (k : K) (v : V)
      → IsValid m
      → IsSmall m
      → (m' : Map K V) × (map_set m k v ≡ some m') × Sets m k v m'
  unfolding map_set map_get
  map_set-Sets m k v valid small =
      let (m₁, made, r) = make_room-HasRoom m valid small in
      let (es, is_new, run, ins) =
        insert_entry-Inserts m₁.entries k v r.table (omega (arith, r.counted, r.count, r.room)) in
      let new : is_new ≡ is_none (view m.entries k) = ins.fresh ∙ rw (r.reads k) in
      let counted : (if is_new then m₁.count + 1 else m₁.count)
          ≡ m.count + (if is_none (view m.entries k) then 1 else 0) =
        count_if is_new m₁.count ∙ rw (new, r.count) in
      (
        record { entries = es; count = if is_new then m₁.count + 1 else m₁.count },
        rw (made, map_set) (rw run),
        record {
          valid = record {
            table = ins.table;
            counted = ins.counted ∙ rw r.counted (sym (count_if is_new m₁.count));
            sized = inr (rw ins.width r.sized);
            loaded =
                rw (counted, ins.width)
                  (load_if (is_none (view m.entries k)) m.count (length m₁.entries) r.room);
          };
          count = counted;
          reads = λ q. ins.reads q ∙ rw (r.reads q);
        },
      )
