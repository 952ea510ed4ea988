-- ===== src/Map/Remove.antt =====
-- `wrenMapRemoveKey` against the abstract map.
use wrenegade.Base.{
  ℕ, zero, suc, ◌+◌, ◌-◌, ◌/◌, ◌<◌, ◌≡◌, refl, sym, ap, ◌∙◌, inl, inr, true, false, ◌&&◌,
  Bool-cases, Option, none, some, List, [], ◌∷◌, length, set, length-set, arith, ltb, ◌==◌,
  if◌then◌else◌,
}
use wrenegade.Map.{
  Entry, empty, tombstone, entry, Search, found, absent, Map, allowed, min_capacity, find_entry,
  map_get, map_clear, shrink, map_remove_key,
}
use wrenegade.Map.Keys.{Key, equal_symm, equal_chain}
use wrenegade.Map.Outcome.{at, Outcome, is_found, is_slot, is_full}
use wrenegade.Map.Find.{find_entry-Outcome}
use wrenegade.Map.Table.{
  weight, size, size-set, IsTable, view, view-cases, view-Lacks, view-Holds, Lacks,
}
use wrenegade.Map.Write.{set-IsTable, view-set_other, view-set_gone}
use wrenegade.Map.Insert.{is_none}
use wrenegade.Map.Resize.{resize_map-Resizes}
use wrenegade.Map.Methods.{IsValid, IsSmall, halved, halved_bounds}

module _ {ℓ} {K V : Type ℓ} ⦃key : Key K⦄ where
  -- With no entries every slot is empty or deleted.
  Lacks-of_size : (es : List (Entry K V)) (q : K) → size es ≡ 0 → Lacks es q
  Lacks-of_size [] q h i p = absurd (omega arith)
  Lacks-of_size (empty ∷ es) q h zero p = tt
  Lacks-of_size (tombstone ∷ es) q h zero p = tt
  Lacks-of_size (entry k v ∷ es) q h zero p = absurd (omega arith)
  Lacks-of_size (empty ∷ es) q h (suc i) p = Lacks-of_size es q (omega arith) i (omega arith)
  Lacks-of_size (tombstone ∷ es) q h (suc i) p = Lacks-of_size es q (omega arith) i (omega arith)
  Lacks-of_size (entry k v ∷ es) q h (suc i) p = absurd (omega arith)

  clear-IsTable : IsTable {K = K} {V = V} []
  clear-IsTable = record {
    reaches = λ i p. absurd (omega arith);
    unique = λ i j p q e. absurd (omega arith);
  }

  -- A map of the same entries, after the tests at the end of `wrenMapRemoveKey`.
  record Shrinks (m m' : Map K V) : Type ℓ where
    valid : IsValid m'
    count : m'.count ≡ m.count
    reads : (q : K) → view m'.entries q ≡ view m.entries q

  shrink_clear : (m : Map K V) → IsValid m → m.count ≡ 0 → Shrinks m map_clear
  shrink_clear m v none_left = record {
    valid = record {
      table = clear-IsTable;
      counted = refl;
      sized = inl refl;
      loaded = omega arith;
    };
    count = sym none_left;
    reads = λ q.
        view-Lacks [] q clear-IsTable (λ i p. absurd (omega arith))
        ∙ sym (view-Lacks m.entries q v.table (Lacks-of_size m.entries q (v.counted ∙ none_left)));
  }

  shrink-Shrinks :
      (m : Map K V) → IsValid m → IsSmall m → (m' : Map K V) × (shrink m ≡ some m') × Shrinks m m'
  unfolding shrink
  shrink-Shrinks m v small = elim (Bool-cases (m.count == 0)) [
    | inl e ↦ (map_clear, rw e, shrink_clear m v (ground arith))
    | inr some_left ↦
        elim (Bool-cases
          (ltb min_capacity (length m.entries) && ltb m.count (allowed (length m.entries / 2)))) [
            | inr keep ↦
                (m, rw (some_left, keep), record { valid = v; count = refl; reads = λ q. refl })
            | inl sparse ↦
                let low : ltb m.count (allowed (length m.entries / 2)) ≡ true = ground arith in
                let (wide, room) = halved_bounds (length m.entries) m.count small low in
                let left : 0 < m.count = ground arith in
                let (m', run, r) =
                  resize_map-Resizes m (halved (length m.entries)) v.table
                    (omega (arith, v.counted)) in
                (
                  m',
                  rw (some_left, sparse) run,
                  record {
                    valid = record {
                      table = r.table;
                      counted = r.counted ∙ v.counted ∙ sym r.count;
                      sized = inr (rw r.width wide);
                      loaded = rw (r.count, r.width) room;
                    };
                    count = r.count;
                    reads = r.reads;
                  },
                )
          ]
  ]

  -- Equal keys are both there or both not.
  view-none_congr :
      (es : List (Entry K V)) (k q : K)
      → IsTable es
      → Lacks es k
      → key.equal k q ≡ true
      → view es q ≡ none
  view-none_congr es k q t lacks kq = elim (view-cases es q t) [
    | inr (_, e) ↦ e
    | inl (v, (i, p, b, e, hit), seen) ↦
        let miss : key.equal b k ≡ false = rw e at (lacks i p) in
        let bk : key.equal b k ≡ true = key.equal_congr b q k hit ∙ equal_symm q k ∙ kq in
        cc (sym miss ∙ bk)
  ]

  -- What a `wrenMapRemoveKey` of `k` does: it returns the value that was there, and the map reads as
  -- before but for the keys equal to `k`, which are gone.
  pub record Removes (m : Map K V) (k : K) (old : Option V) (m' : Map K V) : Type ℓ where
    pub valid : IsValid m'
    pub returned : old ≡ map_get m k
    pub count : m'.count + (if is_none old then 0 else 1) ≡ m.count
    pub reads : (q : K) → map_get m' q ≡ (if key.equal k q then none else map_get m q)

  module _ (m : Map K V) (k : K) (v : IsValid m) (small : IsSmall m) where
    Result : Type ℓ
    Result =
        (old : Option V) × (m' : Map K V) × (map_remove_key m k ≡ some (old, m'))
        × Removes m k old m'

    not_there :
        (slot : Option ℕ) → find_entry m.entries k ≡ absent slot → Lacks m.entries k → Result
    unfolding Result map_remove_key map_get
    not_there slot e lacks = (
      none,
      m,
      rw (e, map_remove_key),
      record {
        valid = v;
        returned = sym (view-Lacks m.entries k v.table lacks);
        count = omega arith;
        reads = λ q. elim (Bool-cases (key.equal k q)) [
          | inl h ↦ rw h (view-none_congr m.entries k q v.table lacks h)
          | inr h ↦ rw h
        ];
      },
    )

    -- The entry is deleted, before the table may shrink.
    module _ (i : ℕ) (p : i < length m.entries) (k' : K) (w : V) (a : at m.entries i ≡ entry k' w)
        (hit : key.equal k' k ≡ true) where
      deleted : Map K V
      deleted = record { entries = set m.entries i tombstone; count = m.count - 1 }

      deleted-IsValid : IsValid deleted × (deleted.count + 1 ≡ m.count)
      unfolding deleted
      deleted-IsValid =
          let smaller = size-set m.entries i tombstone p in
          let one = ap weight a in
          let width = length-set m.entries i tombstone in
          (
            record {
              table = set-IsTable m.entries i tombstone p v.table tt tt (λ j q ne. refl);
              counted = omega (arith, v.counted, smaller, one);
              sized = rw width v.sized;
              loaded = rw width (omega (arith, v.loaded));
            },
            omega (arith, v.counted, smaller, one),
          )

      deleted_reads :
          (q : K) → view deleted.entries q ≡ (if key.equal k q then none else view m.entries q)
      unfolding deleted
      deleted_reads q =
          let t' = deleted-IsValid.0.table in
          elim (Bool-cases (key.equal k q)) [
            | inl h ↦ rw h (
                view-set_gone m.entries i tombstone p v.table t' k' q w a (equal_chain k' k q hit h)
                  tt)
            | inr h ↦
                let miss : key.equal k' q ≡ false = key.equal_congr k' k q hit ∙ h in
                rw h (view-set_other m.entries i tombstone p v.table t' q tt (rw a miss))
          ]

      there : find_entry m.entries k ≡ found i → Result
      unfolding Result map_remove_key map_get
      there e =
          let (valid', one_less) = deleted-IsValid in
          let still_small : IsSmall deleted =
            unfold deleted in rw (length-set m.entries i tombstone) small in
          let (m', run, s) = shrink-Shrinks deleted valid' still_small in
          (
            some w,
            m',
            unfold deleted in rw (e, map_remove_key) (rw (a, run)),
            record {
              valid = s.valid;
              returned = sym (view-Holds m.entries k w v.table (i, p, k', a, hit));
              count = omega (arith, s.count, one_less);
              reads = λ q. s.reads q ∙ deleted_reads q;
            },
          )

    remove_of_Outcome : (s : Search) → Outcome m.entries k s → find_entry m.entries k ≡ s → Result
    remove_of_Outcome s (is_found i (p, k', w, a, hit)) e = there i p k' w a hit e
    remove_of_Outcome s (is_slot i slot lacks) e = not_there (some i) e lacks
    remove_of_Outcome s (is_full full lacks) e = not_there none e lacks

  -- Removing a key from any such map returns the value that was there or null, and leaves a map
  -- that keeps the invariant, with the count lowered exactly if the key was there, the keys
  -- equal to it gone and every other key as before, whether the table is cleared, shrunk or
  -- kept.
  pub map_remove_key-Removes :
      (m : Map K V) (k : K)
      → IsValid m
      → IsSmall m
      → (old : Option V) × (m' : Map K V) × (map_remove_key m k ≡ some (old, m'))
        × Removes m k old m'
  unfolding Result
  map_remove_key-Removes m k v small =
      remove_of_Outcome m k v small (find_entry m.entries k)
        (find_entry-Outcome m.entries k v.table.reaches) refl
