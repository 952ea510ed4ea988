-- ===== src/Map/Resize.antt =====
-- `resizeMap`: every entry of the old table is inserted into an empty one.
use wrenegade.Base.{
  ℕ, zero, suc, ◌+◌, ◌<◌, ◌≡◌, refl, sym, ap, ◌∙◌, inl, inr, Bool, true, Bool-cases, Option, none,
  some, List, [], ◌∷◌, length, replicate, length-replicate, get_or-replicate, arith, if◌then◌else◌,
}
use mathlib.Core.Bool.{false≢true}
use wrenegade.Map.{Entry, empty, tombstone, entry, Map, readd, resize_map}
use wrenegade.Map.Keys.{Key, equal_symm}
use wrenegade.Map.Outcome.{at, Misses}
use wrenegade.Map.Table.{size, same_key, IsTable, Lacks, view, view-cases, view-Lacks}
use wrenegade.Map.Insert.{Inserts, insert_entry-Inserts}

size-replicate {ℓ} : (K V : Type ℓ) (n : ℕ) → size {K = K} {V = V} (replicate n empty) ≡ 0
size-replicate K V zero = refl
size-replicate K V (suc n) = omega (arith, size-replicate K V n)

module _ {ℓ} {K V : Type ℓ} ⦃key : Key K⦄ where
  replicate-IsTable : (n : ℕ) → IsTable {K = K} {V = V} (replicate n empty)
  replicate-IsTable n = record {
    reaches = λ i p. rw get_or-replicate tt;
    unique =
        λ i j p q e. absurd (false≢true (rw (get_or-replicate {A = Entry K V} n i empty) at e));
  }

  -- The entries in order, the last one that fits winning.
  scan : List (Entry K V) → K → Option V → Option V
  scan [] q d = d
  scan (empty ∷ es) q d = scan es q d
  scan (tombstone ∷ es) q d = scan es q d
  scan (entry k v ∷ es) q d = scan es q (if key.equal k q then some v else d)

  abbrev HasUniqueKeys : List (Entry K V) → Type 0
  HasUniqueKeys es =
      (i j : ℕ) → i < length es → j < length es → same_key (at es i) (at es j) ≡ true → i ≡ j

  tail_unique : (e : Entry K V) (es : List (Entry K V)) → HasUniqueKeys (e ∷ es) → HasUniqueKeys es
  tail_unique e es u i j p q same =
      let s : suc i ≡ suc j = u (suc i) (suc j) (omega arith) (omega arith) same in omega arith

  scan-Lacks : (es : List (Entry K V)) (q : K) (d : Option V) → Lacks es q → scan es q d ≡ d
  unfolding scan
  scan-Lacks [] q d h = refl
  scan-Lacks (empty ∷ es) q d h = scan-Lacks es q d (λ i p. h (suc i) (omega arith))
  scan-Lacks (tombstone ∷ es) q d h = scan-Lacks es q d (λ i p. h (suc i) (omega arith))
  scan-Lacks (entry k v ∷ es) q d h =
      rw (h 0 (omega arith)) (scan-Lacks es q d (λ i p. h (suc i) (omega arith)))

  -- Behind an entry at `q` no other fits.
  rest_lacks :
      (k q : K) (v : V) (es : List (Entry K V))
      → HasUniqueKeys (entry k v ∷ es)
      → key.equal k q ≡ true
      → (i : ℕ) → i < length es
      → (y : Entry K V) → at es i ≡ y
      → Misses q y
  rest_lacks k q v es u hit i p empty e = tt
  rest_lacks k q v es u hit i p tombstone e = tt
  rest_lacks k q v es u hit i p (entry b w) e = elim (Bool-cases (key.equal b q)) [
    | inr h ↦ h
    | inl h ↦
        let kb : key.equal k b ≡ true = key.equal_congr k q b hit ∙ equal_symm q b ∙ h in
        let clash : 0 ≡ suc i = u 0 (suc i) (omega arith) (omega arith) (rw e kb) in
        absurd (omega arith)
  ]

  scan-holds :
      (es : List (Entry K V)) (q k : K) (v : V) (d : Option V) (i : ℕ)
      → HasUniqueKeys es
      → i < length es
      → at es i ≡ entry k v
      → key.equal k q ≡ true
      → scan es q d ≡ some v
  unfolding scan
  scan-holds [] q k v d i u p e hit = absurd (omega arith)
  scan-holds (empty ∷ es) q k v d zero u p e hit = cc
  scan-holds (tombstone ∷ es) q k v d zero u p e hit = cc
  scan-holds (entry a w ∷ es) q k v d zero u p e hit =
      let ak : a ≡ k = cc in
      let wv : w ≡ v = cc in
      let hit' : key.equal a q ≡ true = rw ak hit in
      rw hit' (
        scan-Lacks es q (some w) (λ j r. rest_lacks a q w es u hit' j r (at es j) refl)
        ∙ ap some wv)
  scan-holds (empty ∷ es) q k v d (suc i) u p e hit =
      scan-holds es q k v d i (tail_unique empty es u) (omega arith) e hit
  scan-holds (tombstone ∷ es) q k v d (suc i) u p e hit =
      scan-holds es q k v d i (tail_unique tombstone es u) (omega arith) e hit
  scan-holds (entry a w ∷ es) q k v d (suc i) u p e hit =
      scan-holds es q k v (if key.equal a q then some w else d) i (tail_unique (entry a w) es u)
        (omega arith) e hit

  scan-view : (es : List (Entry K V)) (q : K) → IsTable es → scan es q none ≡ view es q
  scan-view es q t = elim (view-cases es q t) [
    | inl (v, (i, p, k, e, hit), seen) ↦ scan-holds es q k v none i t.unique p e hit ∙ sym seen
    | inr (lacks, unseen) ↦ scan-Lacks es q none lacks ∙ sym unseen
  ]

  -- The keys that are still to be inserted are not in the new table.
  abbrev IsNew : List (Entry K V) → Entry K V → Type ℓ
  IsNew fresh empty = Unit
  IsNew fresh tombstone = Unit
  IsNew fresh (entry k v) = view fresh k ≡ none

  record Readds (old fresh r : List (Entry K V)) : Type ℓ where
    table : IsTable r
    width : length r ≡ length fresh
    counted : size r ≡ size fresh + size old
    reads : (q : K) → view r q ≡ scan old q (view fresh q)

  still-IsNew :
      (k : K) (v : V) (es fresh fresh' : List (Entry K V)) (is_new : Bool)
      → HasUniqueKeys (entry k v ∷ es)
      → Inserts fresh k v fresh' is_new
      → (j : ℕ) → j < length es
      → (y : Entry K V) → at es j ≡ y
      → IsNew fresh y
      → IsNew fresh' y
  still-IsNew k v es fresh fresh' is_new u ins j p empty e n = tt
  still-IsNew k v es fresh fresh' is_new u ins j p tombstone e n = tt
  still-IsNew k v es fresh fresh' is_new u ins j p (entry b w) e n =
      elim (Bool-cases (key.equal k b)) [
        | inl h ↦
            let clash : 0 ≡ suc j = u 0 (suc j) (omega arith) (omega arith) (rw e h) in
            absurd (omega arith)
        | inr h ↦ ins.reads b ∙ rw h n
      ]

  readd-Readds :
      (old fresh : List (Entry K V))
      → IsTable fresh
      → HasUniqueKeys old
      → ((j : ℕ) → j < length old → IsNew fresh (at old j))
      → size fresh + size old < length fresh
      → (r : List (Entry K V)) × (readd old fresh ≡ some r) × Readds old fresh r
  unfolding readd scan
  readd-Readds [] fresh t u n room =
      (fresh, refl, record { table = t; width = refl; counted = omega arith; reads = λ q. refl })
  readd-Readds (empty ∷ old) fresh t u n room =
      let (r, run, a) =
        readd-Readds old fresh t (tail_unique empty old u) (λ j p. n (suc j) (omega arith))
          (omega arith) in
      (
        r,
        run,
        record {
          table = a.table;
          width = a.width;
          counted = omega (arith, a.counted);
          reads = a.reads;
        },
      )
  readd-Readds (tombstone ∷ old) fresh t u n room =
      let (r, run, a) =
        readd-Readds old fresh t (tail_unique tombstone old u) (λ j p. n (suc j) (omega arith))
          (omega arith) in
      (
        r,
        run,
        record {
          table = a.table;
          width = a.width;
          counted = omega (arith, a.counted);
          reads = a.reads;
        },
      )
  readd-Readds (entry k v ∷ old) fresh t u n room =
      let (fresh', is_new, inserted, ins) = insert_entry-Inserts fresh k v t (omega arith) in
      let unseen : view fresh k ≡ none = n 0 (omega arith) in
      let first : is_new ≡ true = ins.fresh ∙ rw unseen in
      let grown : size fresh' ≡ size fresh + 1 = ins.counted ∙ rw first in
      let (r, run, a) =
        readd-Readds old fresh' ins.table (tail_unique (entry k v) old u)
          (λ j p.
            still-IsNew k v old fresh fresh' is_new u ins j p (at old j) refl
              (n (suc j) (omega arith)))
          (omega (arith, grown, ins.width)) in
      (
        r,
        rw (inserted, readd) run,
        record {
          table = a.table;
          width = a.width ∙ ins.width;
          counted = omega (arith, a.counted, grown);
          reads = λ q. a.reads q ∙ rw (ins.reads q);
        },
      )

  -- A table of another capacity with the same content.
  pub record Resizes (m : Map K V) (capacity : ℕ) (m' : Map K V) : Type ℓ where
    pub table : IsTable m'.entries
    pub width : length m'.entries ≡ capacity
    pub counted : size m'.entries ≡ size m.entries
    pub count : m'.count ≡ m.count
    pub reads : (q : K) → view m'.entries q ≡ view m.entries q

  fresh_reads : (n : ℕ) (q : K) → view {V = V} (replicate n empty) q ≡ none
  fresh_reads n q =
      view-Lacks (replicate n empty) q (replicate-IsTable n) (λ i p. rw get_or-replicate tt)

  IsNew-in_fresh : (n : ℕ) (x : Entry K V) → IsNew (replicate n empty) x
  IsNew-in_fresh n empty = tt
  IsNew-in_fresh n tombstone = tt
  IsNew-in_fresh n (entry k v) = fresh_reads n k

  -- Resizing a well-formed table to a capacity above its number of entries gives a well-formed
  -- table of that capacity with as many entries, which reads the same at every key.
  pub resize_map-Resizes :
      (m : Map K V) (capacity : ℕ)
      → IsTable m.entries
      → size m.entries < capacity
      → (m' : Map K V) × (resize_map m capacity ≡ some m') × Resizes m capacity m'
  unfolding resize_map
  resize_map-Resizes m capacity t room =
      let none_yet = size-replicate K V capacity in
      let wide = length-replicate {A = Entry K V} capacity empty in
      let (r, run, a) =
        readd-Readds m.entries (replicate capacity empty) (replicate-IsTable capacity) t.unique
          (λ j p. IsNew-in_fresh capacity (at m.entries j)) (omega (arith, none_yet, wide)) in
      (
        record { entries = r; count = m.count },
        rw (run, resize_map),
        record {
          table = a.table;
          width = a.width ∙ wide;
          counted = omega (arith, a.counted, none_yet);
          count = refl;
          reads = λ q. a.reads q ∙ rw (fresh_reads capacity q) (scan-view m.entries q t);
        },
      )
