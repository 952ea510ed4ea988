-- ===== src/Map/Insert.antt =====
-- `insertEntry`, and the loop of `resizeMap` that is built from it.
use wrenegade.Base.{
  ℕ, ◌+◌, ◌<◌, ◌≡◌, ◌≢◌, refl, ap, ◌∙◌, inl, inr, Bool, true, false, Bool-cases, Option, none, some,
  List, length, set, length-set, arith, if◌then◌else◌,
}
use wrenegade.Map.{Entry, empty, tombstone, entry, Search, find_entry, insert_entry}
use wrenegade.Map.Keys.{Key, equal_symm, equal_chain}
use wrenegade.Map.Outcome.{at, IsVacant, IsReached, Misses, Outcome, is_found, is_slot, is_full}
use wrenegade.Map.Find.{find_entry-Outcome}
use wrenegade.Map.Table.{
  weight, size, size-set, size-full, same_key, IsTable, view, view-Lacks, view-Holds,
}
use wrenegade.Map.Write.{set-IsTable, view-set_other, view-set_self}

abbrev pub is_none {ℓ} : {A : Type ℓ} → Option A → Bool
is_none none = true
is_none (some a) = false

module _ {ℓ} {K V : Type ℓ} where
  vacant-weight : (x : Entry K V) → IsVacant x → weight x ≡ 0
  vacant-weight empty h = refl
  vacant-weight tombstone h = refl
  vacant-weight (entry k v) h = absurd h

module _ {ℓ} {K V : Type ℓ} ⦃key : Key K⦄ where
  -- A write of `v` at `k` that gave `es'`: a well-formed table of the same width, with one entry more
  -- if the key is new, that reads as before but at keys equal to `k`.
  pub record Inserts (es : List (Entry K V)) (k : K) (v : V) (es' : List (Entry K V))
      (is_new : Bool) : Type ℓ where
    pub table : IsTable es'
    pub width : length es' ≡ length es
    pub counted : size es' ≡ size es + (if is_new then 1 else 0)
    pub fresh : is_new ≡ is_none (view es k)
    pub reads : (q : K) → view es' q ≡ (if key.equal k q then some v else view es q)

  vacant-Misses : (q : K) (x : Entry K V) → IsVacant x → Misses q x
  vacant-Misses q empty h = tt
  vacant-Misses q tombstone h = tt
  vacant-Misses q (entry k v) h = absurd h

  -- The key of a slot that lacks `k`, seen from an entry at `k`.
  apart_of_miss : (k : K) (v : V) (y : Entry K V) → Misses k y → same_key (entry k v) y ≡ false
  apart_of_miss k v empty h = refl
  apart_of_miss k v tombstone h = refl
  apart_of_miss k v (entry b w) h = equal_symm k b ∙ h

  module _ (es : List (Entry K V)) (k : K) (v : V) (t : IsTable es) where
    Result : Type ℓ
    Result =
        (es' : List (Entry K V)) × (is_new : Bool) × (insert_entry es k v ≡ some (es', is_new))
        × Inserts es k v es' is_new

    module _ (i : ℕ) (p : i < length es) where
      apart_of_unique :
          (k' : K) (w : V)
          → at es i ≡ entry k' w
          → (j : ℕ) → j < length es
          → i ≢ j
          → (y : Entry K V) → at es j ≡ y
          → same_key (entry k' v) y ≡ false
      apart_of_unique k' w a j q ne empty e = refl
      apart_of_unique k' w a j q ne tombstone e = refl
      apart_of_unique k' w a j q ne (entry b z) e = elim (Bool-cases (key.equal k' b)) [
        | inl h ↦ absurd (ne (t.unique i j p q (rw (a, e) h)))
        | inr h ↦ h
      ]

      -- The key is there: its value is replaced, and the key that is stored stays.
      replace :
          (k' : K) (w : V)
          → at es i ≡ entry k' w
          → key.equal k' k ≡ true
          → Inserts es k v (set es i (entry k' v)) false
      replace k' w a hit =
          let x : Entry K V = entry k' v in
          let t' =
            set-IsTable es i x p t tt (rw a at (t.reaches i p))
              (λ j q ne. apart_of_unique k' w a j q ne (at es j) refl) in
          record {
            table = t';
            width = length-set es i x;
            counted = omega (arith, size-set es i x p, ap weight a);
            fresh = rw (view-Holds es k w t (i, p, k', a, hit));
            reads = λ q. elim (Bool-cases (key.equal k q)) [
              | inl h ↦ rw h (view-set_self es i x p t' k' q v refl (equal_chain k' k q hit h))
              | inr h ↦
                  let m : key.equal k' q ≡ false = key.equal_congr k' k q hit ∙ h in
                  rw h (view-set_other es i x p t t' q m (rw a m))
            ];
          }

      -- The key is new: it takes the slot that the search gave.
      place :
          IsVacant (at es i)
          → IsReached es i (entry k v)
          → ((j : ℕ) → j < length es → Misses k (at es j))
          → Inserts es k v (set es i (entry k v)) true
      place vacant reached lacks =
          let x : Entry K V = entry k v in
          let t' =
            set-IsTable es i x p t tt reached (λ j q ne. apart_of_miss k v (at es j) (lacks j q)) in
          record {
            table = t';
            width = length-set es i x;
            counted = omega (arith, size-set es i x p, vacant-weight (at es i) vacant);
            fresh = rw (view-Lacks es k t lacks);
            reads = λ q. elim (Bool-cases (key.equal k q)) [
              | inl h ↦ rw h (view-set_self es i x p t' k q v refl h)
              | inr h ↦ rw h (view-set_other es i x p t t' q h (vacant-Misses q (at es i) vacant))
            ];
          }

    insert_of_Outcome :
        size es < length es → (s : Search) → Outcome es k s → find_entry es k ≡ s → Result
    unfolding insert_entry Result
    insert_of_Outcome room s (is_found i (p, k', w, a, hit)) e =
        (set es i (entry k' v), false, rw (e, insert_entry) (rw a), replace i p k' w a hit)
    insert_of_Outcome room s (is_slot i (p, vacant, filled) lacks) e =
        (set es i (entry k v), true, rw (e, insert_entry), place i p vacant filled lacks)
    insert_of_Outcome room s (is_full full lacks) e = absurd (omega (arith, size-full es full))

  -- Inserting into a well-formed table with fewer entries than slots finds a slot, and gives a
  -- well-formed table of the same width with one entry more exactly if the key was not there,
  -- which reads the new value at every key equal to the inserted one and is unchanged at the
  -- others.
  pub insert_entry-Inserts :
      (es : List (Entry K V)) (k : K) (v : V)
      → IsTable es
      → size es < length es
      → (es' : List (Entry K V)) × (is_new : Bool) × (insert_entry es k v ≡ some (es', is_new))
        × Inserts es k v es' is_new
  unfolding Result
  insert_entry-Inserts es k v t room =
      insert_of_Outcome es k v t room (find_entry es k) (find_entry-Outcome es k t.reaches) refl
