-- ===== src/Map/Outcome.antt =====
-- Slots, probe sequences, and the three ways in which a search of the table ends.
use wrenegade.Base.{ℕ, ◌%◌, ◌<◌, ◌≡◌, true, false, none, some, List, length, get_or}
use wrenegade.Map.{Entry, empty, tombstone, entry, Search, found, absent}
use wrenegade.Map.Keys.{Key}
use wrenegade.Map.Probe.{distance}

module _ {ℓ} {K V : Type ℓ} where
  abbrev pub at : List (Entry K V) → ℕ → Entry K V
  at es i = get_or es i empty

  abbrev pub IsVacant : Entry K V → Type 0
  IsVacant empty = Unit
  IsVacant tombstone = Unit
  IsVacant (entry k v) = ⊥

  abbrev pub IsUsed : Entry K V → Type 0
  IsUsed empty = ⊥
  IsUsed tombstone = Unit
  IsUsed (entry k v) = Unit

  abbrev pub IsEntry : Entry K V → Type 0
  IsEntry empty = ⊥
  IsEntry tombstone = ⊥
  IsEntry (entry k v) = Unit

module _ {ℓ} {K V : Type ℓ} ⦃key : Key K⦄ where
  abbrev pub home : List (Entry K V) → K → ℕ
  home es k = key.hash k % length es

  -- The slot holds no key that is equal to `k`.
  abbrev pub Misses : K → Entry K V → Type 0
  Misses k empty = Unit
  Misses k tombstone = Unit
  Misses k (entry k' v) = key.equal k' k ≡ false

  -- Every slot that a search from `h` visits in the first `d` rounds is in use or deleted.
  abbrev pub IsFilled : List (Entry K V) → ℕ → ℕ → Type 0
  IsFilled es h d = (i : ℕ) → i < length es → distance (length es) h i < d → IsUsed (at es i)

  abbrev pub IsReached : List (Entry K V) → ℕ → Entry K V → Type 0
  IsReached es i empty = Unit
  IsReached es i tombstone = Unit
  IsReached es i (entry k v) = IsFilled es (home es k) (distance (length es) (home es k) i)

  -- A search for its key reaches every entry.
  abbrev pub Reaches : List (Entry K V) → Type 0
  Reaches es = (i : ℕ) → i < length es → IsReached es i (at es i)

  -- The outcome of a search for `k`.
  abbrev pub IsFound : List (Entry K V) → K → ℕ → Type ℓ
  IsFound es k i =
      (i < length es) × (k' : K) × (v : V) × (at es i ≡ entry k' v) × (key.equal k' k ≡ true)

  abbrev pub IsSlot : List (Entry K V) → K → ℕ → Type 0
  IsSlot es k i =
      (i < length es)
      × IsVacant (at es i)
      × IsFilled es (home es k) (distance (length es) (home es k) i)

  pub data Outcome (es : List (Entry K V)) (k : K) : Search → Type ℓ where
    is_found : (i : ℕ) → IsFound es k i → Outcome es k (found i)
    is_slot :
        (i : ℕ)
        → IsSlot es k i
        → ((j : ℕ) → j < length es → Misses k (at es j))
        → Outcome es k (absent (some i))
    is_full :
        ((j : ℕ) → j < length es → IsEntry (at es j))
        → ((j : ℕ) → j < length es → Misses k (at es j))
        → Outcome es k (absent none)
