-- ===== src/Map/Probe.antt =====
-- The probe sequence: the slots of a table in the order in which a search from `h` visits them.
use wrenegade.Base.{
  ℕ, ◌+◌, ◌-◌, ◌%◌, ◌<◌, ◌≡◌, true, false, inl, inr, ap, ◌∙◌, Bool-cases, arith, leb, ◌==◌,
  if◌then◌else◌,
}
use native.Mathlib.Nat.{mod-eq_of_lt, mod_self}

-- The number of rounds from `h` to slot `i`.
unfoldable pub distance : ℕ → ℕ → ℕ → ℕ
distance capacity h i = if leb h i then i - h else i + capacity - h

pub distance_self : (capacity h : ℕ) → distance capacity h h ≡ 0
unfolding distance
distance_self capacity h = ground arith

module _ {capacity : ℕ} where
  pub next-eq :
      (i : ℕ) → i < capacity → (i + 1) % capacity ≡ (if i + 1 == capacity then 0 else i + 1)
  next-eq i h = elim (Bool-cases (i + 1 == capacity)) [
    | inl e ↦
        let p : i + 1 ≡ capacity = ground arith in
        rw e (ap (λ (t : ℕ). t % capacity) p ∙ mod_self capacity)
    | inr e ↦ rw e (mod-eq_of_lt (ground arith))
  ]

module _ {capacity : ℕ} (h : ℕ) (lt : h < capacity) where
  pub distance-lt : (i : ℕ) → i < capacity → distance capacity h i < capacity
  unfolding distance
  distance-lt i p = ground arith

  pub distance_inj :
      (i j : ℕ)
      → i < capacity
      → j < capacity
      → distance capacity h i ≡ distance capacity h j
      → i ≡ j
  unfolding distance
  distance_inj i j p q e = ground arith

  pub distance_next :
      (i : ℕ)
      → i < capacity
      → ((i + 1) % capacity == h) ≡ false
      → (distance capacity h ((i + 1) % capacity) ≡ distance capacity h i + 1)
        × ((i + 1) % capacity < capacity)
  unfolding distance
  distance_next i p e = ground (arith, next-eq i p)

  pub distance_end :
      (i : ℕ)
      → i < capacity
      → ((i + 1) % capacity == h) ≡ true
      → distance capacity h i + 1 ≡ capacity
  unfolding distance
  distance_end i p e = ground (arith, next-eq i p)
