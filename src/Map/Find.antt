-- ===== src/Map/Find.antt =====
-- What `findEntry` finds.
use wrenegade.Base.{
  ℕ, zero, suc, ◌+◌, ◌%◌, ◌<◌, ◌≡◌, ◌≢◌, refl, sym, ap, ◌∙◌, inl, inr, true, false, Bool-cases,
  Option, none, some, List, [], ◌∷◌, length, arith, ltb, ◌==◌,
}
use mathlib.Core.Path.{subst}
use native.Mathlib.Nat.{mod-lt}
use wrenegade.Map.{Entry, empty, tombstone, entry, absent, first_of_two, find_loop, find_entry}
use wrenegade.Map.Keys.{Key}
use wrenegade.Map.Probe.{
  distance, distance-lt, distance_inj, distance_next, distance_end, distance_self,
}
use wrenegade.Map.Outcome.{
  at, IsVacant, IsUsed, IsEntry, home, Misses, IsFilled, IsReached, Reaches, IsSlot, Outcome,
  is_found, is_slot, is_full,
}

module _ {ℓ} {K V : Type ℓ} ⦃key : Key K⦄ (es : List (Entry K V)) (k : K)
    (pos : 0 < length es) where
  from : ℕ → ℕ
  from i = distance (length es) (home es k) i

  -- The slots of the rounds before `d` are used, and none holds the key.
  Passed : ℕ → Type 0
  Passed d = (i : ℕ) → i < length es → from i < d → IsUsed (at es i) × Misses k (at es i)

  -- The tombstone that is noted, if any, is the first one.
  TombOk : ℕ → Option ℕ → Type 0
  TombOk d none = (i : ℕ) → i < length es → from i < d → IsEntry (at es i)
  TombOk d (some t) = IsSlot es k t

  home-lt : home es k < length es
  home-lt = mod-lt (key.hash k) pos

  -- Where slot `j` stands against slot `i`.
  data Order (i j : ℕ) : Type 0 where
    before : from j < from i → Order i j
    same : i ≡ j → Order i j
    behind : from i < from j → Order i j

  order : (i j : ℕ) → i < length es → j < length es → Order i j
  unfolding from
  order i j p q = elim (Bool-cases (ltb (from j) (from i))) [
    | inl lt ↦ before (ground arith)
    | inr ge ↦ elim (Bool-cases (ltb (from i) (from j))) [
      | inl gt ↦ behind (ground arith)
      | inr le ↦ same (distance_inj (home es k) home-lt i j p q (ground arith))
    ]
  ]

  used_ne_empty : (x : Entry K V) → IsUsed x → x ≢ empty
  used_ne_empty empty u e = u
  used_ne_empty tombstone u e = cc
  used_ne_empty (entry k' v) u e = cc

  -- An equal key in slot `j`, reached by a search, is not behind an empty slot `i`.
  behind_empty :
      (i j : ℕ)
      → i < length es
      → at es i ≡ empty
      → (k' : K) → key.equal k' k ≡ true
      → IsFilled es (home es k') (distance (length es) (home es k') j)
      → ¬ (from i < from j)
  unfolding from
  behind_empty i j p e k' eq filled lt =
      let h : home es k' ≡ home es k = rw (key.hash_congr k' k eq) in
      used_ne_empty (at es i) (filled i p (rw h lt)) e

  stop_entry :
      (i j : ℕ)
      → i < length es
      → j < length es
      → at es i ≡ empty
      → Passed (from i)
      → (x : Entry K V) → at es j ≡ x
      → IsReached es j x
      → Misses k x
  unfolding Passed
  stop_entry i j p q e passed empty ej r = tt
  stop_entry i j p q e passed tombstone ej r = tt
  stop_entry i j p q e passed (entry k' v) ej r = elim (Bool-cases (key.equal k' k)) [
    | inr differ ↦ differ
    | inl equal ↦ elim (order i j p q) [
      | before lt ↦ rw ej at ((passed j q lt).1)
      | same ij ↦ absurd (cc (sym ej ∙ ap (at es) (sym ij) ∙ e))
      | behind lt ↦ absurd (behind_empty i j p e k' equal r lt)
    ]
  ]

  -- A search that meets an empty slot has missed nothing.
  stop_at-empty :
      (i : ℕ)
      → i < length es
      → at es i ≡ empty
      → Passed (from i)
      → Reaches es
      → (j : ℕ) → j < length es
      → Misses k (at es j)
  stop_at-empty i p e passed reach j q = stop_entry i j p q e passed (at es j) refl (reach j q)

  pass_one :
      (i : ℕ)
      → i < length es
      → IsUsed (at es i)
      → Misses k (at es i)
      → Passed (from i)
      → Passed (from i + 1)
  unfolding Passed
  pass_one i p used miss passed j q d = elim (order i j p q) [
    | before lt ↦ passed j q lt
    | same ij ↦ subst (λ (n : ℕ). IsUsed (at es n) × Misses k (at es n)) ij (used, miss)
    | behind lt ↦ absurd (omega arith)
  ]

  -- Either noted before, or this one.
  note_tombstone :
      (i : ℕ) (tomb : Option ℕ)
      → i < length es
      → IsVacant (at es i)
      → Passed (from i)
      → TombOk (from i) tomb
      → IsSlot es k (first_of_two tomb i)
  unfolding Passed TombOk from
  note_tombstone i none p v passed ok = (p, v, λ j q d. (passed j q d).0)
  note_tombstone i (some t) p v passed ok = ok

  keep_tombstone :
      (i : ℕ) (tomb : Option ℕ)
      → i < length es
      → IsEntry (at es i)
      → TombOk (from i) tomb
      → TombOk (from i + 1) tomb
  unfolding TombOk
  keep_tombstone i none p e ok = λ j q d. elim (order i j p q) [
    | before lt ↦ ok j q lt
    | same ij ↦ subst (λ (n : ℕ). IsEntry (at es n)) ij e
    | behind lt ↦ absurd (omega arith)
  ]
  keep_tombstone i (some t) p e ok = ok

  -- After the last round.
  finish :
      (i : ℕ) (tomb : Option ℕ)
      → i < length es
      → ((i + 1) % length es == home es k) ≡ true
      → Passed (from i + 1)
      → TombOk (from i + 1) tomb
      → Outcome es k (absent tomb)
  unfolding Passed TombOk from
  finish i none p last passed ok =
      let e = distance_end (home es k) home-lt i p last in
      is_full (λ j q. ok j q (omega (arith, distance-lt (home es k) home-lt j q)))
        (λ j q. (passed j q (omega (arith, distance-lt (home es k) home-lt j q))).1)
  finish i (some t) p last passed ok =
      let e = distance_end (home es k) home-lt i p last in
      is_slot t ok (λ j q. (passed j q (omega (arith, distance-lt (home es k) home-lt j q))).1)

  -- One slot, by what it holds; `rest` is the outcome of the rounds that follow.
  abbrev After : ℕ → ℕ → Type ℓ
  After rounds i =
      (tomb : Option ℕ)
      → ((i + 1) % length es == home es k) ≡ false
      → Passed (from i + 1)
      → TombOk (from i + 1) tomb
      → Outcome es k (find_loop rounds es (home es k) ((i + 1) % length es) tomb k)

  step :
      (rounds i : ℕ) (tomb : Option ℕ)
      → i < length es
      → Reaches es
      → Passed (from i)
      → TombOk (from i) tomb
      → After rounds i
      → (x : Entry K V) → at es i ≡ x
      → Outcome es k (find_loop (suc rounds) es (home es k) i tomb k)
  unfolding find_loop TombOk
  step rounds i tomb p reach passed ok rest empty e =
      rw (e, find_loop)
        (is_slot (first_of_two tomb i) (note_tombstone i tomb p (rw e tt) passed ok)
          (stop_at-empty i p e passed reach))
  step rounds i tomb p reach passed ok rest tombstone e =
      let passed' = pass_one i p (rw e tt) (rw e tt) passed in
      let slot = note_tombstone i tomb p (rw e tt) passed ok in
      elim (Bool-cases ((i + 1) % length es == home es k)) [
        | inl last ↦
            rw (e, last, find_loop) (finish i (some (first_of_two tomb i)) p last passed' slot)
        | inr more ↦ rw (e, more, find_loop) (rest (some (first_of_two tomb i)) more passed' slot)
      ]
  step rounds i tomb p reach passed ok rest (entry k' v) e = elim (Bool-cases (key.equal k' k)) [
    | inl hit ↦ rw (e, find_loop) (rw hit (is_found i (p, k', v, e, hit)))
    | inr miss ↦
        let passed' = pass_one i p (rw e tt) (rw e miss) passed in
        let ok' = keep_tombstone i tomb p (rw e tt) ok in
        elim (Bool-cases ((i + 1) % length es == home es k)) [
          | inl last ↦ rw (e, find_loop) (rw (miss, last) (finish i tomb p last passed' ok'))
          | inr more ↦ rw (e, find_loop) (rw (miss, more) (rest tomb more passed' ok'))
        ]
  ]

  loop :
      (rounds i : ℕ) (tomb : Option ℕ)
      → i < length es
      → from i + rounds ≡ length es
      → Reaches es
      → Passed (from i)
      → TombOk (from i) tomb
      → Outcome es k (find_loop rounds es (home es k) i tomb k)
  unfolding from
  loop zero i tomb p e reach passed ok = absurd (omega (arith, distance-lt (home es k) home-lt i p))
  loop (suc rounds) i tomb p e reach passed ok =
      step rounds i tomb p reach passed ok
        (λ tomb' more passed' ok'.
          let (d, lt) = distance_next (home es k) home-lt i p more in
          loop rounds ((i + 1) % length es) tomb' lt (omega (arith, d)) reach (rw d passed')
            (rw d ok'))
        (at es i) refl

  from_start : Reaches es → Outcome es k (find_loop (length es) es (home es k) (home es k) none k)
  unfolding Passed TombOk from
  from_start reach =
      let zero_rounds : distance (length es) (home es k) (home es k) ≡ 0 =
        distance_self (length es) (home es k) in
      loop (length es) (home es k) none home-lt (omega (arith, zero_rounds)) reach
        (λ i p d. absurd (omega (arith, zero_rounds)))
        (λ i p d. absurd (omega (arith, zero_rounds)))

module _ {ℓ} {K V : Type ℓ} ⦃key : Key K⦄ where
  -- In a table whose entries are reached by the searches for their keys, the search ends with a
  -- slot that holds an equal key; or with an empty or deleted slot up to which the probe
  -- sequence is filled, and no slot of the table holds an equal key; or with no slot, and every
  -- slot holds another key.
  pub find_entry-Outcome :
      (es : List (Entry K V)) (k : K) → Reaches es → Outcome es k (find_entry es k)
  unfolding find_entry
  find_entry-Outcome [] k reach =
      is_full (λ j q. absurd (omega arith)) (λ j q. absurd (omega arith))
  find_entry-Outcome (e ∷ es) k reach =
      let some_slot : (suc (length es) == 0) ≡ false = ground arith in
      rw some_slot (from_start (e ∷ es) k (omega arith) reach)
