-- ===== src/Map/Write.antt =====
-- A write of one slot in a well-formed table.
use wrenegade.Base.{
  ℕ, ◌%◌, ◌<◌, ◌≡◌, ◌≢◌, refl, sym, ◌∙◌, ◌⊎◌, inl, inr, true, false, Bool-cases, none, some, List,
  length, set, length-set, get_or-set, arith, ◌==◌, if◌then◌else◌,
}
use mathlib.Core.Path.{subst}
use wrenegade.Map.{Entry, empty, tombstone, entry}
use wrenegade.Map.Keys.{Key, equal_symm}
use wrenegade.Map.Probe.{distance}
use wrenegade.Map.Outcome.{at, IsUsed, IsFilled, IsReached, Reaches, Misses}
use wrenegade.Map.Table.{
  same_key, same_key_symm, IsTable, view, view-cases, view-Holds, view-Lacks, Holds,
}

module _ {ℓ} {K V : Type ℓ} ⦃key : Key K⦄ where
  -- Filled slots stay filled when used slots stay used.
  IsFilled-mono :
      (es es' : List (Entry K V)) (h d : ℕ)
      → length es' ≡ length es
      → ((i : ℕ) → i < length es → IsUsed (at es i) → IsUsed (at es' i))
      → IsFilled es h d
      → IsFilled es' h d
  IsFilled-mono es es' h d e keep filled i p lt =
      let p' : i < length es = omega arith in keep i p' (filled i p' (rw (← e) lt))

  IsReached-mono :
      (es es' : List (Entry K V)) (i : ℕ) (x : Entry K V)
      → length es' ≡ length es
      → ((i : ℕ) → i < length es → IsUsed (at es i) → IsUsed (at es' i))
      → IsReached es i x
      → IsReached es' i x
  IsReached-mono es es' i empty e keep r = tt
  IsReached-mono es es' i tombstone e keep r = tt
  IsReached-mono es es' i (entry k v) e keep r =
      let h = key.hash k % length es in
      rw e (rw e at (IsFilled-mono es es' h (distance (length es) h i) e keep r))

module _ {ℓ} {K V : Type ℓ} ⦃key : Key K⦄ (es : List (Entry K V)) (i : ℕ) (x : Entry K V)
    (p : i < length es) where
  at-set : (j : ℕ) → at (set es i x) j ≡ (if i == j then x else at es j)
  at-set j = get_or-set es i j x empty p

  at-set_self : at (set es i x) i ≡ x
  at-set_self = at-set i ∙ ground arith

  at-set_ne : (j : ℕ) → i ≢ j → at (set es i x) j ≡ at es j
  at-set_ne j ne = at-set j ∙ ground arith

  same-or-ne : (j : ℕ) → (i ≡ j) ⊎ (i ≢ j)
  same-or-ne j = elim (Bool-cases (i == j)) [
    | inl e ↦ inl (ground arith)
    | inr e ↦ inr (ground arith)
  ]

  set-IsUsed : IsUsed x → (j : ℕ) → j < length es → IsUsed (at es j) → IsUsed (at (set es i x) j)
  set-IsUsed u j q used = elim (same-or-ne j) [
    | inl e ↦ rw (← e) (rw at-set_self u)
    | inr ne ↦ rw (at-set_ne j ne) used
  ]

  set-Reaches : IsUsed x → Reaches es → IsReached es i x → Reaches (set es i x)
  set-Reaches u reach r j q =
      let len = length-set es i x in
      elim (same-or-ne j) [
        | inl e ↦
            rw (← e) (rw at-set_self (IsReached-mono es (set es i x) i x len (set-IsUsed u) r))
        | inr ne ↦
            rw (at-set_ne j ne) (
              IsReached-mono es (set es i x) j (at es j) len (set-IsUsed u) (reach j (omega arith)))
      ]

  -- A slot that shares no key with the new content, before and after the write.
  clash :
      ((j : ℕ) → j < length es → i ≢ j → same_key x (at es j) ≡ false)
      → (j : ℕ) → j < length es
      → i ≢ j
      → ¬ (same_key (at (set es i x) i) (at (set es i x) j) ≡ true)
  clash apart j q ne same =
      let e : same_key x (at es j) ≡ true = rw (at-set_self, at-set_ne j ne) at same in
      cc (sym e ∙ apart j q ne)

  -- The new content is used, is reached, and shares its key with no other slot.
  pub set-IsTable :
      IsTable es
      → IsUsed x
      → IsReached es i x
      → ((j : ℕ) → j < length es → i ≢ j → same_key x (at es j) ≡ false)
      → IsTable (set es i x)
  set-IsTable t u r apart = record {
    reaches = set-Reaches u t.reaches r;
    unique = λ a b pa pb same.
        let len = length-set es i x in
        elim (same-or-ne a) [
          | inl ea ↦ elim (same-or-ne b) [
            | inl eb ↦ sym ea ∙ eb
            | inr nb ↦ absurd (
                clash apart b (omega arith) nb (
                  subst (λ (n : ℕ). same_key (at (set es i x) n) (at (set es i x) b) ≡ true)
                    (sym ea) same))
          ]
          | inr na ↦ elim (same-or-ne b) [
            | inl eb ↦ absurd (
                clash apart a (omega arith) na (
                  same_key_symm (at (set es i x) i) (at (set es i x) a)
                  ∙ subst (λ (n : ℕ). same_key (at (set es i x) a) (at (set es i x) n) ≡ true)
                      (sym eb) same))
            | inr nb ↦
                t.unique a b (omega arith) (omega arith)
                  (rw (at-set_ne a na, at-set_ne b nb) at same)
          ]
        ];
  }

  -- A key that neither the old nor the new content holds is looked up as before.
  pub view-set_other :
      IsTable es
      → IsTable (set es i x)
      → (q : K) → Misses q x
      → Misses q (at es i)
      → view (set es i x) q ≡ view es q
  view-set_other t t' q miss old = elim (view-cases es q t) [
    | inl (v, (j, r, k, e, hit), seen) ↦
        let ne : i ≢ j = λ ij.
          let m : key.equal k q ≡ false = rw e at (subst (λ (n : ℕ). Misses q (at es n)) ij old) in
          cc (sym hit ∙ m) in
        let holds : Holds (set es i x) q v =
          (j, omega (arith, length-set es i x), k, at-set_ne j ne ∙ e, hit) in
        view-Holds (set es i x) q v t' holds ∙ sym seen
    | inr (lacks, unseen) ↦
        view-Lacks (set es i x) q t' (λ j r. elim (same-or-ne j) [
          | inl ij ↦ rw (← ij) (rw at-set_self miss)
          | inr ne ↦ rw (at-set_ne j ne) (lacks j (omega (arith, length-set es i x)))
        ])
        ∙ sym unseen
  ]

  pub view-set_self :
      IsTable (set es i x)
      → (k q : K) (v : V) → x ≡ entry k v
      → key.equal k q ≡ true
      → view (set es i x) q ≡ some v
  view-set_self t k q v e hit =
      view-Holds (set es i x) q v t (i, omega (arith, length-set es i x), k, at-set_self ∙ e, hit)

  Misses-other :
      IsTable es
      → (k q : K) (v : V) → at es i ≡ entry k v
      → key.equal k q ≡ true
      → (j : ℕ) → j < length es
      → i ≢ j
      → (y : Entry K V) → at es j ≡ y
      → Misses q y
  Misses-other t k q v e hit j r ne empty ej = tt
  Misses-other t k q v e hit j r ne tombstone ej = tt
  Misses-other t k q v e hit j r ne (entry b w) ej = elim (Bool-cases (key.equal b q)) [
    | inr miss ↦ miss
    | inl hit' ↦
        let kb : key.equal k b ≡ true = key.equal_congr k q b hit ∙ equal_symm q b ∙ hit' in
        absurd (ne (t.unique i j p r (rw (e, ej) kb)))
  ]

  -- A key whose only slot is overwritten by something else is gone.
  pub view-set_gone :
      IsTable es
      → IsTable (set es i x)
      → (k q : K) (v : V) → at es i ≡ entry k v
      → key.equal k q ≡ true
      → Misses q x
      → view (set es i x) q ≡ none
  view-set_gone t t' k q v e hit miss = view-Lacks (set es i x) q t' (λ j r. elim (same-or-ne j) [
    | inl ij ↦ rw (← ij) (rw at-set_self miss)
    | inr ne ↦
        let r' : j < length es = omega (arith, length-set es i x) in
        rw (at-set_ne j ne) (Misses-other t k q v e hit j r' ne (at es j) refl)
  ])
