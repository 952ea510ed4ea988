-- ===== src/Gc/Sweep.antt =====
-- The sweep frees exactly the objects that are not dark.
use wrenegade.Base.{
  ℕ, ◌≡◌, refl, sym, ap, ◌∙◌, ◌⊎◌, inl, inr, Bool, true, false, Bool-cases, Option, none, List, [],
  ◌∷◌, arith, ◌==◌, if◌then◌else◌, update, update_self, update_other, In, IsDistinct,
}
use mathlib.Core.Path.{subst}
use wrenegade.Gc.{Object, sweep}

abbrev pub dark_of : (ℕ → Bool) → List ℕ → List ℕ
dark_of d [] = []
dark_of d (r ∷ rs) = if d r then r ∷ dark_of d rs else dark_of d rs

pub record Sweeps (first : List ℕ) (memory : ℕ → Option Object) (d : ℕ → Bool)
    (s : List ℕ × (ℕ → Option Object) × (ℕ → Bool)) : Type 0 where
  pub kept : s.0 ≡ dark_of d first
  pub freed : (r : ℕ) → In r first → d r ≡ false → s.1 r ≡ none
  pub stays : (r : ℕ) → (d r ≡ true) ⊎ (In r first → ⊥) → s.1 r ≡ memory r
  pub unmarked : (r : ℕ) → In r first → s.2 r ≡ false
  pub other_marks : (r : ℕ) → (In r first → ⊥) → s.2 r ≡ d r

differs : (x r : ℕ) (xs : List ℕ) → (In x xs → ⊥) → In r xs → x ≡ r → ⊥
differs x r xs h i e = h (subst (λ y. In y xs) (sym e) i)

absent : (x r : ℕ) (xs : List ℕ) → (In x xs → ⊥) → x ≡ r → In r xs → ⊥
absent x r xs h e i = differs x r xs h i e

dark_of-update :
    (d : ℕ → Bool) (x : ℕ) (xs : List ℕ)
    → (In x xs → ⊥)
    → dark_of (update d x false) xs ≡ dark_of d xs
dark_of-update d x [] h = refl
dark_of-update d x (y ∷ ys) h =
    rw (update_other d x y false (λ e. h (inl (sym e))), dark_of-update d x ys (λ i. h (inr i)))
      refl

-- A dark object is unmarked and kept.
sweep_dark :
    (x : ℕ) (xs : List ℕ) (memory : ℕ → Option Object) (d : ℕ → Bool)
    → (In x xs → ⊥)
    → d x ≡ true
    → (s : List ℕ × (ℕ → Option Object) × (ℕ → Bool)) → Sweeps xs memory (update d x false) s
    → Sweeps (x ∷ xs) memory d (x ∷ s.0, s.1, s.2)
sweep_dark x xs memory d fresh e s h = record {
  kept = rw (e, h.kept, dark_of-update d x xs fresh) refl;
  freed = λ r i w. elim i [
    | inl p ↦ absurd (cc (sym e ∙ ap d p ∙ w))
    | inr p ↦ h.freed r p (update_other d x r false (differs x r xs fresh p) ∙ w)
  ];
  stays = λ r i. elim (Bool-cases (x == r)) [
    | inl p ↦ h.stays r (inr (absent x r xs fresh (ground (arith, p))))
    | inr p ↦ h.stays r (elim i [
      | inl w ↦ inl (update_other d x r false (λ q. ground (arith, p, q)) ∙ w)
      | inr n ↦ inr (λ q. n (inr q))
    ])
  ];
  unmarked = λ r i. elim i [
    | inr p ↦ h.unmarked r p
    | inl p ↦ h.other_marks r (absent x r xs fresh p) ∙ update_self d x r false p
  ];
  other_marks = λ r n. h.other_marks r (λ q. n (inr q)) ∙ update_other d x r false (λ q. n (inl q));
}

-- Any other object is freed.
sweep_white :
    (x : ℕ) (xs : List ℕ) (memory : ℕ → Option Object) (d : ℕ → Bool)
    → (In x xs → ⊥)
    → d x ≡ false
    → (s : List ℕ × (ℕ → Option Object) × (ℕ → Bool)) → Sweeps xs (update memory x none) d s
    → Sweeps (x ∷ xs) memory d s
sweep_white x xs memory d fresh e s h = record {
  kept = rw e h.kept;
  freed = λ r i w. elim i [
    | inl p ↦ h.stays r (inr (absent x r xs fresh p)) ∙ update_self memory x r none p
    | inr p ↦ h.freed r p w
  ];
  stays = λ r i. elim i [
    | inl w ↦ h.stays r (inl w) ∙ update_other memory x r none (λ p. cc (sym e ∙ ap d p ∙ w))
    | inr n ↦ h.stays r (inr (λ q. n (inr q))) ∙ update_other memory x r none (λ p. n (inl p))
  ];
  unmarked = λ r i. elim i [
    | inr p ↦ h.unmarked r p
    | inl p ↦ h.other_marks r (absent x r xs fresh p) ∙ ap d (sym p) ∙ e
  ];
  other_marks = λ r n. h.other_marks r (λ q. n (inr q));
}

pub sweep-Sweeps :
    (first : List ℕ) (memory : ℕ → Option Object) (d : ℕ → Bool)
    → IsDistinct first
    → Sweeps first memory d (sweep first memory d)
unfolding sweep
sweep-Sweeps [] memory d h = record {
  kept = refl;
  freed = λ r i e. absurd i;
  stays = λ r i. refl;
  unmarked = λ r i. absurd i;
  other_marks = λ r i. refl;
}
sweep-Sweeps (x ∷ xs) memory d (fresh, h) = elim (Bool-cases (d x)) [
  | inl e ↦
      rw (sweep, e)
        (sweep_dark x xs memory d fresh e _ (sweep-Sweeps xs memory (update d x false) h))
  | inr e ↦
      rw (sweep, e)
        (sweep_white x xs memory d fresh e _ (sweep-Sweeps xs (update memory x none) d h))
]
