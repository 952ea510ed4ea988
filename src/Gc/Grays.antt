-- ===== src/Gc/Grays.antt =====
-- What graying does: exactly what is referred to becomes dark, what becomes dark is on the gray
-- stack, and the stack stays within its capacity.
use wrenegade.Base.{
  ℕ, ◌+◌, ◌≤◌, ◌<◌, ◌≡◌, refl, sym, ap, ◌∙◌, ◌⊎◌, inl, inr, Bool, true, false, Bool-cases, some,
  List, [], ◌∷◌, length, ◌==◌, if◌then◌else◌, arith, update, In,
}
use wrenegade.Gc.{Marks, gray_obj}
use wrenegade.Gc.Marking.{gray_all}

-- How many of the objects are not dark.
abbrev pub whites : List ℕ → (ℕ → Bool) → ℕ
whites [] d = 0
whites (x ∷ xs) d = (if d x then 0 else 1) + whites xs d

pub record Grays (first : List ℕ) (m : Marks) (rs : List ℕ) (m' : Marks) : Type 0 where
  pub keeps : (r : ℕ) → m.is_dark r ≡ true → m'.is_dark r ≡ true
  pub darkens : (r : ℕ) → In r rs → m'.is_dark r ≡ true
  pub only : (r : ℕ) → m'.is_dark r ≡ true → (m.is_dark r ≡ true) ⊎ In r rs
  pub stacks : (r : ℕ) → m'.is_dark r ≡ true → (m.is_dark r ≡ true) ⊎ In r m'.gray
  pub keeps_gray : (r : ℕ) → In r m.gray → In r m'.gray
  pub gray_dark : (r : ℕ) → In r m'.gray → In r m.gray ⊎ (m'.is_dark r ≡ true)
  pub measure : whites first m'.is_dark + length m'.gray ≤ whites first m.is_dark + length m.gray
  pub capacity :
      length m.gray ≤ m.gray_capacity
      → 0 < m.gray_capacity
      → (length m'.gray ≤ m'.gray_capacity) × (0 < m'.gray_capacity)

whites-update_le :
    (first : List ℕ) (d : ℕ → Bool) (r : ℕ) → whites first (update d r true) ≤ whites first d
whites-update_le [] d r = omega arith
whites-update_le (x ∷ xs) d r = ground (arith, whites-update_le xs d r)

-- An object that becomes dark was counted.
whites-update :
    (first : List ℕ) (d : ℕ → Bool) (r : ℕ)
    → In r first
    → d r ≡ false
    → whites first (update d r true) + 1 ≤ whites first d
whites-update [] d r i h = absurd i
whites-update (x ∷ xs) d r (inl e) h = ground (arith, whites-update_le xs d r, ap d e)
whites-update (x ∷ xs) d r (inr i) h = ground (arith, whites-update xs d r i h)

gray_one :
    (first : List ℕ) (m : Marks) (r : ℕ) → In r first → Grays first m (r ∷ []) (gray_obj m (some r))
unfolding gray_obj
gray_one first m r i = elim (Bool-cases (m.is_dark r)) [
  | inl e ↦
      rw (gray_obj, e)
        (record {
          keeps = λ q h. h;
          darkens = λ q h. elim h [ inl p ↦ ap m.is_dark (sym p) ∙ e | inr p ↦ absurd p ];
          only = λ q h. inl h;
          stacks = λ q h. inl h;
          keeps_gray = λ q h. h;
          gray_dark = λ q h. inl h;
          measure = omega arith;
          capacity = λ p q. (p, q);
        })
  | inr e ↦
      rw (gray_obj, e)
        (record {
          keeps = λ q h. ground (arith, h);
          darkens = λ q h. elim h [ inl p ↦ ground (arith, p) | inr p ↦ absurd p ];
          only = λ q h. elim (Bool-cases (r == q)) [
            | inl p ↦ inr (inl (ground (arith, p)))
            | inr p ↦ inl (ground (arith, p, h))
          ];
          stacks = λ q h. elim (Bool-cases (r == q)) [
            | inl p ↦ inr (inl (ground (arith, p)))
            | inr p ↦ inl (ground (arith, p, h))
          ];
          keeps_gray = λ q h. inr h;
          gray_dark = λ q h. elim h [ inl p ↦ inr (ground (arith, p)) | inr p ↦ inl p ];
          measure = omega (arith, whites-update first m.is_dark r i e);
          capacity = λ p q. ground arith;
        })
]

-- One reference, and then the rest.
Grays-cons :
    {first : List ℕ} {m n o : Marks} {r : ℕ} {rs : List ℕ}
    → Grays first m (r ∷ []) n
    → Grays first n rs o
    → Grays first m (r ∷ rs) o
Grays-cons a b = record {
  keeps = λ q h. b.keeps q (a.keeps q h);
  darkens = λ q h. elim h [ inl p ↦ b.keeps q (a.darkens q (inl p)) | inr p ↦ b.darkens q p ];
  only = λ q h. elim (b.only q h) [
    | inl p ↦ elim (a.only q p) [
      | inl x ↦ inl x
      | inr x ↦ elim x [ inl e ↦ inr (inl e) | inr y ↦ absurd y ]
    ]
    | inr p ↦ inr (inr p)
  ];
  stacks = λ q h. elim (b.stacks q h) [
    | inl p ↦ elim (a.stacks q p) [ inl x ↦ inl x | inr x ↦ inr (b.keeps_gray q x) ]
    | inr p ↦ inr p
  ];
  keeps_gray = λ q h. b.keeps_gray q (a.keeps_gray q h);
  gray_dark = λ q h. elim (b.gray_dark q h) [
    | inl p ↦ elim (a.gray_dark q p) [ inl x ↦ inl x | inr x ↦ inr (b.keeps q x) ]
    | inr p ↦ inr p
  ];
  measure = omega (arith, a.measure, b.measure);
  capacity = λ p q. let (u, v) = a.capacity p q in b.capacity u v;
}

pub gray_all-Grays :
    (first : List ℕ) (m : Marks) (rs : List ℕ)
    → ((r : ℕ) → In r rs → In r first)
    → Grays first m rs (gray_all m rs)
unfolding gray_all
gray_all-Grays first m [] h = record {
  keeps = λ q p. p;
  darkens = λ q p. absurd p;
  only = λ q p. inl p;
  stacks = λ q p. inl p;
  keeps_gray = λ q p. p;
  gray_dark = λ q p. inl p;
  measure = omega arith;
  capacity = λ p q. (p, q);
}
gray_all-Grays first m (r ∷ rs) h =
    Grays-cons (gray_one first m r (h r (inl refl)))
      (gray_all-Grays first (gray_obj m (some r)) rs (λ q p. h q (inr p)))
