-- ===== src/Strings/Shift.antt =====
-- The table of shifts never skips a match.
use wrenegade.Base.{
  ℕ, zero, suc, ◌+◌, ◌-◌, ◌≤◌, ◌<◌, ◌≡◌, refl, sym, ap, ◌∙◌, inl, inr, true, Bool-cases, some, List,
  [], ◌∷◌, length, length-take, take, get_or, get_elem?, set, length-set, replicate,
  length-replicate, All, arith, ◌==◌, ltb, if◌then◌else◌,
}
use native.Mathlib.Nat.{add-zero}
use wrenegade.Strings.{enter_shifts, shift_table}

-- The entry for `c` is not above the distance of any `c` in the needle, before its last
-- character, from the end, nor above the length; and it is not 0.
pub record Shifts (needle : List ℕ) (table : List ℕ) : Type 0 where
  pub entry :
      (c : ℕ)
      → c < 255
      → (distance : ℕ) × (get_elem? table c ≡ some distance)
        × (0 < distance)
        × (distance ≤ length needle)
        × ((j : ℕ)
            → j + 1 < length needle
            → get_or needle j 0 ≡ c
            → distance + j + 1 ≤ length needle)

-- The same for the characters before an index.
pub record Entered (n : ℕ) (done : ℕ → ℕ) (index : ℕ) (table : List ℕ) : Type 0 where
  pub entry :
      (c : ℕ)
      → c < 255
      → (distance : ℕ) × (get_elem? table c ≡ some distance)
        × (0 < distance)
        × (distance ≤ n)
        × ((j : ℕ) → j < index → done j ≡ c → distance + j + 1 ≤ n)

get_elem?-replicate : (n i a : ℕ) → i < n → get_elem? (replicate n a) i ≡ some a
get_elem?-replicate zero i a h = absurd (omega arith)
get_elem?-replicate (suc n) zero a h = refl
get_elem?-replicate (suc n) (suc i) a h = get_elem?-replicate n i a (omega arith)

get_elem?-set :
    (xs : List ℕ) (i j v : ℕ)
    → i < length xs
    → get_elem? (set xs i v) j ≡ (if i == j then some v else get_elem? xs j)
get_elem?-set [] i j v h = absurd (omega arith)
get_elem?-set (x ∷ xs) zero zero v h = refl
get_elem?-set (x ∷ xs) zero (suc j) v h = ground arith
get_elem?-set (x ∷ xs) (suc i) zero v h = ground arith
get_elem?-set (x ∷ xs) (suc i) (suc j) v h = get_elem?-set xs i j v (omega arith) ∙ ground arith

enter_one :
    (n : ℕ) (done : ℕ → ℕ) (index : ℕ) (table : List ℕ)
    → length table ≡ 255
    → done index < 255
    → index + 1 < n
    → Entered n done index table
    → Entered n done (index + 1) (set table (done index) (n - 1 - index))
enter_one n done index table l small h e = record {
  entry = λ c b. elim (Bool-cases (done index == c)) [
    | inl t ↦ (
      n - 1 - index,
      get_elem?-set table (done index) c (n - 1 - index) (omega (arith, l)) ∙ rw t refl,
      omega arith,
      omega arith,
      λ j p q. omega arith,
    )
    | inr t ↦
        let (distance, g, p, q, f) = e.entry c b in
        (
          distance,
          get_elem?-set table (done index) c (n - 1 - index) (omega (arith, l)) ∙ rw t g,
          p,
          q,
          λ j r w. elim (Bool-cases (j == index)) [
            | inl v ↦
                let same : j ≡ index = ground arith in absurd (ground (arith, t, ap done same, w))
            | inr v ↦ f j (ground arith) w
          ],
        )
  ];
}

pub enter_shifts-Entered :
    (n : ℕ) (done : ℕ → ℕ) (cs : List ℕ) (index : ℕ) (table : List ℕ)
    → length table ≡ 255
    → All (λ c. c < 255) cs
    → index + length cs + 1 ≡ n
    → ((j : ℕ) → j < length cs → done (index + j) ≡ get_or cs j 0)
    → Entered n done index table
    → (table' : List ℕ) × (enter_shifts (n - 1) cs index table ≡ some table')
      × Entered n done (n - 1) table'
unfolding enter_shifts
enter_shifts-Entered n done [] index table l s h d e =
    let last : index ≡ n - 1 = omega arith in (table, refl, rw (← last) e)
enter_shifts-Entered n done (c ∷ cs) index table l s h d e =
    let same : done index ≡ c = rw add-zero at (d 0 (omega arith)) in
    let in_table : ltb c 255 ≡ true = ground (arith, s.0) in
    let next : Entered n done (index + 1) (set table c (n - 1 - index)) =
      rw same at (enter_one n done index table l (omega (arith, same, s.0)) (omega arith) e) in
    let (table', run, entered) =
      enter_shifts-Entered n done cs (index + 1) (set table c (n - 1 - index))
        (length-set table c (n - 1 - index) ∙ l) s.1 (omega arith)
        (λ j p.
          let move : index + 1 + j ≡ index + suc j = omega arith in
          rw move (d (suc j) (omega arith)))
        next in
    (table', rw (enter_shifts, in_table) run, entered)

get_or-take : (n : ℕ) (xs : List ℕ) (j : ℕ) → j < n → get_or (take n xs) j 0 ≡ get_or xs j 0
get_or-take zero xs j h = absurd (omega arith)
get_or-take (suc n) [] j h = refl
get_or-take (suc n) (x ∷ xs) zero h = refl
get_or-take (suc n) (x ∷ xs) (suc j) h = get_or-take n xs j (omega arith)

All-take : (P : ℕ → Type 0) (n : ℕ) (xs : List ℕ) → All P xs → All P (take n xs)
All-take P zero xs h = tt
All-take P (suc n) [] h = tt
All-take P (suc n) (x ∷ xs) h = (h.0, All-take P n xs h.1)

pub shift_table-Shifts :
    (needle : List ℕ)
    → 0 < length needle
    → All (λ c. c < 255) needle
    → (table : List ℕ) × (shift_table needle ≡ some table) × Shifts needle table
unfolding shift_table
shift_table-Shifts needle p small =
    let n = length needle in
    let taken : length (take (n - 1) needle) ≡ n - 1 = length-take (n - 1) needle ∙ omega arith in
    let (table, run, e) =
      enter_shifts-Entered n (λ j. get_or needle j 0) (take (n - 1) needle) 0 (replicate 255 n)
        (length-replicate 255 n) (All-take (λ c. c < 255) (n - 1) needle small)
        (omega (arith, taken))
        (λ j q.
          let z : 0 + j ≡ j = omega arith in
          rw z (sym (get_or-take (n - 1) needle j (omega (arith, taken)))))
        (record {
          entry = λ c b.
              (n, get_elem?-replicate 255 c n b, p, omega arith, λ j q. absurd (omega arith));
        }) in
    (
      table,
      run,
      record {
        entry = λ c b.
            let (distance, g, q, r, f) = e.entry c b in
            (distance, g, q, r, λ j t. f j (omega arith));
      },
    )
