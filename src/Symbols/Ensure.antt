-- ===== src/Symbols/Ensure.antt =====
-- A name has one number, which does not change.
use wrenegade.Base.{
  ℕ, zero, suc, ◌+◌, ◌≤◌, ◌≡◌, refl, sym, ap, ◌∙◌, ◌⊎◌, arith, inl, inr, Bool-cases, true, false,
  Option, none, some, List, [], ◌∷◌, ◌++◌, length, get_elem?, get_or, get_elem?-snoc,
  get_elem?-snoc_last, get_elem?-snoc_cases,
}
use wrenegade.Strings.{same_bytes}
use wrenegade.Strings.Find.{same_bytes-all, all-same_bytes}
use wrenegade.Buffers.RoundTrip.{same_elements}
use wrenegade.Symbols.{
  string_equals, find_from, symbol_table_find, symbol_table_add, symbol_table_ensure,
}

from_zero : (j : ℕ) → 0 + j ≡ j
from_zero j = omega arith

pub string_equals-same : (a b : List ℕ) → string_equals a b ≡ true → a ≡ b
unfolding string_equals
string_equals-same a b e =
    let size : length a ≡ length b = ground (arith, e) in
    let bytes : same_bytes a b 0 (length b) ≡ true = ground (arith, e) in
    same_elements 0 a b size (λ j h.
      ap (λ i. get_or a i 0) (sym (from_zero j))
      ∙ same_bytes-all a b 0 (length b) bytes j (omega (arith, size)))

pub string_equals_self : (a : List ℕ) → string_equals a a ≡ true
unfolding string_equals
string_equals_self a =
    let bytes = all-same_bytes a a 0 (length a) (λ j h. ap (λ i. get_or a i 0) (from_zero j)) in
    ground (arith, bytes)

-- What a search promises: the number of the name, before which it does not stand; or its absence.
pub data IsFound (symbols : List (List ℕ)) (name : List ℕ) : Option ℕ → Type 0 where
  found :
      (i : ℕ)
      → get_elem? symbols i ≡ some name
      → ((j : ℕ) → get_elem? symbols j ≡ some name → i ≤ j)
      → IsFound symbols name (some i)
  absent : ((j : ℕ) → get_elem? symbols j ≡ some name → ⊥) → IsFound symbols name none

-- The search from a number on.
abbrev Finds : ℕ → List (List ℕ) → List ℕ → Type 0
Finds i symbols name =
    ((k : ℕ) × (find_from i symbols name ≡ some (i + k)) × IsFound symbols name (some k))
    ⊎ ((find_from i symbols name ≡ none) × IsFound symbols name none)

find_from-here :
    (i : ℕ) (symbol : List ℕ) (symbols : List (List ℕ)) (name : List ℕ)
    → string_equals symbol name ≡ true
    → find_from i (symbol ∷ symbols) name ≡ some i
unfolding find_from
find_from-here i symbol symbols name t = rw (find_from, t) refl

find_from-next :
    (i : ℕ) (symbol : List ℕ) (symbols : List (List ℕ)) (name : List ℕ)
    → string_equals symbol name ≡ false
    → find_from i (symbol ∷ symbols) name ≡ find_from (i + 1) symbols name
unfolding find_from
find_from-next i symbol symbols name t = rw (find_from, t) refl

different : (symbol name : List ℕ) → string_equals symbol name ≡ false → symbol ≡ name → ⊥
different symbol name t e =
    cc (sym (string_equals_self name) ∙ ap (λ s. string_equals s name) (sym e) ∙ t)

first_later :
    (symbol : List ℕ) (symbols : List (List ℕ)) (name : List ℕ) (k : ℕ)
    → string_equals symbol name ≡ false
    → ((j : ℕ) → get_elem? symbols j ≡ some name → k ≤ j)
    → (j : ℕ) → get_elem? (symbol ∷ symbols) j ≡ some name
    → suc k ≤ j
first_later symbol symbols name k t first zero e = absurd (different symbol name t cc)
first_later symbol symbols name k t first (suc j) e = omega (arith, first j e)

next-IsFound :
    (symbol : List ℕ) (symbols : List (List ℕ)) (name : List ℕ) (k : ℕ)
    → string_equals symbol name ≡ false
    → IsFound symbols name (some k)
    → IsFound (symbol ∷ symbols) name (some (suc k))
next-IsFound symbol symbols name k t (found _ at first) =
    found (suc k) at (λ j. first_later symbol symbols name k t first j)

next-absent :
    (symbol : List ℕ) (symbols : List (List ℕ)) (name : List ℕ)
    → string_equals symbol name ≡ false
    → ((j : ℕ) → get_elem? symbols j ≡ some name → ⊥)
    → (j : ℕ) → get_elem? (symbol ∷ symbols) j ≡ some name
    → ⊥
next-absent symbol symbols name t none_there zero e = different symbol name t cc
next-absent symbol symbols name t none_there (suc j) e = none_there j e

find_from-Finds : (i : ℕ) (symbols : List (List ℕ)) (name : List ℕ) → Finds i symbols name
unfolding find_from
find_from-Finds i [] name = inr (refl, absent (λ j e. cc))
find_from-Finds i (symbol ∷ symbols) name = elim (Bool-cases (string_equals symbol name)) [
  | inl t ↦
      let at : get_elem? (symbol ∷ symbols) 0 ≡ some name =
        ap some (string_equals-same symbol name t) in
      let here : i ≡ i + 0 = omega arith in
      inl
        (0, find_from-here i symbol symbols name t ∙ ap some here, found 0 at (λ j e. omega arith))
  | inr t ↦ elim (find_from-Finds (i + 1) symbols name) [
    | inl (k, run, f) ↦
        let later : i + 1 + k ≡ i + suc k = omega arith in
        inl (
          suc k,
          find_from-next i symbol symbols name t ∙ run ∙ ap some later,
          next-IsFound symbol symbols name k t f,
        )
    | inr (run, absent none_there) ↦ inr (
      find_from-next i symbol symbols name t ∙ run,
      absent (next-absent symbol symbols name t none_there),
    )
  ]
]

-- The search gives the first place of a name, or none if the name does not stand in the table.
pub symbol_table_find-IsFound :
    (symbols : List (List ℕ)) (name : List ℕ)
    → IsFound symbols name (symbol_table_find symbols name)
unfolding symbol_table_find
symbol_table_find-IsFound symbols name = elim (find_from-Finds 0 symbols name) [
  | inl (k, run, f) ↦ rw (run, from_zero k) f
  | inr (run, f) ↦ rw run f
]

-- No name stands twice.
abbrev pub HasNoRepeats : List (List ℕ) → Type 0
HasNoRepeats symbols =
    (j k : ℕ) (name : List ℕ)
    → get_elem? symbols j ≡ some name
    → get_elem? symbols k ≡ some name
    → j ≡ k

-- What it promises to ensure a name.
pub record Ensures (symbols : List (List ℕ)) (name : List ℕ) (r : List (List ℕ) × ℕ) : Type 0 where
  pub here : get_elem? (r.0) (r.1) ≡ some name
  pub keeps : (j : ℕ) (s : List ℕ) → get_elem? symbols j ≡ some s → get_elem? (r.0) j ≡ some s
  pub no_repeats : HasNoRepeats (r.0)
  pub again : symbol_table_ensure (r.0) name ≡ r

find_there :
    (symbols : List (List ℕ)) (name : List ℕ) (i : ℕ) (o : Option ℕ)
    → HasNoRepeats symbols
    → get_elem? symbols i ≡ some name
    → IsFound symbols name o
    → o ≡ some i
find_there symbols name i o n at (found k at' first) = ap some (n k i name at' at)
find_there symbols name i o n at (absent none_there) = absurd (none_there i at)

ensure-existing :
    (symbols : List (List ℕ)) (name : List ℕ) (i : ℕ)
    → symbol_table_find symbols name ≡ some i
    → symbol_table_ensure symbols name ≡ (symbols, i)
unfolding symbol_table_ensure
ensure-existing symbols name i e = rw (symbol_table_ensure, e) refl

ensure-added :
    (symbols : List (List ℕ)) (name : List ℕ)
    → symbol_table_find symbols name ≡ none
    → symbol_table_ensure symbols name ≡ (symbols ++ name ∷ [], length symbols)
unfolding symbol_table_ensure symbol_table_add
ensure-added symbols name e = rw (symbol_table_ensure, e) refl

ensured_again :
    (symbols : List (List ℕ)) (name : List ℕ) (i : ℕ)
    → HasNoRepeats symbols
    → get_elem? symbols i ≡ some name
    → symbol_table_ensure symbols name ≡ (symbols, i)
ensured_again symbols name i n at = ensure-existing symbols name i (
    find_there symbols name i (symbol_table_find symbols name) n at
      (symbol_table_find-IsFound symbols name))

last_name :
    (symbols : List (List ℕ)) (name : List ℕ) (k : ℕ) (s : List ℕ)
    → k ≡ length symbols
    → get_elem? (symbols ++ name ∷ []) k ≡ some s
    → s ≡ name
last_name symbols name k s last f =
    cc (sym f ∙ ap (get_elem? (symbols ++ name ∷ [])) last ∙ get_elem?-snoc_last symbols name)

added-HasNoRepeats :
    (symbols : List (List ℕ)) (name : List ℕ)
    → HasNoRepeats symbols
    → ((j : ℕ) → get_elem? symbols j ≡ some name → ⊥)
    → HasNoRepeats (symbols ++ name ∷ [])
added-HasNoRepeats symbols name n none_there j k s e f =
    elim (get_elem?-snoc_cases symbols j s name e) [
      | inl old ↦ elim (get_elem?-snoc_cases symbols k s name f) [
        | inl old' ↦ n j k s old old'
        | inr last ↦ absurd (none_there j (old ∙ ap some (last_name symbols name k s last f)))
      ]
      | inr last ↦ elim (get_elem?-snoc_cases symbols k s name f) [
        | inl old' ↦ absurd (none_there k (old' ∙ ap some (last_name symbols name j s last e)))
        | inr last' ↦ last ∙ sym last'
      ]
    ]

ensured :
    (symbols : List (List ℕ)) (name : List ℕ) (o : Option ℕ)
    → HasNoRepeats symbols
    → symbol_table_find symbols name ≡ o
    → IsFound symbols name o
    → Ensures symbols name (symbol_table_ensure symbols name)
ensured symbols name (some i) n e (found _ at first) =
    rw (ensure-existing symbols name i e) (record {
      here = at;
      keeps = λ j s a. a;
      no_repeats = n;
      again = ensured_again symbols name i n at;
    })
ensured symbols name none n e (absent none_there) =
    let at = get_elem?-snoc_last symbols name in
    let n' = added-HasNoRepeats symbols name n none_there in
    rw (ensure-added symbols name e) (record {
      here = at;
      keeps = λ j s a. get_elem?-snoc symbols j s name a;
      no_repeats = n';
      again = ensured_again (symbols ++ name ∷ []) name (length symbols) n' at;
    })

-- In a table in which no name stands twice, ensuring a name gives a number at which the name
-- then stands, keeps every other name at its number, lets no name stand twice, and gives the
-- same number and table when done again.
pub symbol_table_ensure-Ensures :
    (symbols : List (List ℕ)) (name : List ℕ)
    → HasNoRepeats symbols
    → Ensures symbols name (symbol_table_ensure symbols name)
symbol_table_ensure-Ensures symbols name n =
    ensured symbols name (symbol_table_find symbols name) n refl
      (symbol_table_find-IsFound symbols name)
