-- ===== src/Symbols/Tests.antt =====
-- A table of two names.
use wrenegade.Base.{ℕ, zero, suc, ◌≡◌, refl, some, List, [], ◌∷◌}
use wrenegade.Strings.{same_bytes}
use wrenegade.Symbols.{
  string_equals, find_from, symbol_table_find, symbol_table_add, symbol_table_ensure,
}
use wrenegade.Symbols.Ensure.{HasNoRepeats, Ensures, symbol_table_ensure-Ensures}

abbrev table : List (List ℕ)
table = (97 ∷ 98 ∷ []) ∷ (97 ∷ []) ∷ []

second : symbol_table_find table (97 ∷ []) ≡ some 1
unfolding string_equals same_bytes find_from symbol_table_find
second = refl

added : symbol_table_ensure table (98 ∷ []) ≡ ((97 ∷ 98 ∷ []) ∷ (97 ∷ []) ∷ (98 ∷ []) ∷ [], 2)
unfolding string_equals same_bytes find_from symbol_table_find symbol_table_add symbol_table_ensure
added = refl

table-HasNoRepeats : HasNoRepeats table
table-HasNoRepeats zero zero name e f = refl
table-HasNoRepeats zero (suc zero) name e f = cc
table-HasNoRepeats zero (suc (suc k)) name e f = cc
table-HasNoRepeats (suc zero) zero name e f = cc
table-HasNoRepeats (suc zero) (suc zero) name e f = refl
table-HasNoRepeats (suc zero) (suc (suc k)) name e f = cc
table-HasNoRepeats (suc (suc j)) k name e f = cc

symbol_table_ensure-Ensures_example : Ensures table (98 ∷ []) (symbol_table_ensure table (98 ∷ []))
symbol_table_ensure-Ensures_example = symbol_table_ensure-Ensures table (98 ∷ []) table-HasNoRepeats
