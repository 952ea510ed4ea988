-- ===== src/Symbols.antt =====
-- Symbol tables: names and their numbers (lib/wren/src/vm/wren_utils.c). A name is its bytes.
pub mod Ensure
mod Tests
use wrenegade.Base.{
  ℕ, suc, ◌+◌, Bool, Option, none, some, List, [], ◌∷◌, ◌++◌, length, ◌==◌, ◌&&◌, if◌then◌else◌,
}
use wrenegade.Strings.{same_bytes}

-- `wrenStringEqualsCString`
unfoldable pub string_equals : List ℕ → List ℕ → Bool
string_equals a b = length a == length b && same_bytes a b 0 (length b)

-- The loop of `wrenSymbolTableFind`; none is -1.
unfoldable pub find_from : ℕ → List (List ℕ) → List ℕ → Option ℕ
find_from i [] name = none
find_from i (symbol ∷ symbols) name =
    if string_equals symbol name then some i else find_from (i + 1) symbols name

unfoldable pub symbol_table_find : List (List ℕ) → List ℕ → Option ℕ
symbol_table_find symbols name = find_from 0 symbols name

unfoldable pub symbol_table_add : List (List ℕ) → List ℕ → List (List ℕ) × ℕ
symbol_table_add symbols name = (symbols ++ name ∷ [], length symbols)

unfoldable pub symbol_table_ensure : List (List ℕ) → List ℕ → List (List ℕ) × ℕ
symbol_table_ensure symbols name = elim (symbol_table_find symbols name) [
  | some existing ↦ (symbols, existing)
  | none ↦ symbol_table_add symbols name
]
