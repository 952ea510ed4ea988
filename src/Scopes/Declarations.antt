-- ===== src/Scopes/Declarations.antt =====
-- What a declaration does to the names in scope, on each of its outcomes.
use wrenegade.Base.{
  ℕ, suc, ◌+◌, All, ◌||◌, if◌then◌else◌, ◌≤◌, ◌<◌, ◌≡◌, true, false, some, List, [], ◌∷◌, length,
  ltb,
}
use wrenegade.Scopes.{
  max_variable_name, Local, Scopes, Declared, declared, duplicate, too_many, max_locals, same_name,
  resolve_local,
}

-- The locals of the innermost scope.
abbrev pub current_scope : List Local → ℕ → List Local
current_scope [] depth = []
current_scope (l ∷ ls) depth = if ltb l.depth depth then [] else l ∷ current_scope ls depth

abbrev pub IsFree : List Local → ℕ → List ℕ → Type 0
IsFree ls depth name = All (λ l. same_name l.name name ≡ false) (current_scope ls depth)

-- A new local has the next index, and a use of its name means it; other names mean what they meant.
-- A duplicate is the local of the innermost scope that a use of the name means. Otherwise the table
-- is full. The last two, and a name that is too long, are errors.
pub data Declares (c : Scopes) (name : List ℕ) : Declared → Type 0 where
  is_declared :
      (c' : Scopes) (i : ℕ)
      → IsFree c.locals c.scope_depth name
      → i < max_locals
      → length c'.locals ≡ suc i
      → resolve_local c'.locals name ≡ some i
      → ((other : List ℕ)
          → same_name name other ≡ false
          → resolve_local c'.locals other ≡ resolve_local c.locals other)
      → c'.output.has_error ≡ (ltb max_variable_name (length name) || c.output.has_error)
      → Declares c name (declared c' i)
  is_duplicate :
      (c' : Scopes) (i : ℕ)
      → resolve_local c.locals name ≡ some i
      → length c.locals ≤ i + length (current_scope c.locals c.scope_depth)
      → c'.locals ≡ c.locals
      → c'.output.has_error ≡ true
      → Declares c name (duplicate c' i)
  is_full :
      (c' : Scopes)
      → IsFree c.locals c.scope_depth name
      → length c.locals ≡ max_locals
      → c'.locals ≡ c.locals
      → c'.output.has_error ≡ true
      → Declares c name (too_many c')
