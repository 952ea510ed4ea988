-- ===== src/Scopes.antt =====
-- lib/wren/src/vm/wren_compiler.c: the variables of a function that is being compiled, from
-- `addLocal` to `resolveNonmodule`. The locals stand newest first, so that the index of a local is
-- the number of locals after it. A depth is one more than the C code's, where -1 is the top level.
pub mod Locals
pub mod Declarations
pub mod Upvalues
mod Tests
use wrenegade.Base.{
  ℕ, suc, ◌+◌, ◌-◌, Bool, true, false, not, ◌&&◌, Option, none, some, List, [], ◌∷◌, ◌++◌, length,
  drop, get_or, ◌==◌, ltb, leb, if◌then◌else◌,
}
use mathlib.Core.Option
use wrenegade.Base.Int.{pos, ◌-ℤ◌}
use wrenegade.Bytecode.Code.{to_byte, close_upvalue, pop}
use wrenegade.Bytecode.Emit.{Compiler, emit_byte}

-- The bytes of a name; the C code compares lengths and then `memcmp`.
unfoldable pub same_name : List ℕ → List ℕ → Bool
same_name [] [] = true
same_name [] (y ∷ ys) = false
same_name (x ∷ xs) [] = false
same_name (x ∷ xs) (y ∷ ys) = x == y && same_name xs ys

pub record Local : Type 0 where
  pub name : List ℕ
  pub depth : ℕ
  pub is_upvalue : Bool

pub record CompilerUpvalue : Type 0 where
  pub is_local : Bool
  pub index : ℕ

-- `locals`, `scopeDepth`, `upvalues`, `enclosingClass != NULL`, and what `emitByte` writes to.
pub record Scopes : Type 0 where
  pub locals : List Local
  pub scope_depth : ℕ
  pub upvalues : List CompilerUpvalue
  pub in_class : Bool
  pub output : Compiler

-- `MAX_LOCALS`
abbrev pub max_locals : ℕ
max_locals = 256

unfoldable pub add_local : Scopes → List ℕ → Scopes × ℕ
add_local c name =
    let added : Local = record { name = name; depth = c.scope_depth; is_upvalue = false } in
    (record c { locals = added ∷ c.locals }, length c.locals)

-- The search of `declareVariable` in the current scope.
unfoldable pub declared_in : List Local → ℕ → List ℕ → Option ℕ
declared_in [] depth name = none
declared_in (l ∷ ls) depth name =
    let rest = declared_in ls depth name in
    if ltb l.depth depth then none else if same_name l.name name then some (length ls) else rest

-- `MAX_VARIABLE_NAME`
abbrev pub max_variable_name : ℕ
max_variable_name = 64

-- `error`
abbrev pub with_error : Scopes → Scopes
with_error c = record c { output = record c.output { has_error = true } }

-- A name that is too long is reported, and goes on.
abbrev pub check_name : Scopes → List ℕ → Scopes
check_name c name = if ltb max_variable_name (length name) then with_error c else c

pub data Declared : Type 0 where
  declared : Scopes → ℕ → Declared
  -- "Variable is already declared in this scope.", with the index that is returned.
  duplicate : Scopes → ℕ → Declared
  -- "Cannot declare more than %d variables in one scope.", with -1 returned.
  too_many : Scopes → Declared

-- `declareVariable` in a local scope.
unfoldable pub declare_variable : Scopes → List ℕ → Declared
declare_variable c name = elim (declared_in c.locals c.scope_depth name) [
  | some i ↦ duplicate (with_error (check_name c name)) i
  | none ↦
      if length c.locals == max_locals
      then too_many (with_error (check_name c name))
      else let (c', i) = add_local (check_name c name) name in declared c' i
]

unfoldable pub push_scope : Scopes → Scopes
push_scope c = record c { scope_depth = suc c.scope_depth }

-- The loop of `discardLocals`, with the number of locals that it passed.
unfoldable pub discard_loop : Compiler → List Local → ℕ → Compiler × ℕ
discard_loop out [] depth = (out, 0)
discard_loop out (l ∷ ls) depth =
    let (out', n) =
      discard_loop (emit_byte out (to_byte (if l.is_upvalue then close_upvalue else pop))) ls
        depth in
    if leb depth l.depth then (out', suc n) else (out, 0)

unfoldable pub discard_locals : Scopes → ℕ → Scopes × ℕ
discard_locals c depth =
    let (out, popped) = discard_loop c.output c.locals depth in (record c { output = out }, popped)

unfoldable pub pop_scope : Scopes → Scopes
pop_scope c =
    let (c', popped) = discard_locals c c.scope_depth in
    record c' {
      locals = drop popped c'.locals;
      scope_depth = c.scope_depth - 1;
      output = record c'.output { num_slots = c'.output.num_slots -ℤ pos popped };
    }

unfoldable pub resolve_local : List Local → List ℕ → Option ℕ
resolve_local [] name = none
resolve_local (l ∷ ls) name =
    let rest = resolve_local ls name in if same_name l.name name then some (length ls) else rest

-- `compiler->locals[local].isUpvalue = true`
unfoldable pub mark_upvalue : List Local → ℕ → List Local
mark_upvalue [] i = []
mark_upvalue (l ∷ ls) i =
    if length ls == i then record l { is_upvalue = true } ∷ ls else l ∷ mark_upvalue ls i

abbrev pub same_bool : Bool → Bool → Bool
same_bool true b = b
same_bool false b = not b

-- The search of `addUpvalue` for an existing upvalue.
unfoldable pub find_captured : List CompilerUpvalue → Bool → ℕ → Option ℕ
find_captured [] is_local index = none
find_captured (u ∷ us) is_local index =
    let rest = find_captured us is_local index in
    if u.index == index && same_bool u.is_local is_local
    then some 0
    else elim rest [ none ↦ none | some i ↦ some (suc i) ]

-- `MAX_UPVALUES`, the length of the array of a compiler's upvalues.
abbrev pub max_upvalues : ℕ
max_upvalues = 256

-- A write behind the array, which the C code does not check for, is the result none.
unfoldable pub add_upvalue : Scopes → Bool → ℕ → Option (ℕ × Scopes)
add_upvalue c is_local index =
    let captured : CompilerUpvalue = record { is_local = is_local; index = index } in
    elim (find_captured c.upvalues is_local index) [
      | some i ↦ some (i, c)
      | none ↦
          if ltb (length c.upvalues) max_upvalues
          then some (length c.upvalues, record c { upvalues = c.upvalues ++ (captured ∷ []) })
          else none
    ]

-- The search stops at the methods of a class, except for a name that begins with `_`.
unfoldable pub is_boundary : Scopes → List ℕ → Bool
is_boundary parent name = not (get_or name 0 0 == 95) && parent.in_class

-- A compiler, and those of the functions around it from the inside out.
-- A variable beyond the enclosing function is captured from that function's upvalue.
unfoldable pub captured_outside :
    Scopes → Option (Option ℕ × Scopes × List Scopes) → Option (Option ℕ × Scopes × List Scopes)
captured_outside c none = none
captured_outside c (some (none, p, ps)) = some (none, c, p ∷ ps)
captured_outside c (some (some upvalue, p, ps)) =
    Option.map (λ (i, c'). (some i, c', p ∷ ps)) (add_upvalue c false upvalue)

unfoldable pub find_upvalue :
    Scopes → List Scopes → List ℕ → Option (Option ℕ × Scopes × List Scopes)
find_upvalue c [] name = some (none, c, [])
find_upvalue c (p ∷ ps) name =
    let outer = find_upvalue p ps name in
    if is_boundary p name then some (none, c, p ∷ ps) else elim (resolve_local p.locals name) [
      | some local ↦
          Option.map
            (λ (i, c'). (some i, c', record p { locals = mark_upvalue p.locals local } ∷ ps))
            (add_upvalue c true local)
      | none ↦ captured_outside c outer
    ]

pub data Scope : Type 0 where
  scope_local scope_upvalue : Scope

unfoldable pub resolve_nonmodule :
    Scopes → List Scopes → List ℕ → Option (Scope × Option ℕ × Scopes × List Scopes)
resolve_nonmodule c ps name = elim (resolve_local c.locals name) [
  | some i ↦ some (scope_local, some i, c, ps)
  | none ↦ Option.map (λ (i, c', ps'). (scope_upvalue, i, c', ps')) (find_upvalue c ps name)
]
