-- ===== src/Scopes/Locals.antt =====
-- Blocks: what is declared in a block goes out of scope at its end.
use wrenegade.Base.{
  ℕ, suc, ◌≤◌, ◌≡◌, refl, sym, ap, ◌∙◌, inl, inr, true, false, Bool-cases, Option-cases, List, [],
  ◌∷◌, All, length, drop, arith, leb, ltb, ◌==◌, if◌then◌else◌,
}
use wrenegade.Bytecode.Emit.{Compiler, emit_byte}
use wrenegade.Bytecode.Code.{to_byte, close_upvalue, pop}
use wrenegade.Scopes.{
  Local, Scopes, Declared, declared, duplicate, too_many, declared_in, add_local, declare_variable,
  max_variable_name, push_scope, discard_loop, discard_locals, pop_scope, resolve_local,
  mark_upvalue,
}

-- What the parser does to the variables in a block: a declaration, a capture by a closure of the
-- local at an index, or a block within, and then the rest. Declarations that fail report an error
-- and leave the variables alone.
pub data Block : Type 0 where
  done : Block
  declare : List ℕ → Block → Block
  capture : ℕ → Block → Block
  nest : Block → Block → Block

abbrev pub or_else : Scopes → Declared → Scopes
or_else c (declared c' i) = c'
or_else c (duplicate c' i) = c'
or_else c (too_many c') = c'

unfoldable pub compile_block : Scopes → Block → Scopes
compile_block c done = c
compile_block c (declare name rest) = compile_block (or_else c (declare_variable c name)) rest
compile_block c (capture i rest) =
    compile_block (record c { locals = mark_upvalue c.locals i }) rest
compile_block c (nest inner rest) =
    compile_block (pop_scope (compile_block (push_scope c) inner)) rest

-- The same names at the same depths, whichever of them are captured.
pub data Like : List Local → List Local → Type 0 where
  both_empty : Like [] []
  both :
      {l m : Local} {ls ms : List Local}
      → l.name ≡ m.name
      → l.depth ≡ m.depth
      → Like ls ms
      → Like (l ∷ ls) (m ∷ ms)

-- `base`, with locals of depth `d` declared after it.
pub data Grows (d : ℕ) (base : List Local) : List Local → Type 0 where
  same : {ls : List Local} → Like base ls → Grows d base ls
  newer : {l : Local} {ls : List Local} → l.depth ≡ d → Grows d base ls → Grows d base (l ∷ ls)

abbrev pub AtMost : ℕ → List Local → Type 0
AtMost d ls = All (λ (l : Local). l.depth ≤ d) ls

Like-self : (ls : List Local) → Like ls ls
Like-self [] = both_empty
Like-self (l ∷ ls) = both refl refl (Like-self ls)

Like-trans : {ls ms ns : List Local} → Like ls ms → Like ms ns → Like ls ns
Like-trans both_empty both_empty = both_empty
Like-trans (both n d r) (both n' d' r') = both (n ∙ n') (d ∙ d') (Like-trans r r')

length-Like : {ls ms : List Local} → Like ls ms → length ls ≡ length ms
length-Like both_empty = refl
length-Like (both n d r) = ap suc (length-Like r)

Like-mark_upvalue : (ls : List Local) (i : ℕ) → Like ls (mark_upvalue ls i)
unfolding mark_upvalue
Like-mark_upvalue [] i = both_empty
Like-mark_upvalue (l ∷ ls) i = elim (Bool-cases (length ls == i)) [
  | inl e ↦ rw e (both refl refl (Like-self ls))
  | inr e ↦ rw e (both refl refl (Like-mark_upvalue ls i))
]

pub resolve_local-Like :
    {ls ms : List Local}
    → Like ls ms
    → (name : List ℕ) → resolve_local ls name ≡ resolve_local ms name
unfolding resolve_local
resolve_local-Like both_empty name = refl
resolve_local-Like (both n d r) name = rw (n, length-Like r, resolve_local-Like r name)

Grows-Like : {d : ℕ} {base ls ms : List Local} → Grows d base ls → Like ls ms → Grows d base ms
Grows-Like (same r) s = same (Like-trans r s)
Grows-Like (newer e g) (both n d r) = newer (sym d ∙ e) (Grows-Like g r)

AtMost-Like : (d : ℕ) {ls ms : List Local} → Like ls ms → AtMost d ls → AtMost d ms
AtMost-Like d' both_empty b = b
AtMost-Like d' (both n d r) (b, bs) = (omega arith, AtMost-Like d' r bs)

AtMost-Grows : (d : ℕ) {base ls : List Local} → AtMost d base → Grows d base ls → AtMost d ls
AtMost-Grows d b (same r) = AtMost-Like d r b
AtMost-Grows d b (newer e g) = (omega arith, AtMost-Grows d b g)

AtMost-suc : (d : ℕ) (ls : List Local) → AtMost d ls → AtMost (suc d) ls
AtMost-suc d [] b = b
AtMost-suc d (l ∷ ls) (b, bs) = (omega arith, AtMost-suc d ls bs)

-- The locals that are discarded are those of the innermost scope.
drop-discard_none :
    (out : Compiler) (d : ℕ) (ls : List Local)
    → AtMost d ls
    → drop (discard_loop out ls (suc d)).1 ls ≡ ls
unfolding discard_loop
drop-discard_none out d [] b = refl
drop-discard_none out d (l ∷ ls) (b, bs) =
    let e : leb (suc d) l.depth ≡ false = ground arith in rw e refl

drop-discard_loop :
    (d : ℕ) (base : List Local) (out : Compiler) {ls : List Local}
    → AtMost d base
    → Grows (suc d) base ls
    → Like base (drop (discard_loop out ls (suc d)).1 ls)
unfolding discard_loop
drop-discard_loop d base out {ls} b (same r) = rw (drop-discard_none out d ls (AtMost-Like d r b)) r
drop-discard_loop d base out b (newer {l = l} e g) =
    let deep : leb (suc d) l.depth ≡ true = ground arith in
    rw deep (
      drop-discard_loop d base
        (emit_byte out (to_byte (if l.is_upvalue then close_upvalue else pop))) b g)

declare_variable-Grows :
    (d : ℕ) (base : List Local) (c : Scopes) (name : List ℕ)
    → Grows d base c.locals
    → c.scope_depth ≡ d
    → Grows d base (or_else c (declare_variable c name)).locals
      × ((or_else c (declare_variable c name)).scope_depth ≡ d)
unfolding declare_variable add_local
declare_variable-Grows d base c name g e =
    elim (Option-cases (declared_in c.locals c.scope_depth name)) [
      | inr (i, h) ↦ elim (Bool-cases (ltb max_variable_name (length name))) [
        | inl t ↦ rw (h, declare_variable, t) (g, e)
        | inr t ↦ rw (h, declare_variable, t) (g, e)
      ]
      | inl h ↦ elim (Bool-cases (length c.locals == 256)) [
        | inl full ↦ elim (Bool-cases (ltb max_variable_name (length name))) [
          | inl t ↦ rw (h, declare_variable, full, t) (g, e)
          | inr t ↦ rw (h, declare_variable, full, t) (g, e)
        ]
        | inr room ↦ elim (Bool-cases (ltb max_variable_name (length name))) [
          | inl t ↦ rw (h, declare_variable, room, t) (newer e g, e)
          | inr t ↦ rw (h, declare_variable, room, t) (newer e g, e)
        ]
      ]
    ]

pop_scope-Like :
    (d : ℕ) (base : List Local) (c : Scopes)
    → AtMost d base
    → Grows (suc d) base c.locals
    → c.scope_depth ≡ suc d
    → Like base (pop_scope c).locals × ((pop_scope c).scope_depth ≡ d)
unfolding pop_scope discard_locals
pop_scope-Like d base c b g e =
    (rw (e, discard_locals) (drop-discard_loop d base c.output b g), omega arith)

compile_block-Grows :
    (d : ℕ) (base : List Local) (c : Scopes) (block : Block)
    → AtMost d base
    → Grows d base c.locals
    → c.scope_depth ≡ d
    → Grows d base (compile_block c block).locals × ((compile_block c block).scope_depth ≡ d)
unfolding compile_block push_scope
compile_block-Grows d base c done b g e = (g, e)
compile_block-Grows d base c (declare name rest) b g e =
    let (g', e') = declare_variable-Grows d base c name g e in
    compile_block-Grows d base (or_else c (declare_variable c name)) rest b g' e'
compile_block-Grows d base c (capture i rest) b g e =
    compile_block-Grows d base (record c { locals = mark_upvalue c.locals i }) rest b
      (Grows-Like g (Like-mark_upvalue c.locals i)) e
compile_block-Grows d base c (nest inner rest) b g e =
    let bounded = AtMost-Grows d b g in
    let (g', e') =
      compile_block-Grows (suc d) c.locals (push_scope c) inner (AtMost-suc d c.locals bounded)
        (same (Like-self c.locals)) (ap suc e) in
    let (like, e'') =
      pop_scope-Like d c.locals (compile_block (push_scope c) inner) bounded g' e' in
    compile_block-Grows d base (pop_scope (compile_block (push_scope c) inner)) rest b
      (Grows-Like g like) e''

-- If no local is deeper than the current scope, then a block compiled in a scope of its own,
-- with any declarations, captures and blocks within, leaves the scope depth and the number of
-- locals as they were, and every name resolves to the local that it resolved to before.
pub pop_scope-compile_block :
    (c : Scopes) (block : Block) (name : List ℕ)
    → AtMost c.scope_depth c.locals
    → ((pop_scope (compile_block (push_scope c) block)).scope_depth ≡ c.scope_depth)
      × (length (pop_scope (compile_block (push_scope c) block)).locals ≡ length c.locals)
      × (resolve_local (pop_scope (compile_block (push_scope c) block)).locals name
          ≡ resolve_local c.locals name)
unfolding push_scope
pop_scope-compile_block c block name b =
    let d = c.scope_depth in
    let (g, e) =
      compile_block-Grows (suc d) c.locals (push_scope c) block (AtMost-suc d c.locals b)
        (same (Like-self c.locals)) refl in
    let (like, e') = pop_scope-Like d c.locals (compile_block (push_scope c) block) b g e in
    (e', sym (length-Like like), sym (resolve_local-Like like name))
