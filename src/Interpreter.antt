-- ===== src/Interpreter.antt =====
-- The instructions of `runInterpreter` (lib/wren/src/vm/wren_vm.c) that neither call nor return nor
-- make or change a class, over the state of one call frame.
pub mod Step
pub mod Moves
pub mod Effects
pub mod Landing
pub mod Agreement
pub mod Runs
mod Tests
use wrenegade.Base.{
  ℕ, zero, suc, ◌+◌, ◌-◌, ◌≡◌, Bool, true, false, Option, none, some, List, [], ◌∷◌, ◌++◌, length,
  get_elem?, get_or, set, take, ltb, ◌==◌, if◌then◌else◌,
}
use mathlib.Core.Option
use wrenegade.Closures.{Variables, capture_upvalue, discard_from, load_upvalue, store_upvalue}
use wrenegade.Bytecode.Emit.{read_short_at}

-- Objects are known by their addresses, a function with the number of its upvalues too.
pub data Value : Type 0 where
  null_value false_value true_value : Value
  number instance closure_object other : ℕ → Value
  function : ℕ → ℕ → Value

-- What stays the same while a call frame runs: the function's code and constants, its module, the
-- slot where the frame's part of the stack begins, and the upvalues of its closure.
pub record CallFrame : Type 0 where
  pub code : List ℕ
  pub constants : List Value
  pub own_module : ℕ
  pub stack_start : ℕ
  pub captured : List ℕ

-- What changes: the instruction pointer, the stack with the upvalues into it, the variables of the
-- module, the fields of instances, the upvalues of closures, and the module loaded last.
pub record Running : Type 0 where
  pub ip : ℕ
  pub vars : Variables Value
  pub module_variables : List Value
  pub instances : List (List Value)
  pub closures : List (List ℕ)
  pub last_module : Option ℕ

-- `READ_BYTE()` and `READ_SHORT()`; the operands are taken to be in the code.
abbrev pub byte_at : CallFrame → Running → ℕ
byte_at f r = get_or f.code r.ip 0

abbrev pub short_at : CallFrame → Running → ℕ
short_at f r = read_short_at f.code r.ip

abbrev pub skip : ℕ → Running → Running
skip n r = record r { ip = r.ip + n }

abbrev pub height : Running → ℕ
height r = length r.vars.stack

-- `PUSH`, `DROP` and `PEEK`
abbrev pub push : Value → Running → Running
push v r = record r { vars = record r.vars { stack = r.vars.stack ++ v ∷ [] } }

abbrev pub drop_top : Running → Running
drop_top r = record r { vars = record r.vars { stack = take (height r - 1) r.vars.stack } }

abbrev pub peek : Running → Option Value
peek r = get_elem? r.vars.stack (height r - 1)

abbrev pub is_falsy : Value → Bool
is_falsy null_value = true
is_falsy false_value = true
is_falsy v = false

abbrev pub push_elem : List Value → ℕ → Running → Option Running
push_elem values i r = Option.map (λ v. push v r) (get_elem? values i)

-- A slot of the frame.
abbrev pub load_slot : CallFrame → ℕ → Running → Option Running
load_slot f k r = push_elem r.vars.stack (f.stack_start + k) r

unfoldable pub store_slot : CallFrame → ℕ → Running → Option Running
store_slot f k r = Option.bind (peek r) λ v.
    Option.bind (get_elem? r.vars.stack (f.stack_start + k)) λ old.
      some (record r { vars = record r.vars { stack = set r.vars.stack (f.stack_start + k) v } })

unfoldable pub push_upvalue : CallFrame → ℕ → Running → Option Running
push_upvalue f b r =
    Option.bind (get_elem? f.captured b) λ u. Option.map (λ v. push v r) (load_upvalue r.vars u)

unfoldable pub write_upvalue : CallFrame → ℕ → Running → Option Running
write_upvalue f b r = Option.bind (peek r) λ v.
    Option.bind (get_elem? f.captured b)
      λ u. Option.map (λ m. record r { vars = m }) (store_upvalue r.vars u v)

unfoldable pub store_module_variable : ℕ → Running → Option Running
store_module_variable i r = Option.bind (peek r) λ v.
    Option.bind (get_elem? r.module_variables i)
      λ old. some (record r { module_variables = set r.module_variables i v })

-- `AS_INSTANCE`
abbrev pub as_instance : Value → Option ℕ
as_instance (instance k) = some k
as_instance v = none

unfoldable pub push_field : Value → ℕ → Running → Option Running
push_field receiver field r =
    Option.bind (as_instance receiver)
      λ k. Option.bind (get_elem? r.instances k) λ fields. push_elem fields field r

unfoldable pub write_field : Value → ℕ → Running → Option Running
write_field receiver field r = Option.bind (peek r) λ v. Option.bind (as_instance receiver) λ k.
    Option.bind (get_elem? r.instances k) λ fields.
      Option.bind (get_elem? fields field)
        λ old. some (record r { instances = set r.instances k (set fields field v) })

-- `JUMP_IF`, `AND` and `OR`, behind the offset.
unfoldable pub jump_if_falsy : ℕ → Running → Option Running
jump_if_falsy offset r =
    Option.map (λ v. if is_falsy v then skip offset (drop_top r) else drop_top r) (peek r)

unfoldable pub and_falsy : ℕ → Running → Option Running
and_falsy offset r = Option.map (λ v. if is_falsy v then skip offset r else drop_top r) (peek r)

unfoldable pub or_truthy : ℕ → Running → Option Running
or_truthy offset r = Option.map (λ v. if is_falsy v then drop_top r else skip offset r) (peek r)

-- `LOOP`, behind the offset.
unfoldable pub loop_back : ℕ → Running → Option Running
loop_back offset r = if ltb r.ip offset then none else some (record r { ip = r.ip - offset })

-- `CLOSE_UPVALUE`
unfoldable pub close_top : Running → Option Running
close_top r =
    Option.bind (peek r)
      λ v. Option.map (λ m. record r { vars = m }) (discard_from r.vars (height r - 1))

-- The loop of `CLOSURE`, with the upvalues of the new closure so far.
unfoldable pub capture_all : CallFrame → ℕ → Running → List ℕ → Option (Running × List ℕ)
capture_all f zero r upvalues = some (r, upvalues)
capture_all f (suc n) r upvalues =
    let is_local = byte_at f r in
    let index = byte_at f (skip 1 r) in
    Option.bind
      (if is_local == 0
        then Option.map (λ u. (r.vars, u)) (get_elem? f.captured index)
        else capture_upvalue r.vars (f.stack_start + index))
      λ c. capture_all f n (skip 2 (record r { vars = c.0 })) (upvalues ++ c.1 ∷ [])

-- `CLOSURE`, behind the constant.
unfoldable pub make_closure : CallFrame → Value → Running → Option Running
make_closure f (function address upvalues) r =
    Option.map (λ c. record (c.0) { closures = (c.0).closures ++ c.1 ∷ [] })
      (capture_all f upvalues (push (closure_object (length r.closures)) r) [])
make_closure f v r = none
