-- ===== src/Interpreter/Agreement.antt =====
-- Each instruction does what the tables of the compiler say.
use wrenegade.Base.{
  ℕ, suc, ◌+◌, ◌-◌, ◌*◌, ◌≡◌, refl, sym, ap, ◌∙◌, arith, Option, some, get_elem?, drop,
}
use mathlib.Core.Option
use wrenegade.Base.Int.{pos, ◌+ℤ◌}
use wrenegade.Bytecode.Operands.{arguments}
use wrenegade.Bytecode.Agreement.{get_or-drop}
use wrenegade.Bytecode.Code.{stack_effect}
use wrenegade.Bytecode.Emit.{read_short_at}
use wrenegade.Bytecode.Code.{
  Code, constant, null, false, true, load_local_0, load_local_1, load_local_2, load_local_3,
  load_local_4, load_local_5, load_local_6, load_local_7, load_local_8, load_local, store_local,
  load_upvalue, store_upvalue, load_module_var, store_module_var, load_field_this, store_field_this,
  load_field, store_field, pop, jump, loop, jump_if, and, or, close_upvalue, closure, end_module,
}
use wrenegade.Interpreter.{
  instance, function, null_value, false_value, true_value, CallFrame, Running, byte_at, short_at,
  skip, height, drop_top, store_slot, push_upvalue, write_upvalue, store_module_variable,
  push_field, write_field, close_top, make_closure,
}
use wrenegade.Interpreter.Moves.{
  Goes, drop_top-height, store_slot-Goes, push_upvalue-Goes, write_upvalue-Goes,
  store_module_variable-Goes, push_field-Goes, write_field-Goes, close_top-Goes, make_closure-Goes,
}
use wrenegade.Interpreter.Step.{went_on, execute}
use wrenegade.Interpreter.Effects.{upvalue_count, Fits, FallsThrough, Lands, up, level, down, falls}
use wrenegade.Interpreter.Landing.{
  jump_if-Lands, and-Lands, or-Lands, jump-Lands, loop-Lands, pop-FallsThrough, push-FallsThrough,
  end_module-FallsThrough, elem-FallsThrough, local-FallsThrough, short_local-FallsThrough,
}

module _ (f : CallFrame) (r : Running) where
  -- A store, which keeps the height.
  store-FallsThrough :
      (c : Code) (o : Option Running) (n : ℕ)
      → execute f c r ≡ went_on o
      → Goes o (r.ip + n) (height r)
      → arguments (upvalue_count f) c (drop r.ip f.code) ≡ n
      → stack_effect c ≡ pos 0
      → FallsThrough f c r
  store-FallsThrough c o n e g a k =
      falls f c r o (r.ip + n) (height r) e g (omega (arith, a))
        (level (height r) (height r) refl ∙ ap (λ z. pos (height r) +ℤ z) (sym k))

  load_upvalue-FallsThrough : Fits f load_upvalue r → FallsThrough f load_upvalue r
  unfolding execute arguments stack_effect
  load_upvalue-FallsThrough (u, v, at, l) =
      falls f load_upvalue r (push_upvalue f (byte_at f r) (skip 1 r)) (r.ip + 1) (suc (height r))
        refl (push_upvalue-Goes f (byte_at f r) u v (skip 1 r) at l) refl
        (up (height r) (suc (height r)) refl)

  store_upvalue-FallsThrough : Fits f store_upvalue r → FallsThrough f store_upvalue r
  unfolding execute arguments stack_effect
  store_upvalue-FallsThrough (u, at, l, h) =
      store-FallsThrough store_upvalue (write_upvalue f (byte_at f r) (skip 1 r)) 1 refl
        (write_upvalue-Goes f (byte_at f r) u (skip 1 r) h at l) refl refl

  load_field_this-FallsThrough : Fits f load_field_this r → FallsThrough f load_field_this r
  unfolding execute arguments stack_effect Option.bind
  load_field_this-FallsThrough (k, fields, at, i, l) =
      falls f load_field_this r (push_field (instance k) (byte_at f r) (skip 1 r)) (r.ip + 1)
        (suc (height r)) (rw (execute, at) refl)
        (push_field-Goes k (byte_at f r) fields (skip 1 r) i l) refl
        (up (height r) (suc (height r)) refl)

  store_field_this-FallsThrough : Fits f store_field_this r → FallsThrough f store_field_this r
  unfolding execute arguments stack_effect Option.bind
  store_field_this-FallsThrough ((k, fields, at, i, l), h) =
      store-FallsThrough store_field_this (write_field (instance k) (byte_at f r) (skip 1 r)) 1
        (rw (execute, at) refl) (write_field-Goes k (byte_at f r) fields (skip 1 r) h i l) refl refl

  load_field-FallsThrough : Fits f load_field r → FallsThrough f load_field r
  unfolding execute arguments stack_effect Option.bind
  load_field-FallsThrough ((k, fields, at, i, l), h) =
      falls f load_field r (push_field (instance k) (byte_at f r) (skip 1 (drop_top r))) (r.ip + 1)
        (suc (height (drop_top r))) (rw (execute, at) refl)
        (push_field-Goes k (byte_at f r) fields (skip 1 (drop_top r)) i l) refl
        (level (height r) (suc (height (drop_top r))) (drop_top-height r h))

  store_field-FallsThrough : Fits f store_field r → FallsThrough f store_field r
  unfolding execute arguments stack_effect Option.bind
  store_field-FallsThrough ((k, fields, at, i, l), h) =
      let dropped = drop_top-height r (omega (arith, h)) in
      falls f store_field r (write_field (instance k) (byte_at f r) (skip 1 (drop_top r)))
        (r.ip + 1) (height (drop_top r)) (rw (execute, at) refl)
        (write_field-Goes k (byte_at f r) fields (skip 1 (drop_top r)) (omega (arith, h, dropped)) i
          l)
        refl (down (height r) (height (drop_top r)) dropped)

  close_upvalue-FallsThrough : Fits f close_upvalue r → FallsThrough f close_upvalue r
  unfolding execute arguments stack_effect
  close_upvalue-FallsThrough (valid, h) =
      falls f close_upvalue r (close_top r) r.ip (height r - 1) refl
        (close_top-Goes r (height r - 1) valid (omega (arith, h))) (omega arith)
        (down (height r) (height r - 1) (omega (arith, h)))

  -- The constant that the pairs are counted by is the function.
  count_of :
      (address n : ℕ)
      → get_elem? f.constants (short_at f r) ≡ some (function address n)
      → arguments (upvalue_count f) closure (drop r.ip f.code) ≡ 2 + n * 2
  unfolding arguments read_short_at
  count_of address n e =
      let start : r.ip + 0 ≡ r.ip = omega arith in
      rw (get_or-drop f.code r.ip 0, get_or-drop f.code r.ip 1, start, e) refl

  closure-FallsThrough : Fits f closure r → FallsThrough f closure r
  unfolding execute stack_effect Option.bind
  closure-FallsThrough (address, n, e, valid, p) =
      falls f closure r (make_closure f (function address n) (skip 2 r)) (r.ip + 2 + n * 2)
        (suc (height r)) (rw (execute, e) refl) (make_closure-Goes f address n (skip 2 r) valid p)
        (omega (arith, count_of address n e)) (up (height r) (suc (height r)) refl)

-- x
pub execute-Lands : (f : CallFrame) (c : Code) (r : Running) → Fits f c r → Lands f c r
unfolding execute arguments stack_effect
execute-Lands f constant r l =
    elem-FallsThrough f r constant f.constants (short_at f r) 2 l refl refl refl
execute-Lands f null r l = push-FallsThrough f r null null_value refl refl refl
execute-Lands f false r l = push-FallsThrough f r false false_value refl refl refl
execute-Lands f true r l = push-FallsThrough f r true true_value refl refl refl
execute-Lands f load_local_0 r l = short_local-FallsThrough f r load_local_0 0 l refl refl refl
execute-Lands f load_local_1 r l = short_local-FallsThrough f r load_local_1 1 l refl refl refl
execute-Lands f load_local_2 r l = short_local-FallsThrough f r load_local_2 2 l refl refl refl
execute-Lands f load_local_3 r l = short_local-FallsThrough f r load_local_3 3 l refl refl refl
execute-Lands f load_local_4 r l = short_local-FallsThrough f r load_local_4 4 l refl refl refl
execute-Lands f load_local_5 r l = short_local-FallsThrough f r load_local_5 5 l refl refl refl
execute-Lands f load_local_6 r l = short_local-FallsThrough f r load_local_6 6 l refl refl refl
execute-Lands f load_local_7 r l = short_local-FallsThrough f r load_local_7 7 l refl refl refl
execute-Lands f load_local_8 r l = short_local-FallsThrough f r load_local_8 8 l refl refl refl
execute-Lands f load_local r l = local-FallsThrough f r load_local (byte_at f r) 1 l refl refl refl
execute-Lands f store_local r l =
    store-FallsThrough f r store_local (store_slot f (byte_at f r) (skip 1 r)) 1 refl
      (store_slot-Goes f (byte_at f r) (skip 1 r) l) refl refl
execute-Lands f load_upvalue r l = load_upvalue-FallsThrough f r l
execute-Lands f store_upvalue r l = store_upvalue-FallsThrough f r l
execute-Lands f load_module_var r l =
    elem-FallsThrough f r load_module_var r.module_variables (short_at f r) 2 l refl refl refl
execute-Lands f store_module_var r (l, h) =
    store-FallsThrough f r store_module_var (store_module_variable (short_at f r) (skip 2 r)) 2 refl
      (store_module_variable-Goes (short_at f r) (skip 2 r) h l) refl refl
execute-Lands f load_field_this r l = load_field_this-FallsThrough f r l
execute-Lands f store_field_this r l = store_field_this-FallsThrough f r l
execute-Lands f load_field r l = load_field-FallsThrough f r l
execute-Lands f store_field r l = store_field-FallsThrough f r l
execute-Lands f pop r l = pop-FallsThrough f r l
execute-Lands f jump r l = jump-Lands f r
execute-Lands f loop r l = loop-Lands f r l
execute-Lands f jump_if r l = jump_if-Lands f r l
execute-Lands f and r l = and-Lands f r l
execute-Lands f or r l = or-Lands f r l
execute-Lands f close_upvalue r l = close_upvalue-FallsThrough f r l
execute-Lands f closure r l = closure-FallsThrough f r l
execute-Lands f end_module r l = end_module-FallsThrough f r
execute-Lands f c r l = absurd l
