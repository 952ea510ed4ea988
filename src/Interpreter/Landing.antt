-- ===== src/Interpreter/Landing.antt =====
-- Jumps, tests and loads against the tables of the compiler.
use wrenegade.Base.{
  ℕ, suc, ◌+◌, ◌-◌, ◌<◌, ◌≤◌, ◌≡◌, refl, sym, ap, ◌∙◌, inl, inr, arith, some, ltb, List, length,
  drop,
}
use wrenegade.Base.{Bool, Bool-cases}
use wrenegade.Interpreter.{loop_back}
use wrenegade.Base.Int.{pos, ◌+ℤ◌}
use wrenegade.Bytecode.Operands.{arguments}
use wrenegade.Bytecode.Code.{stack_effect}
use wrenegade.Bytecode.Code.{Code, pop, jump, loop, jump_if, and, or, end_module}
use wrenegade.Interpreter.{
  Value, null_value, CallFrame, Running, short_at, skip, height, push, drop_top, is_falsy,
  push_elem, load_slot, jump_if_falsy, and_falsy, or_truthy,
}
use wrenegade.Interpreter.Moves.{peek-in, push-Goes, drop_top-height, push_elem-Goes}
use wrenegade.Interpreter.Step.{went, went_on, execute}
use wrenegade.Interpreter.Effects.{upvalue_count, FallsThrough, Lands, up, down, falls}

module _ (f : CallFrame) (r : Running) where
  pub jump_if-Lands : 0 < height r → Lands f jump_if r
  unfolding execute jump_if_falsy arguments stack_effect
  jump_if-Lands l =
      let (v, e) = peek-in r l in
      elim (Bool-cases (is_falsy v)) [
        | inl t ↦ (
          skip (short_at f r) (drop_top (skip 2 r)),
          rw (execute, jump_if_falsy, e, t) refl,
          (v, e, inl (t, (refl, refl))),
        )
        | inr t ↦ (
          drop_top (skip 2 r),
          rw (execute, jump_if_falsy, e, t) refl,
          (
            v,
            e,
            inr (
              t,
              record {
                next = refl;
                counted = down (height r) (height (drop_top r)) (drop_top-height r l);
              },
            ),
          ),
        )
      ]

  pub and-Lands : 0 < height r → Lands f and r
  unfolding execute and_falsy arguments stack_effect
  and-Lands l =
      let (v, e) = peek-in r l in
      elim (Bool-cases (is_falsy v)) [
        | inl t ↦ (
          skip (short_at f r) (skip 2 r),
          rw (execute, and_falsy, e, t) refl,
          (v, e, inl (t, (refl, refl))),
        )
        | inr t ↦ (
          drop_top (skip 2 r),
          rw (execute, and_falsy, e, t) refl,
          (
            v,
            e,
            inr (
              t,
              record {
                next = refl;
                counted = down (height r) (height (drop_top r)) (drop_top-height r l);
              },
            ),
          ),
        )
      ]

  pub or-Lands : 0 < height r → Lands f or r
  unfolding execute or_truthy arguments stack_effect
  or-Lands l =
      let (v, e) = peek-in r l in
      elim (Bool-cases (is_falsy v)) [
        | inl t ↦ (
          drop_top (skip 2 r),
          rw (execute, or_truthy, e, t) refl,
          (
            v,
            e,
            inr (
              t,
              record {
                next = refl;
                counted = down (height r) (height (drop_top r)) (drop_top-height r l);
              },
            ),
          ),
        )
        | inr t ↦ (
          skip (short_at f r) (skip 2 r),
          rw (execute, or_truthy, e, t) refl,
          (v, e, inl (t, (refl, refl))),
        )
      ]

  pub jump-Lands : Lands f jump r
  unfolding execute
  jump-Lands = (skip (short_at f r) (skip 2 r), refl, (refl, refl))

  pub loop-Lands : short_at f r ≤ r.ip + 2 → Lands f loop r
  unfolding execute loop_back
  loop-Lands l =
      let near : ltb (r.ip + 2) (short_at f r) ≡ Bool.false = ground (arith, l) in
      (
        record (skip 2 r) { ip = r.ip + 2 - short_at f r },
        rw (execute, loop_back, near) refl,
        (omega (arith, l), refl),
      )

  pub pop-FallsThrough : 0 < height r → FallsThrough f pop r
  unfolding execute arguments stack_effect
  pop-FallsThrough l =
      let (v, e) = peek-in r l in
      falls f pop r (some (drop_top r)) r.ip (height (drop_top r)) (rw (execute, e) refl)
        (drop_top r, refl, refl, refl) (omega arith)
        (down (height r) (height (drop_top r)) (drop_top-height r l))

  pub push-FallsThrough :
      (c : Code) (v : Value)
      → execute f c r ≡ some (went (push v r))
      → arguments (upvalue_count f) c (drop r.ip f.code) ≡ 0
      → stack_effect c ≡ pos 1
      → FallsThrough f c r
  push-FallsThrough c v e n k =
      falls f c r (some (push v r)) r.ip (suc (height r)) e (push-Goes v r) (omega (arith, n))
        (up (height r) (suc (height r)) refl ∙ ap (λ z. pos (height r) +ℤ z) (sym k))

  pub end_module-FallsThrough : FallsThrough f end_module r
  unfolding execute arguments stack_effect
  end_module-FallsThrough =
      let q = record r { last_module = some f.own_module } in
      falls f end_module r (some (push null_value q)) r.ip (suc (height r)) refl
        (push-Goes null_value q) (omega arith) (up (height r) (suc (height r)) refl)

  -- A value from a list, one of the operands counted.
  pub elem-FallsThrough :
      (c : Code) (values : List Value) (i n : ℕ)
      → i < length values
      → execute f c r ≡ went_on (push_elem values i (skip n r))
      → arguments (upvalue_count f) c (drop r.ip f.code) ≡ n
      → stack_effect c ≡ pos 1
      → FallsThrough f c r
  elem-FallsThrough c values i n l e a k =
      falls f c r (push_elem values i (skip n r)) (r.ip + n) (suc (height r)) e
        (push_elem-Goes values i (skip n r) l) (omega (arith, a))
        (up (height r) (suc (height r)) refl ∙ ap (λ z. pos (height r) +ℤ z) (sym k))

  pub local-FallsThrough :
      (c : Code) (k n : ℕ)
      → f.stack_start + k < height r
      → execute f c r ≡ went_on (load_slot f k (skip n r))
      → arguments (upvalue_count f) c (drop r.ip f.code) ≡ n
      → stack_effect c ≡ pos 1
      → FallsThrough f c r
  local-FallsThrough c k n l e a t = elem-FallsThrough c r.vars.stack (f.stack_start + k) n l e a t

  -- The short locals read no operand.
  pub short_local-FallsThrough :
      (c : Code) (k : ℕ)
      → f.stack_start + k < height r
      → execute f c r ≡ went_on (load_slot f k r)
      → arguments (upvalue_count f) c (drop r.ip f.code) ≡ 0
      → stack_effect c ≡ pos 1
      → FallsThrough f c r
  short_local-FallsThrough c k l e a t =
      falls f c r (load_slot f k r) r.ip (suc (height r)) e
        (push_elem-Goes r.vars.stack (f.stack_start + k) r l) (omega (arith, a))
        (up (height r) (suc (height r)) refl ∙ ap (λ z. pos (height r) +ℤ z) (sym t))
