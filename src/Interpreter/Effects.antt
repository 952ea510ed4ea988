-- ===== src/Interpreter/Effects.antt =====
-- The instructions against the tables of the compiler: `stackEffects` and `getNumArguments`.
use wrenegade.Base.{
  ℕ, suc, ◌+◌, ◌<◌, ◌≤◌, ◌≡◌, ap, ◌∙◌, ◌⊎◌, arith, Option, some, length, get_elem?, drop,
}
use wrenegade.Base.{Bool, not}
use wrenegade.Interpreter.{drop_top}
use wrenegade.Base.Int.{pos, negsuc, ◌+ℤ◌}
use wrenegade.Closures.{load_upvalue as read_through}
use wrenegade.Closures.Lists.{IsValid}
use wrenegade.Bytecode.Operands.{arguments}
use wrenegade.Bytecode.Code.{stack_effect}
use wrenegade.Bytecode.Code.{
  Code, constant, null, false, true, load_local_0, load_local_1, load_local_2, load_local_3,
  load_local_4, load_local_5, load_local_6, load_local_7, load_local_8, load_local, store_local,
  load_upvalue, store_upvalue, load_module_var, store_module_var, load_field_this, store_field_this,
  load_field, store_field, pop, jump, loop, jump_if, and, or, close_upvalue, closure, end_module,
}
use wrenegade.Interpreter.{
  Value, function, CallFrame, Running, byte_at, short_at, height, peek, is_falsy,
}
use wrenegade.Interpreter.Moves.{Goes, HasField, Pairs}
use wrenegade.Interpreter.Step.{went, went_on, execute}

abbrev upvalue_number : Option Value → ℕ
upvalue_number (some (function address n)) = n
upvalue_number v = 0

-- `AS_FN(constants[k])->numUpvalues`
abbrev pub upvalue_count : CallFrame → ℕ → ℕ
upvalue_count f k = upvalue_number (get_elem? f.constants k)

-- What an instruction needs: slots, variables, constants and fields that are there, and values of
-- the right kind. The instructions that are left to other parts are not among them.
abbrev pub Fits : CallFrame → Code → Running → Type 0
Fits f constant r = short_at f r < length f.constants
Fits f null r = Unit
Fits f false r = Unit
Fits f true r = Unit
Fits f load_local_0 r = f.stack_start + 0 < height r
Fits f load_local_1 r = f.stack_start + 1 < height r
Fits f load_local_2 r = f.stack_start + 2 < height r
Fits f load_local_3 r = f.stack_start + 3 < height r
Fits f load_local_4 r = f.stack_start + 4 < height r
Fits f load_local_5 r = f.stack_start + 5 < height r
Fits f load_local_6 r = f.stack_start + 6 < height r
Fits f load_local_7 r = f.stack_start + 7 < height r
Fits f load_local_8 r = f.stack_start + 8 < height r
Fits f load_local r = f.stack_start + byte_at f r < height r
Fits f store_local r = f.stack_start + byte_at f r < height r
Fits f load_upvalue r =
    (u : ℕ) × (v : Value) × (get_elem? f.captured (byte_at f r) ≡ some u)
    × (read_through r.vars u ≡ some v)
Fits f store_upvalue r =
    (u : ℕ) × (get_elem? f.captured (byte_at f r) ≡ some u)
    × (u < length r.vars.upvalues)
    × (0 < height r)
Fits f load_module_var r = short_at f r < length r.module_variables
Fits f store_module_var r = (short_at f r < length r.module_variables) × (0 < height r)
Fits f load_field_this r = HasField r (get_elem? r.vars.stack f.stack_start) (byte_at f r)
Fits f store_field_this r =
    HasField r (get_elem? r.vars.stack f.stack_start) (byte_at f r) × (0 < height r)
Fits f load_field r = HasField r (peek r) (byte_at f r) × (0 < height r)
Fits f store_field r = HasField r (peek r) (byte_at f r) × (1 < height r)
Fits f pop r = 0 < height r
Fits f jump r = Unit
Fits f loop r = short_at f r ≤ r.ip + 2
Fits f jump_if r = 0 < height r
Fits f and r = 0 < height r
Fits f or r = 0 < height r
Fits f close_upvalue r = IsValid r.vars × (0 < height r)
Fits f closure r =
    (address : ℕ) × (n : ℕ) × (get_elem? f.constants (short_at f r) ≡ some (function address n))
    × IsValid r.vars
    × Pairs f (r.ip + 2) (suc (height r)) n
Fits f end_module r = Unit
Fits f c r = ⊥

-- The next instruction is the one behind the operands, at the height that the compiler counts with.
pub record Falls (f : CallFrame) (c : Code) (r q : Running) : Type 0 where
  pub next : q.ip ≡ r.ip + arguments (upvalue_count f) c (drop r.ip f.code)
  pub counted : pos (height q) ≡ pos (height r) +ℤ stack_effect c

-- A jump to where the offset leads, with the stack that it leaves.
abbrev pub Jumps : CallFrame → Running → Running → Type 0
Jumps f r q = (q.ip ≡ r.ip + 2 + short_at f r) × (q.vars ≡ r.vars)

abbrev pub JumpsBack : CallFrame → Running → Running → Type 0
JumpsBack f r q = (q.ip + short_at f r ≡ r.ip + 2) × (q.vars ≡ r.vars)

-- The value on the top is tested: a jump on one outcome of the test, what falls through on the other.
abbrev pub Tests : Running → Bool → Type 0 → Type 0 → Type 0
Tests r jumping J P =
    (v : Value) × (peek r ≡ some v)
    × (((is_falsy v ≡ jumping) × J) ⊎ ((is_falsy v ≡ not jumping) × P))

-- What an instruction does, where `P` says that it falls through. The value that JUMP_IF tested is
-- gone, AND and OR keep it for a jump.
abbrev pub Turns : CallFrame → Code → Running → Running → Type 0 → Type 0
Turns f jump r q P = Jumps f r q
Turns f loop r q P = JumpsBack f r q
Turns f jump_if r q P = Tests r Bool.true (Jumps f (drop_top r) q) P
Turns f and r q P = Tests r Bool.true (Jumps f r q) P
Turns f or r q P = Tests r Bool.false (Jumps f r q) P
Turns f c r q P = P

-- An instruction that falls through, and any instruction.
abbrev pub FallsThrough : CallFrame → Code → Running → Type 0
FallsThrough f c r = (q : Running) × (execute f c r ≡ some (went q)) × Falls f c r q

abbrev pub Lands : CallFrame → Code → Running → Type 0
Lands f c r = (q : Running) × (execute f c r ≡ some (went q)) × Turns f c r q (Falls f c r q)

pub up : (n m : ℕ) → m ≡ suc n → pos m ≡ pos n +ℤ pos 1
unfolding ◌+ℤ◌
up n m e = ground (arith, e)

pub level : (n m : ℕ) → m ≡ n → pos m ≡ pos n +ℤ pos 0
unfolding ◌+ℤ◌
level n m e = ground (arith, e)

pub down : (n m : ℕ) → suc m ≡ n → pos m ≡ pos n +ℤ negsuc 0
unfolding ◌+ℤ◌
down n m e = ground (arith, e)

-- An instruction that falls through.
pub falls :
    (f : CallFrame) (c : Code) (r : Running) (o : Option Running) (ip h : ℕ)
    → execute f c r ≡ went_on o
    → Goes o ip h
    → ip ≡ r.ip + arguments (upvalue_count f) c (drop r.ip f.code)
    → pos h ≡ pos (height r) +ℤ stack_effect c
    → FallsThrough f c r
falls f c r o ip h e (q, run, i, t) n k =
    (q, e ∙ ap went_on run, record { next = i ∙ n; counted = ap pos t ∙ k })
