-- ===== src/Interpreter/Runs.antt =====
-- Instructions that run one after the other, and the stack that the compiler reckons with.
use wrenegade.Base.{
  ℕ, zero, suc, ◌+◌, ◌≡◌, refl, ◌∙◌, inl, inr, arith, some, List, [], ◌∷◌, get_elem?, get_or, drop,
}
use mathlib.Core.Option
use wrenegade.Base.Int.{ℤ, pos, ◌+ℤ◌}
use wrenegade.Bytecode.Code.{
  jump, loop, jump_if, and, or, Code, to_byte, of_byte-to_byte, stack_effect,
}
use wrenegade.Bytecode.Operands.{arguments, get_num_arguments}
use wrenegade.Bytecode.Emit.Slots.{Emission, byte, op, short, byte_arg, short_arg, patch}
use wrenegade.Interpreter.{Value, CallFrame, Running, height, skip, peek, is_falsy}
use wrenegade.Interpreter.Step.{went, execute, dispatch}
use wrenegade.Interpreter.Effects.{upvalue_count, Fits, Falls, Turns}
use wrenegade.Base.{Bool}
use wrenegade.Interpreter.Agreement.{execute-Lands}

-- The next instruction is the one that the compiler's count leads to, at its height.
pub record Follows (f : CallFrame) (c : Code) (r q : Running) : Type 0 where
  pub operands : ℕ
  pub counted : get_num_arguments (upvalue_count f) f.code r.ip ≡ some operands
  pub next : q.ip ≡ r.ip + (1 + operands)
  pub effect : pos (height q) ≡ pos (height r) +ℤ stack_effect c

get_or-elem : (xs : List ℕ) (i a : ℕ) → get_elem? xs i ≡ some a → get_or xs i 0 ≡ a
get_or-elem [] i a e = absurd (cc e)
get_or-elem (x ∷ xs) zero a e = cc e
get_or-elem (x ∷ xs) (suc i) a e = get_or-elem xs i a e

dispatch-execute :
    (f : CallFrame) (c : Code) (r : Running)
    → get_elem? f.code r.ip ≡ some (to_byte c)
    → dispatch f r ≡ execute f c (skip 1 r)
unfolding dispatch Option.bind
dispatch-execute f c r e = rw (dispatch, e, of_byte-to_byte c) refl

counted-arguments :
    (f : CallFrame) (c : Code) (r : Running)
    → get_elem? f.code r.ip ≡ some (to_byte c)
    → get_num_arguments (upvalue_count f) f.code r.ip
      ≡ some (arguments (upvalue_count f) c (drop (r.ip + 1) f.code))
unfolding get_num_arguments
counted-arguments f c r e =
    rw (get_num_arguments, get_or-elem f.code r.ip (to_byte c) e, of_byte-to_byte c) refl

followed :
    (f : CallFrame) (c : Code) (r q : Running)
    → get_elem? f.code r.ip ≡ some (to_byte c)
    → Falls f c (skip 1 r) q
    → Follows f c r q
followed f c r q e k = record {
  operands = arguments (upvalue_count f) c (drop (r.ip + 1) f.code);
  counted = counted-arguments f c r e;
  next = omega (arith, k.next);
  effect = k.counted;
}

Turns-map :
    {P Q : Type 0} (f : CallFrame) (c : Code) (r q : Running)
    → (P → Q)
    → Turns f c r q P
    → Turns f c r q Q
Turns-map f jump_if r q g (v, e, inl t) = (v, e, inl t)
Turns-map f jump_if r q g (v, e, inr (t, p)) = (v, e, inr (t, g p))
Turns-map f and r q g (v, e, inl t) = (v, e, inl t)
Turns-map f and r q g (v, e, inr (t, p)) = (v, e, inr (t, g p))
Turns-map f or r q g (v, e, inl t) = (v, e, inl t)
Turns-map f or r q g (v, e, inr (t, p)) = (v, e, inr (t, g p))
Turns-map f jump r q g t = t
Turns-map f loop r q g t = t
Turns-map f c r q g t = g t

-- For an instruction that neither calls nor returns, nor makes or changes an object of a class,
-- nor imports, whose number is at the instruction pointer and whose operands name what is there,
-- of the right kind: the interpreter executes it. JUMP and LOOP jump by their offset and leave
-- the stack as it is. JUMP_IF and AND jump exactly if the top of the stack is false or null, and
-- OR exactly if it is another value; a jump of JUMP_IF drops that value, one of AND or OR leaves
-- the stack as it is. All other cases go on behind as many operands as getNumArguments counts,
-- with the height of the stack changed by the entry of stackEffects
pub dispatch-Follows :
    (f : CallFrame) (c : Code) (r : Running)
    → get_elem? f.code r.ip ≡ some (to_byte c)
    → Fits f c (skip 1 r)
    → (q : Running) × (dispatch f r ≡ some (went q)) × Turns f c (skip 1 r) q (Follows f c r q)
dispatch-Follows f c r e l =
    let (q, run, lands) = execute-Lands f c (skip 1 r) l in
    (q, dispatch-execute f c r e ∙ run, Turns-map f c (skip 1 r) q (followed f c r q e) lands)

-- What makes an instruction fall through.
abbrev pub Passes : Code → Running → Type 0
Passes jump r = ⊥
Passes loop r = ⊥
Passes jump_if r = (v : Value) × (peek r ≡ some v) × (is_falsy v ≡ Bool.false)
Passes and r = (v : Value) × (peek r ≡ some v) × (is_falsy v ≡ Bool.false)
Passes or r = (v : Value) × (peek r ≡ some v) × (is_falsy v ≡ Bool.true)
Passes c r = Unit

-- Instructions that run one after the other, with no jump.
pub data Runs (f : CallFrame) : Running → List Code → Running → Type 0 where
  finished : (r : Running) → Runs f r [] r
  ran :
      (c : Code) (cs : List Code) (r q s : Running)
      → get_elem? f.code r.ip ≡ some (to_byte c)
      → Fits f c (skip 1 r)
      → dispatch f r ≡ some (went q)
      → Passes c (skip 1 r)
      → Runs f q cs s
      → Runs f r (c ∷ cs) s

abbrev total_effect : List Code → ℤ
total_effect [] = pos 0
total_effect (c ∷ cs) = stack_effect c +ℤ total_effect cs

-- The instructions among the calls that write bytecode. Operands of CLOSURE, and the instructions
-- that `discardLocals` writes without counting them, go through `emitByte`.
abbrev pub instructions : List Emission → List Code
instructions [] = []
instructions (byte b ∷ es) = instructions es
instructions (op c ∷ es) = c ∷ instructions es
instructions (short a ∷ es) = instructions es
instructions (byte_arg c a ∷ es) = c ∷ instructions es
instructions (short_arg c a ∷ es) = c ∷ instructions es
instructions (Emission.jump c ∷ es) = c ∷ instructions es
instructions (patch offset ∷ es) = instructions es

-- Calls of `emitOp`, `emitByteArg`, `emitShortArg`, `emitJump` and `patchJump` only.
abbrev pub IsCounted : List Emission → Type 0
IsCounted [] = Unit
IsCounted (byte b ∷ es) = ⊥
IsCounted (short a ∷ es) = ⊥
IsCounted (op c ∷ es) = IsCounted es
IsCounted (byte_arg c a ∷ es) = IsCounted es
IsCounted (short_arg c a ∷ es) = IsCounted es
IsCounted (Emission.jump c ∷ es) = IsCounted es
IsCounted (patch offset ∷ es) = IsCounted es
