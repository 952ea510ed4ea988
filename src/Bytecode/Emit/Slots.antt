-- ===== src/Bytecode/Emit/Slots.antt =====
-- The stack high water mark, and the line table, over any sequence of calls that write bytecode.
use wrenegade.Base.{
  ℕ, ◌≡◌, refl, List, [], ◌∷◌, ◌++◌, length, length-append, length-set, arith, if◌then◌else◌,
}
use wrenegade.Base.Int.{ℤ, ◌+ℤ◌, ◌≤ℤ◌, ltb_ℤ}
use wrenegade.Bytecode.Code.{Code, stack_effect}
use wrenegade.Bytecode.Emit.{
  Compiler, emit_byte, emit_op, emit_short, emit_byte_arg, emit_short_arg, emit_jump, patch_jump,
}

-- The calls by which the compiler writes bytecode.
pub data Emission : Type 0 where
  byte : ℕ → Emission
  op : Code → Emission
  short : ℕ → Emission
  byte_arg short_arg : Code → ℕ → Emission
  jump : Code → Emission
  patch : ℕ → Emission

unfoldable pub emit : Compiler → Emission → Compiler
unfolding emit_byte emit_op emit_short emit_byte_arg emit_short_arg emit_jump patch_jump
emit c (byte b) = emit_byte c b
emit c (op i) = emit_op c i
emit c (short a) = emit_short c a
emit c (byte_arg i a) = emit_byte_arg c i a
emit c (short_arg i a) = emit_short_arg c i a
emit c (jump i) = (emit_jump c i).0
emit c (patch offset) = patch_jump c offset

unfoldable pub emit_all : Compiler → List Emission → Compiler
unfolding emit
emit_all c [] = c
emit_all c (e ∷ es) = emit_all (emit c e) es

-- Every byte of the code has a source line, and the slots in use never pass `maxSlots`.
pub record IsValid (c : Compiler) : Type 0 where
  pub lined : length c.code ≡ length c.source_lines
  pub within : c.num_slots ≤ℤ c.max_slots

high_water : (a b : ℤ) → b ≤ℤ (if ltb_ℤ a b then b else a)
high_water a b = ground arith

mark_grows : (a b : ℤ) → a ≤ℤ (if ltb_ℤ a b then b else a)
mark_grows a b = ground arith

emit-IsValid : (c : Compiler) (e : Emission) → IsValid c → IsValid (emit c e)
unfolding emit
emit-IsValid c (byte b) v = record { lined = simp length-append (omega arith); within = v.within }
emit-IsValid c (op i) v = record {
  lined = simp length-append (omega arith);
  within = high_water c.max_slots (c.num_slots +ℤ stack_effect i);
}
emit-IsValid c (short a) v = record { lined = simp length-append (omega arith); within = v.within }
emit-IsValid c (byte_arg i a) v = record {
  lined = simp length-append (omega arith);
  within = high_water c.max_slots (c.num_slots +ℤ stack_effect i);
}
emit-IsValid c (short_arg i a) v = record {
  lined = simp length-append (omega arith);
  within = high_water c.max_slots (c.num_slots +ℤ stack_effect i);
}
emit-IsValid c (jump i) v = record {
  lined = simp length-append (omega arith);
  within = high_water c.max_slots (c.num_slots +ℤ stack_effect i);
}
emit-IsValid c (patch offset) v = record { lined = simp length-set v.lined; within = v.within }

emit_mark : (c : Compiler) (e : Emission) → c.max_slots ≤ℤ (emit c e).max_slots
unfolding emit
emit_mark c (byte b) = omega arith
emit_mark c (op i) = mark_grows c.max_slots (c.num_slots +ℤ stack_effect i)
emit_mark c (short a) = omega arith
emit_mark c (byte_arg i a) = mark_grows c.max_slots (c.num_slots +ℤ stack_effect i)
emit_mark c (short_arg i a) = mark_grows c.max_slots (c.num_slots +ℤ stack_effect i)
emit_mark c (jump i) = mark_grows c.max_slots (c.num_slots +ℤ stack_effect i)
emit_mark c (patch offset) = omega arith

-- Any sequence of the calls that write bytecode keeps the code and the table of source lines at
-- one length, and the slots in use within the maximum, if they were so before.
pub emit_all-IsValid : (c : Compiler) (es : List Emission) → IsValid c → IsValid (emit_all c es)
unfolding emit_all
emit_all-IsValid c [] v = v
emit_all-IsValid c (e ∷ es) v = emit_all-IsValid (emit c e) es (emit-IsValid c e v)

emit_all_mark : (c : Compiler) (es : List Emission) → c.max_slots ≤ℤ (emit_all c es).max_slots
unfolding emit_all
emit_all_mark c [] = omega arith
emit_all_mark c (e ∷ es) = omega (arith, emit_mark c e, emit_all_mark (emit c e) es)

emit_all-append :
    (c : Compiler) (es fs : List Emission) → emit_all c (es ++ fs) ≡ emit_all (emit_all c es) fs
unfolding emit_all
emit_all-append c [] fs = refl
emit_all-append c (e ∷ es) fs = emit_all-append (emit c e) es fs

-- From a compiler whose slots in use are within its maximum, the maximum after any sequence of
-- the calls that write bytecode bounds the slots in use after every part of the sequence from
-- its start.
pub emit_all-high_water :
    (c : Compiler) (es fs : List Emission)
    → IsValid c
    → (emit_all c es).num_slots ≤ℤ (emit_all c (es ++ fs)).max_slots
emit_all-high_water c es fs v =
    rw (emit_all-append c es fs)
      (omega (arith, (emit_all-IsValid c es v).within, emit_all_mark (emit_all c es) fs))
