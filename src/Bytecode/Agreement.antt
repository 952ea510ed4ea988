-- ===== src/Bytecode/Agreement.antt =====
-- The two readers of operands against each other: `getNumArguments` and `dumpInstruction`.
use wrenegade.Base.{
  ℕ, zero, suc, ◌+◌, ◌*◌, ◌≡◌, ◌≢◌, refl, ap, some, List, [], ◌∷◌, get_or, drop, arith,
}
use native.Mathlib.Nat.{zero-add, add-zero, suc-add}
use wrenegade.Bytecode.Code.{Code, closure, import_variable, end, of_byte}
use wrenegade.Bytecode.Operands.{arguments, get_num_arguments}
use wrenegade.Bytecode.Dump.{dump_length, dump_instruction, read_pairs}

pub get_or-drop : (xs : List ℕ) (n i : ℕ) → get_or (drop n xs) i 0 ≡ get_or xs (n + i) 0
get_or-drop xs zero i = rw zero-add
get_or-drop [] (suc n) i = refl
get_or-drop (x ∷ xs) (suc n) i = rw suc-add (get_or-drop xs n i)

read_pairs-add : (n i : ℕ) → read_pairs n i ≡ i + n * 2
unfolding read_pairs
read_pairs-add zero i = omega arith
read_pairs-add (suc n) i = omega (arith, read_pairs-add n (i + 1 + 1))

module _ (upvalues : ℕ → ℕ) (bytecode : List ℕ) (ip : ℕ) where
  operands_agree :
      (c : Code)
      → c ≢ import_variable
      → c ≢ end
      → dump_length upvalues c bytecode ip
        ≡ some (1 + arguments upvalues c (drop (ip + 1) bytecode))
  unfolding dump_length arguments
  operands_agree import_variable h k = absurd (h refl)
  operands_agree end h k = absurd (k refl)
  operands_agree closure h k =
      rw
        (get_or-drop bytecode (ip + 1) 0, get_or-drop bytecode (ip + 1) 1, add-zero, read_pairs-add)
        (ap some (omega arith))
  operands_agree _ h k = ap some (omega arith)

  -- For every instruction but END and IMPORT_VARIABLE, whatever its operands and the closures in
  -- the constant table, the count of operand bytes by the compiler is one less than the length
  -- by which the disassembler steps on.
  pub dump_instruction-get_num_arguments :
      (c : Code)
      → of_byte (get_or bytecode ip 0) ≡ some c
      → c ≢ import_variable
      → c ≢ end
      → (n : ℕ) × (get_num_arguments upvalues bytecode ip ≡ some n)
        × (dump_instruction upvalues bytecode ip ≡ some (1 + n))
  unfolding dump_instruction get_num_arguments
  dump_instruction-get_num_arguments c e h k = (
    arguments upvalues c (drop (ip + 1) bytecode),
    rw (e, get_num_arguments),
    rw (e, dump_instruction) (operands_agree c h k),
  )
