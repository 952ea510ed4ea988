-- ===== src/Bytecode/Loops/Layout.antt =====
-- A piece of bytecode as a list of instructions with their operands.
use wrenegade.Base.{
  ℕ, zero, suc, ◌+◌, ◌<◌, ◌≡◌, ◌≢◌, refl, ap, sym, ◌∙◌, ◌⊎◌, false, some, List, [], ◌∷◌, ◌++◌,
  length, get_or, set, drop, All, arith, ◌==◌,
}
use native.Mathlib.Nat.{zero-add, suc-add}
use wrenegade.Bytecode.Code.{Code, closure, end, to_byte, of_byte, of_byte-to_byte}
use wrenegade.Bytecode.Operands.{arguments, get_num_arguments}

pub record Instruction : Type 0 where
  pub op : Code
  pub operands : List ℕ

abbrev pub bytes : Instruction → List ℕ
bytes x = to_byte x.op ∷ x.operands

abbrev pub assemble : List Instruction → List ℕ
assemble [] = []
assemble (x ∷ xs) = bytes x ++ assemble xs

-- The operands are as many as `getNumArguments` counts.
pub record IsCounted (upvalues : ℕ → ℕ) (x : Instruction) : Type 0 where
  pub not_end : x.op ≢ end
  pub counted : length x.operands ≡ arguments upvalues x.op x.operands

-- The placeholder of a `break`: an END with two bytes.
pub record IsBreak (x : Instruction) : Type 0 where
  pub is_end : x.op ≡ end
  pub two : length x.operands ≡ 2

-- What stands in the body of a loop.
abbrev pub IsBody : (ℕ → ℕ) → List Instruction → Type 0
IsBody upvalues = All (λ x. IsCounted upvalues x ⊎ IsBreak x)

module _ {ℓ} {A : Type ℓ} where
  pub get_or-append :
      (xs ys : List A) (i : ℕ) (d : A) → get_or (xs ++ ys) (length xs + i) d ≡ get_or ys i d
  get_or-append [] ys i d = rw zero-add
  get_or-append (x ∷ xs) ys i d = rw suc-add (get_or-append xs ys i d)

  pub set-append :
      (xs ys : List A) (i : ℕ) (v : A) → set (xs ++ ys) (length xs + i) v ≡ xs ++ set ys i v
  set-append [] ys i v = rw zero-add
  set-append (x ∷ xs) ys i v = rw suc-add (ap (◌∷◌ x) (set-append xs ys i v))

  pub drop-append : (xs ys : List A) (i : ℕ) → drop (length xs + i) (xs ++ ys) ≡ drop i ys
  drop-append [] ys i = rw zero-add
  drop-append (x ∷ xs) ys i = rw suc-add (drop-append xs ys i)

  pub get_or-here :
      (xs : List A) (y : A) (ys : List A) (d : A) → get_or (xs ++ (y ∷ ys)) (length xs) d ≡ y
  get_or-here [] y ys d = refl
  get_or-here (x ∷ xs) y ys d = get_or-here xs y ys d

  pub set-here :
      (xs : List A) (y : A) (ys : List A) (v : A)
      → set (xs ++ (y ∷ ys)) (length xs) v ≡ xs ++ (v ∷ ys)
  set-here [] y ys v = refl
  set-here (x ∷ xs) y ys v = ap (◌∷◌ x) (set-here xs y ys v)

  get_or-append_left :
      (xs ys : List A) (i : ℕ) (d : A) → i < length xs → get_or (xs ++ ys) i d ≡ get_or xs i d
  get_or-append_left [] ys i d h = absurd (omega arith)
  get_or-append_left (x ∷ xs) ys zero d h = refl
  get_or-append_left (x ∷ xs) ys (suc i) d h = get_or-append_left xs ys i d (omega arith)

-- An operand count depends on no byte behind the operands.
arguments-append :
    (upvalues : ℕ → ℕ) (c : Code) (xs ys : List ℕ)
    → length xs ≡ arguments upvalues c xs
    → arguments upvalues c (xs ++ ys) ≡ arguments upvalues c xs
unfolding arguments
arguments-append upvalues closure xs ys h =
    rw (get_or-append_left xs ys 0 0 (omega arith), get_or-append_left xs ys 1 0 (omega arith))
arguments-append upvalues _ xs ys h = refl

pub to_byte-end : (c : Code) → c ≢ end → (to_byte c == to_byte end) ≡ false
to_byte-end c h = ground (arith, same)
  where
    same : to_byte c ≢ to_byte end
    same e =
        let p : some c ≡ some end = sym (of_byte-to_byte c) ∙ ap of_byte e ∙ of_byte-to_byte end in
        h (cc p)

-- The count at an instruction of an assembled piece.
pub get_num_arguments-assemble :
    (upvalues : ℕ → ℕ) (before : List ℕ) (x : Instruction) (rest : List ℕ)
    → IsCounted upvalues x
    → get_num_arguments upvalues (before ++ (bytes x ++ rest)) (length before)
      ≡ some (length x.operands)
unfolding get_num_arguments
get_num_arguments-assemble upvalues before x rest h =
    rw
      (get_or-here before (to_byte x.op) (x.operands ++ rest) 0, get_num_arguments, of_byte-to_byte)
      (rw (drop-append before (bytes x ++ rest) 1)
        (ap some (arguments-append upvalues x.op x.operands rest h.counted ∙ sym h.counted)))
