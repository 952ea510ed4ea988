-- ===== src/Bytecode/Loops/Breaks.antt =====
-- What the scan of `endLoop` does to the body of a loop.
use wrenegade.Base.{
  ℕ, zero, suc, ◌+◌, ◌-◌, ◌/◌, ◌%◌, ◌^◌, ◌<◌, ◌≡◌, refl, ◌∙◌, inl, inr, bit_and, true, false, some,
  List, [], ◌∷◌, ◌++◌, append-nil, append_assoc, length, length-append, get_or, arith, ltb, ◌==◌,
  if◌then◌else◌,
}
use wrenegade.Base.Bits.{bit_and_255}
use wrenegade.Bytecode.Code.{end, jump, to_byte}
use wrenegade.Bytecode.Operands.{get_num_arguments}
use wrenegade.Bytecode.Emit.{Compiler, patch_jump}
use wrenegade.Bytecode.Loops.{resolve_break, resolve_breaks}
use wrenegade.Bytecode.Loops.Layout.{
  Instruction, bytes, assemble, IsCounted, IsBreak, IsBody, get_or-here, set-here, set-append,
  to_byte-end, get_num_arguments-assemble,
}

-- A jump over the next `n` bytes of code, as `endLoop` should leave it.
abbrev pub jump_over : ℕ → Instruction
jump_over n = record { op = jump; operands = n / 2 ^ 8 ∷ n % 2 ^ 8 ∷ [] }

-- The body with every placeholder a jump over all that follows it.
unfoldable pub resolve : List Instruction → List Instruction
resolve [] = []
resolve (x ∷ xs) =
    (if to_byte x.op == to_byte end then jump_over (length (assemble xs)) else x) ∷ resolve xs

abbrev with_code : Compiler → List ℕ → Compiler
with_code c code = record c { code = code }

not_far : (n : ℕ) → n < 2 ^ 16 → ltb (2 ^ 16) n ≡ false
not_far n h = ground arith

patch_jump-at :
    (c : Compiler) (before : List ℕ) (p a b : ℕ) (rest : List ℕ)
    → length rest < 2 ^ 16
    → patch_jump (with_code c (before ++ (p ∷ a ∷ b ∷ rest))) (length before + 1)
      ≡ with_code c (before ++ (p ∷ length rest / 2 ^ 8 ∷ length rest % 2 ^ 8 ∷ rest))
unfolding patch_jump
patch_jump-at c before p a b rest h =
    let n = length rest in
    let distance : length (before ++ (p ∷ a ∷ b ∷ rest)) - (length before + 1) - 2 ≡ n =
      rw length-append (omega arith) in
    let high : bit_and (n / 2 ^ 8) 255 ≡ n / 2 ^ 8 = bit_and_255 (n / 2 ^ 8) ∙ omega arith in
    let next : length before + 1 + 1 ≡ length before + 2 = omega arith in
    rw (distance, high, bit_and_255 n, next, set-append before (p ∷ a ∷ b ∷ rest) 1 (n / 2 ^ 8))
      (rw (set-append before (p ∷ n / 2 ^ 8 ∷ b ∷ rest) 2 (n % 2 ^ 8), not_far n h) refl)

-- One placeholder, anywhere in the code.
resolve_break_lem :
    (c : Compiler) (before : List ℕ) (p a b : ℕ) (rest : List ℕ)
    → length rest < 2 ^ 16
    → resolve_break (with_code c (before ++ (p ∷ a ∷ b ∷ rest))) (length before)
      ≡ with_code c (before ++ (bytes (jump_over (length rest)) ++ rest))
unfolding resolve_break
resolve_break_lem c before p a b rest h =
    rw (set-here before p (a ∷ b ∷ rest) (to_byte jump))
      (patch_jump-at c before (to_byte jump) a b rest h)

-- One round of the scan, by what it meets.
module _ (fuel : ℕ) (upvalues : ℕ → ℕ) (c : Compiler) (i : ℕ) where
  scan_done : ltb i (length c.code) ≡ false → resolve_breaks (suc fuel) upvalues c i ≡ some c
  unfolding resolve_breaks
  scan_done e = rw (e, resolve_breaks)

  scan_break :
      ltb i (length c.code) ≡ true
      → (get_or c.code i 0 == to_byte end) ≡ true
      → resolve_breaks (suc fuel) upvalues c i
        ≡ resolve_breaks fuel upvalues (resolve_break c i) (i + 3)
  unfolding resolve_breaks
  scan_break e p = rw (e, p, resolve_breaks)

  scan_skip :
      ltb i (length c.code) ≡ true
      → (get_or c.code i 0 == to_byte end) ≡ false
      → (n : ℕ) → get_num_arguments upvalues c.code i ≡ some n
      → resolve_breaks (suc fuel) upvalues c i ≡ resolve_breaks fuel upvalues c (i + (1 + n))
  unfolding resolve_breaks
  scan_skip e p n q = rw (e, p, q, resolve_breaks)

abbrev IsResolved : ℕ → (ℕ → ℕ) → Compiler → List ℕ → List Instruction → Type 0
IsResolved fuel upvalues c before xs =
    resolve_breaks fuel upvalues (with_code c (before ++ assemble xs)) (length before)
    ≡ some (with_code c (before ++ assemble (resolve xs)))

inside :
    (before : List ℕ) (b : ℕ) (bs : List ℕ)
    → ltb (length before) (length (before ++ (b ∷ bs))) ≡ true
inside before b bs = rw length-append (ground arith)

-- The scan behind an instruction `ys`, from the code before it.
behind :
    (fuel : ℕ) (upvalues : ℕ → ℕ) (c : Compiler) (before ys : List ℕ) (xs : List Instruction)
    → IsResolved fuel upvalues c (before ++ ys) xs
    → resolve_breaks fuel upvalues
        (with_code c (before ++ (ys ++ assemble xs)))
        (length before + length ys)
      ≡ some (with_code c (before ++ (ys ++ assemble (resolve xs))))
behind fuel upvalues c before ys xs ih =
    rw
      (
        ← append_assoc before ys (assemble xs),
        ← append_assoc before ys (assemble (resolve xs)),
        ← length-append before ys,
      )
      ih

module _ (fuel : ℕ) (upvalues : ℕ → ℕ) (c : Compiler) (before : List ℕ) where
  resolve_breaks_nil : IsResolved (suc fuel) upvalues c before []
  unfolding resolve
  resolve_breaks_nil =
      scan_done fuel upvalues (with_code c (before ++ [])) (length before)
        (rw append-nil (ground arith))

  module _ (x : Instruction) (xs : List Instruction) where
    resolve_breaks_skip :
        IsCounted upvalues x
        → IsResolved fuel upvalues c (before ++ bytes x) xs
        → IsResolved (suc fuel) upvalues c before (x ∷ xs)
    unfolding resolve
    resolve_breaks_skip h ih =
        let op = to_byte-end x.op h.not_end in
        let step =
          scan_skip fuel upvalues (with_code c (before ++ assemble (x ∷ xs))) (length before)
            (inside before (to_byte x.op) (x.operands ++ assemble xs))
            (rw (get_or-here before (to_byte x.op) (x.operands ++ assemble xs) 0) op)
            (length x.operands) (get_num_arguments-assemble upvalues before x (assemble xs) h) in
        let next : length before + (1 + length x.operands) ≡ length before + length (bytes x) =
          omega arith in
        rw op (step ∙ rw next (behind fuel upvalues c before (bytes x) xs ih))

    resolve_breaks_jump :
        (p a b : ℕ)
        → (p == to_byte end) ≡ true
        → length (assemble xs) < 2 ^ 16
        → IsResolved fuel upvalues c (before ++ bytes (jump_over (length (assemble xs)))) xs
        → resolve_breaks
            (suc fuel)
            upvalues
            (with_code c (before ++ (p ∷ a ∷ b ∷ assemble xs)))
            (length before)
          ≡ some (
              with_code c
                (before ++ (bytes (jump_over (length (assemble xs))) ++ assemble (resolve xs))))
    resolve_breaks_jump p a b op n ih =
        let jumped = jump_over (length (assemble xs)) in
        scan_break fuel upvalues (with_code c (before ++ (p ∷ a ∷ b ∷ assemble xs))) (length before)
          (inside before p (a ∷ b ∷ assemble xs))
          (rw (get_or-here before p (a ∷ b ∷ assemble xs) 0) op)
        ∙ rw (resolve_break_lem c before p a b (assemble xs) n)
            (behind fuel upvalues c before (bytes jumped) xs ih)

two_operands : (l : List ℕ) → length l ≡ 2 → (a : ℕ) × (b : ℕ) × (l ≡ a ∷ b ∷ [])
two_operands [] h = absurd (omega arith)
two_operands (a ∷ []) h = absurd (omega arith)
two_operands (a ∷ b ∷ []) h = (a, b, refl)
two_operands (a ∷ b ∷ d ∷ l) h = absurd (omega arith)

-- A break at the head of the body, its operands spelled out.
resolve_breaks_head :
    (fuel : ℕ) (upvalues : ℕ → ℕ) (c : Compiler) (before : List ℕ) (x : Instruction)
    (xs : List Instruction)
    → IsBreak x
    → length (assemble xs) < 2 ^ 16
    → IsResolved fuel upvalues c (before ++ bytes (jump_over (length (assemble xs)))) xs
    → IsResolved (suc fuel) upvalues c before (x ∷ xs)
unfolding resolve
resolve_breaks_head fuel upvalues c before x xs h n ih =
    let (a, b, e) = two_operands x.operands h.two in
    let op : (to_byte x.op == to_byte end) ≡ true = rw h.is_end (ground arith) in
    rw (op, e) (resolve_breaks_jump fuel upvalues c before x xs (to_byte x.op) a b op n ih)

-- The scan at the end of a loop goes over any body of instructions with the operands that the
-- compiler counts and of break placeholders, short of 2 ^ 16 bytes, without a fault, given a
-- round of fuel more than there are bytes, and changes nothing but the placeholders, each of
-- which becomes a jump over exactly the bytes that follow it.
pub resolve_breaks-resolve :
    (xs : List Instruction) (fuel : ℕ) (upvalues : ℕ → ℕ) (c : Compiler) (before : List ℕ)
    → length (assemble xs) < fuel
    → length (assemble xs) < 2 ^ 16
    → IsBody upvalues xs
    → resolve_breaks fuel upvalues (record c { code = before ++ assemble xs }) (length before)
      ≡ some (record c { code = before ++ assemble (resolve xs) })
resolve_breaks-resolve xs zero upvalues c before f n h = absurd (omega arith)
resolve_breaks-resolve [] (suc fuel) upvalues c before f n h =
    resolve_breaks_nil fuel upvalues c before
resolve_breaks-resolve (x ∷ xs) (suc fuel) upvalues c before f n h =
    let size = length-append x.operands (assemble xs) in
    let ih = λ (before' : List ℕ).
      resolve_breaks-resolve xs fuel upvalues c before' (omega (arith, size)) (omega (arith, size))
        h.1 in
    elim h.0 [
      | inl counted ↦ resolve_breaks_skip fuel upvalues c before x xs counted (ih _)
      | inr break ↦
          resolve_breaks_head fuel upvalues c before x xs break (omega (arith, size)) (ih _)
    ]
