-- ===== src/Bytecode/Emit/Jumps.antt =====
-- Jumps: the distance that `patchJump` writes, as the interpreter reads it.
use wrenegade.Base.{
  ℕ, zero, suc, ◌+◌, ◌-◌, ◌*◌, ◌/◌, ◌%◌, ◌^◌, ◌≤◌, ◌<◌, ◌≢◌, bit_and, bit_or, ◌≡◌, refl, true, List,
  [], ◌∷◌, length, get_or, set, length-set, arith, ltb, if◌then◌else◌,
}
use wrenegade.Base.Bits.{bit_and_255, bit_or_disjoint}
use wrenegade.Bytecode.Emit.{Compiler, patch_jump, read_short_at}

get_or-set_self : (xs : List ℕ) (i v : ℕ) → i < length xs → get_or (set xs i v) i 0 ≡ v
get_or-set_self [] i v h = absurd (omega arith)
get_or-set_self (x ∷ xs) zero v h = refl
get_or-set_self (x ∷ xs) (suc i) v h = get_or-set_self xs i v (omega arith)

get_or-set_ne : (xs : List ℕ) (i j v : ℕ) → i ≢ j → get_or (set xs i v) j 0 ≡ get_or xs j 0
get_or-set_ne [] i j v h = refl
get_or-set_ne (x ∷ xs) zero zero v h = absurd (h refl)
get_or-set_ne (x ∷ xs) zero (suc j) v h = refl
get_or-set_ne (x ∷ xs) (suc i) zero v h = refl
get_or-set_ne (x ∷ xs) (suc i) (suc j) v h = get_or-set_ne xs i j v (omega arith)

-- The two bytes of a number, read back: the number modulo 2 ^ 16.
pub read_short-bytes :
    (n : ℕ) → bit_or (bit_and (n / 2 ^ 8) 0xff * 2 ^ 8) (bit_and n 0xff) ≡ n % 2 ^ 16
read_short-bytes n =
    let hi = bit_and_255 (n / 2 ^ 8) in
    let lo = bit_and_255 n in
    rw (lo, bit_or_disjoint 8 (bit_and (n / 2 ^ 8) 255) (n % 256) (omega arith)) (omega (arith, hi))

-- After a jump placeholder in the code is patched, the short that the interpreter reads there is
-- the distance from behind it to the end of the code modulo 2 ^ 16, the code keeps its length,
-- and an error is noted exactly when the distance is above 2 ^ 16 (or one was noted before).
pub read_short_at-patch_jump :
    (c : Compiler) (offset : ℕ)
    → offset + 2 ≤ length c.code
    → (read_short_at (patch_jump c offset).code offset ≡ (length c.code - (offset + 2)) % 2 ^ 16)
      × (length (patch_jump c offset).code ≡ length c.code)
      × ((patch_jump c offset).has_error
          ≡ (if ltb (2 ^ 16) (length c.code - (offset + 2)) then true else c.has_error))
unfolding read_short_at patch_jump
read_short_at-patch_jump c offset h =
    let jump = length c.code - offset - 2 in
    let hi = bit_and (jump / 2 ^ 8) 255 in
    let lo = bit_and jump 255 in
    let first = set c.code offset hi in
    let e : jump ≡ length c.code - (offset + 2) = omega arith in
    (
      rw (
        get_or-set_self first (offset + 1) lo (rw length-set (omega arith)),
        get_or-set_ne first (offset + 1) offset lo (omega arith),
        get_or-set_self c.code offset hi (omega arith),
        read_short-bytes jump,
        e,
      ),
      simp length-set,
      rw e,
    )
