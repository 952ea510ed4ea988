-- ===== src/Buffers/Ceil.antt =====
-- `wrenPowerOf2Ceil` gives room, and no more than its largest power of two.
use wrenegade.Base.{ℕ, zero, suc, ◌-◌, ◌*◌, ◌/◌, ◌^◌, ◌≤◌, ◌<◌, ◌≡◌, arith, bit_or, ◌==◌, false}
use wrenegade.Base.Bits.{bit_or_digit, halving}
use wrenegade.Buffers.{or_shifted, power_of_2_ceil}

bit_or-above : (a b : ℕ) → a ≤ bit_or a b
bit_or-above =
    halving (λ a. (b : ℕ) → a ≤ bit_or a b) (λ b. omega arith)
      (λ a h b. omega (arith, h (b / 2), bit_or_digit (suc a) b))

bit_or-below : (k a b : ℕ) → a < 2 ^ k → b < 2 ^ k → bit_or a b < 2 ^ k
bit_or-below zero a b h g =
    let p : a ≡ 0 = omega arith in let q : b ≡ 0 = omega arith in rw (p, q) (omega arith)
bit_or-below (suc k) a b h g =
    let r : 2 ^ suc k ≡ 2 ^ k * 2 = omega arith in
    omega (
      arith,
      r,
      bit_or_digit a b,
      bit_or-below k (a / 2) (b / 2) (omega (arith, r)) (omega (arith, r)),
    )

or_shifted-above : (k n : ℕ) → n ≤ or_shifted k n
or_shifted-above k n = bit_or-above n (n / 2 ^ k)

quotient_below : (n m : ℕ) → n / m ≤ n
quotient_below n zero = omega arith
quotient_below n (suc m) = omega arith

shifted-below : (k bits n : ℕ) → n < 2 ^ bits → n / 2 ^ k < 2 ^ bits
shifted-below k bits n h = omega (arith, quotient_below n (2 ^ k))

or_shifted-below : (k bits n : ℕ) → n < 2 ^ bits → or_shifted k n < 2 ^ bits
or_shifted-below k bits n h = bit_or-below bits n (n / 2 ^ k) h (shifted-below k bits n h)

smear-above :
    (n : ℕ) → n ≤ or_shifted 16 (or_shifted 8 (or_shifted 4 (or_shifted 2 (or_shifted 1 n))))
smear-above n =
    let a = or_shifted-above 1 n in
    let b = or_shifted-above 2 (or_shifted 1 n) in
    let c = or_shifted-above 4 (or_shifted 2 (or_shifted 1 n)) in
    let d = or_shifted-above 8 (or_shifted 4 (or_shifted 2 (or_shifted 1 n))) in
    let e = or_shifted-above 16 (or_shifted 8 (or_shifted 4 (or_shifted 2 (or_shifted 1 n)))) in
    omega (arith, a, b, c, d, e)

-- The capacity computed for a count from 1 to 2 ^ 30 is at least that count and at most 2 ^ 30,
-- so that it does not overflow.
pub power_of_2_ceil-above :
    (n : ℕ) → 0 < n → n ≤ 2 ^ 30 → (n ≤ power_of_2_ceil n) × (power_of_2_ceil n ≤ 2 ^ 30)
unfolding power_of_2_ceil
power_of_2_ceil-above n p h =
    let t : (n == 0) ≡ false = ground arith in
    let smeared = or_shifted-below 16 30 _ (
      or_shifted-below 8 30 _ (
        or_shifted-below 4 30 _
          (or_shifted-below 2 30 _ (or_shifted-below 1 30 (n - 1) (omega arith))))) in
    rw (power_of_2_ceil, t) (omega (arith, smear-above (n - 1)), omega (arith, smeared))
