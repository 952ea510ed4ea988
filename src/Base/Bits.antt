-- ===== src/Base/Bits.antt =====
-- Masks of the C code as arithmetic: a field of a word is a quotient and a remainder.
use Prim.Native.Nat.{
  ℕ, zero, suc, ◌+◌, ◌*◌, ◌/◌, ◌%◌, ◌^◌, ◌≤◌, ◌<◌, min, max, bit_and, bit_or, digits,
  bit_and-bitwise, bit_or-bitwise,
}
use mathlib.Core.Path.{◌≡◌, refl, ◌∙◌}
use mathlib.Core.Bool.{Bool, true, false}
use mathlib.Core.Logic.{ite}
use native.Mathlib.Decide.{ℕ_discrete}
use native.Mathlib.Nat.{pow-suc, mul_assoc, mul_comm, div-div-eq-div-mul}
use native.Mathlib.Omega.{arith}

-- Two functions that agree on every value of a small range.
module _ (f g : ℕ → ℕ) where
  unfoldable pub agree_below : ℕ → Bool
  unfolding ℕ_discrete
  agree_below zero = true
  agree_below (suc n) = ite (ℕ_discrete (f n) (g n)) (agree_below n) false

  pub agree_below→eq : (n : ℕ) → agree_below n ≡ true → (i : ℕ) → i < n → f i ≡ g i
  unfolding agree_below
  agree_below→eq zero e i h = absurd (omega arith)
  agree_below→eq (suc n) e i h = ground (arith, agree_below→eq n (ground arith) i)

-- Fuel above the first argument makes no difference to an operation by digits.
module _ (z : ℕ → ℕ) (op : ℕ → ℕ → ℕ) where
  digits-nothing : (fuel b : ℕ) → digits z op fuel 0 b ≡ z b
  digits-nothing zero b = refl
  digits-nothing (suc fuel) b = refl

  digits-spare :
      (fuel more a b : ℕ) → a ≤ fuel → fuel ≤ more → digits z op more a b ≡ digits z op fuel a b
  digits-spare fuel more zero b h g = rw (digits-nothing fuel b, digits-nothing more b)
  digits-spare (suc fuel) (suc more) (suc a) b h g =
      rw (digits-spare fuel more (suc a / 2) (b / 2) (omega arith) (omega arith))
  digits-spare zero more (suc a) b h g = absurd (omega arith)
  digits-spare fuel zero (suc a) b h g = absurd (omega arith)

  digits-half : (a b : ℕ) → digits z op a (suc a / 2) b ≡ digits z op (suc a / 2) (suc a / 2) b
  digits-half a b = digits-spare (suc a / 2) a (suc a / 2) b (omega arith) (omega arith)

-- The lowest digit of a conjunction or a disjunction, and the rest.
pub bit_and_digit : (a b : ℕ) → bit_and a b ≡ bit_and (a / 2) (b / 2) * 2 + min (a % 2) (b % 2)
bit_and_digit zero b = simp bit_and-bitwise (omega arith)
bit_and_digit (suc a) b =
    let fuel = digits-half (λ y. 0) min a (b / 2) in simp bit_and-bitwise (omega (arith, fuel))

pub bit_or_digit : (a b : ℕ) → bit_or a b ≡ bit_or (a / 2) (b / 2) * 2 + max (a % 2) (b % 2)
bit_or_digit zero b = simp bit_or-bitwise (omega arith)
bit_or_digit (suc a) b =
    let fuel = digits-half (λ y. y) max a (b / 2) in simp bit_or-bitwise (omega (arith, fuel))

-- Induction by halves: what holds of half a number holds of the number.
module _ {ℓ} (P : ℕ → Type ℓ) (base : P 0) (step : (a : ℕ) → P (suc a / 2) → P (suc a)) where
  halving_below : (bound a : ℕ) → a ≤ bound → P a
  halving_below bound zero h = base
  halving_below zero (suc a) h = absurd (omega arith)
  halving_below (suc bound) (suc a) h = step a (halving_below bound (suc a / 2) (omega arith))

  pub halving : (a : ℕ) → P a
  halving a = halving_below a a (omega arith)

bit_or-zero : (a : ℕ) → bit_or a 0 ≡ a
bit_or-zero =
    halving (λ a. bit_or a 0 ≡ a) refl (λ a rest. omega (arith, bit_or_digit (suc a) 0, rest))

-- `(q << k) | r` is a sum when `r` fits `k` bits.
pub bit_or_disjoint : (k q r : ℕ) → r < 2 ^ k → bit_or (q * 2 ^ k) r ≡ q * 2 ^ k + r
bit_or_disjoint zero q zero h = bit_or-zero (q * 1) ∙ omega arith
bit_or_disjoint zero q (suc r) h = absurd (omega arith)
bit_or_disjoint (suc k) q r h =
    let p = pow-suc 2 k in
    let e : q * 2 ^ suc k ≡ q * 2 ^ k * 2 = rw (p, mul_assoc) in
    let half : q * 2 ^ k * 2 / 2 ≡ q * 2 ^ k = omega arith in
    let rest = bit_or_disjoint k q (r / 2) (omega (arith, p)) in
    rw e (bit_or_digit (q * 2 ^ k * 2) r ∙ rw (half, rest) (omega arith))

bit_and-zero : (a : ℕ) → bit_and a 0 ≡ 0
bit_and-zero =
    halving (λ a. bit_and a 0 ≡ 0) refl (λ a rest. omega (arith, bit_and_digit (suc a) 0, rest))

-- Masks of low bits are remainders.
bit_and-one : (a : ℕ) → bit_and a 1 ≡ a % 2
bit_and-one a = omega (arith, bit_and_digit a 1, bit_and-zero (a / 2))

bit_and_3 : (a : ℕ) → bit_and a 3 ≡ a % 4
bit_and_3 a = omega (arith, bit_and_digit a 3, bit_and-one (a / 2))

pub bit_and_7 : (a : ℕ) → bit_and a 7 ≡ a % 8
bit_and_7 a = omega (arith, bit_and_digit a 7, bit_and_3 (a / 2))

pub bit_and_15 : (a : ℕ) → bit_and a 15 ≡ a % 16
bit_and_15 a = omega (arith, bit_and_digit a 15, bit_and_7 (a / 2))

pub bit_and_31 : (a : ℕ) → bit_and a 31 ≡ a % 32
bit_and_31 a = omega (arith, bit_and_digit a 31, bit_and_15 (a / 2))

pub bit_and_63 : (a : ℕ) → bit_and a 63 ≡ a % 64
bit_and_63 a = omega (arith, bit_and_digit a 63, bit_and_31 (a / 2))

pub bit_and_127 : (a : ℕ) → bit_and a 127 ≡ a % 128
bit_and_127 a = omega (arith, bit_and_digit a 127, bit_and_63 (a / 2))

-- An even mask reads the number shifted down.
bit_and_double : (a m : ℕ) → bit_and a (m * 2) ≡ bit_and (a / 2) m * 2
bit_and_double a m =
    let e : m * 2 / 2 ≡ m = omega arith in bit_and_digit a (m * 2) ∙ rw e (omega arith)

-- A mask of bits from `k` up reads the number shifted down by `k`.
pub bit_and_shifted : (k a m : ℕ) → bit_and a (m * 2 ^ k) ≡ bit_and (a / 2 ^ k) m * 2 ^ k
bit_and_shifted zero a m =
    let e : m * 1 ≡ m = omega arith in let f : a / 1 ≡ a = omega arith in rw (e, f) (omega arith)
bit_and_shifted (suc k) a m =
    rw (pow-suc 2 k, ← mul_assoc m (2 ^ k) 2, bit_and_double a (m * 2 ^ k))
      (rw (bit_and_shifted k (a / 2) m, div-div-eq-div-mul a 2 (2 ^ k), mul_comm 2 (2 ^ k))
        (omega arith))

pub bit_and_255 : (a : ℕ) → bit_and a 255 ≡ a % 256
bit_and_255 a = omega (arith, bit_and_digit a 255, bit_and_127 (a / 2))
