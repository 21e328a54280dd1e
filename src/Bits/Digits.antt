-- ===== src/Bits/Digits.antt =====
-- `bit_and` and `bit_or` one binary digit at a time, and the digit at a position.
use Prim.Native.Nat.{digits, bit_and-bitwise, bit_or-bitwise}
use sid_pi.Base.{ℕ, zero, suc, ◌+◌, ◌*◌, ◌/◌, ◌%◌, ◌≤◌, min, max, bit_and, bit_or, ◌≡◌, refl, arith}

module _ (last : ℕ → ℕ) (f : ℕ → ℕ → ℕ) where
  -- Any count of digits that covers the first number gives the same result.
  digits_enough : (n m a b : ℕ) → a ≤ n → a ≤ m → digits last f n a b ≡ digits last f m a b
  digits_enough zero zero a b p q = refl
  digits_enough zero (suc m) zero b p q = refl
  digits_enough zero (suc m) (suc a) b p q = absurd (omega arith)
  digits_enough (suc n) zero zero b p q = refl
  digits_enough (suc n) zero (suc a) b p q = absurd (omega arith)
  digits_enough (suc n) (suc m) zero b p q = refl
  digits_enough (suc n) (suc m) (suc a) b p q =
      rw (digits_enough n m (suc a / 2) (b / 2) (omega arith) (omega arith))

pub bit_and_low : (a b : ℕ) → bit_and a b ≡ bit_and (a / 2) (b / 2) * 2 + min (a % 2) (b % 2)
bit_and_low zero b = omega (arith, bit_and-bitwise 0 b, bit_and-bitwise 0 (b / 2))
bit_and_low (suc a) b = omega (
  arith,
  bit_and-bitwise (suc a) b,
  bit_and-bitwise (suc a / 2) (b / 2),
  digits_enough (λ _. 0) min a (suc a / 2) (suc a / 2) (b / 2) (omega arith) (omega arith),
)

pub bit_or_low : (a b : ℕ) → bit_or a b ≡ bit_or (a / 2) (b / 2) * 2 + max (a % 2) (b % 2)
bit_or_low zero b = omega (arith, bit_or-bitwise 0 b, bit_or-bitwise 0 (b / 2))
bit_or_low (suc a) b = omega (
  arith,
  bit_or-bitwise (suc a) b,
  bit_or-bitwise (suc a / 2) (b / 2),
  digits_enough (λ y. y) max a (suc a / 2) (suc a / 2) (b / 2) (omega arith) (omega arith),
)

-- the digit of weight 2 ^ i
abbrev pub bit : ℕ → ℕ → ℕ
bit zero a = a % 2
bit (suc i) a = bit i (a / 2)

pub bit_le_one : (i a : ℕ) → bit i a ≤ 1
bit_le_one zero a = omega arith
bit_le_one (suc i) a = bit_le_one i (a / 2)

pub bit-bit_and : (i a b : ℕ) → bit i (bit_and a b) ≡ min (bit i a) (bit i b)
bit-bit_and zero a b = omega (arith, bit_and_low a b)
bit-bit_and (suc i) a b =
    let half : bit_and a b / 2 ≡ bit_and (a / 2) (b / 2) = omega (arith, bit_and_low a b) in
    rw half (bit-bit_and i (a / 2) (b / 2))

pub bit-bit_or : (i a b : ℕ) → bit i (bit_or a b) ≡ max (bit i a) (bit i b)
bit-bit_or zero a b = omega (arith, bit_or_low a b)
bit-bit_or (suc i) a b =
    let half : bit_or a b / 2 ≡ bit_or (a / 2) (b / 2) = omega (arith, bit_or_low a b) in
    rw half (bit-bit_or i (a / 2) (b / 2))
