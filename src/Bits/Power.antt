-- ===== src/Bits/Power.antt =====
-- The test `n & (n - 1)` for powers of two.
use native.Mathlib.Nat.{two-pow-succ, mod_self}
use sid_pi.Base.{
  ℕ, zero, suc, ◌+◌, ◌-◌, ◌*◌, ◌/◌, ◌^◌, ◌≤◌, ◌<◌, bit_and, ◌≡◌, ap, ap₂, ◌∙◌, ◌⊎◌, inl, inr, ◌↔◌,
  arith,
}
use sid_pi.Bits.Digits.{bit_and_low}
use sid_pi.Bits.Fields.{bit_and_self, bit_and_mask}

abbrev pub IsPowerOfTwo : ℕ → Type 0
IsPowerOfTwo n = (k : ℕ) × (n ≡ 2 ^ k)

-- `n & (n - 1)` of an even number is that of its half, doubled.
even_step : (m : ℕ) → 0 < m → bit_and (m * 2) (m * 2 - 1) ≡ bit_and m (m - 1) * 2
even_step m h = omega (arith, bit_and_low (m * 2) (m * 2 - 1), halves)
  where
    e1 : m * 2 / 2 ≡ m
    e1 = omega arith

    e2 : (m * 2 - 1) / 2 ≡ m - 1
    e2 = omega arith

    halves : bit_and (m * 2 / 2) ((m * 2 - 1) / 2) ≡ bit_and m (m - 1)
    halves = rw (e1, e2)

-- Of an odd number it is the number less its last bit.
odd_step : (m : ℕ) → bit_and (m * 2 + 1) (m * 2) ≡ m * 2
odd_step m = omega (arith, bit_and_low (m * 2 + 1) (m * 2), halves)
  where
    e1 : (m * 2 + 1) / 2 ≡ m
    e1 = omega arith

    e2 : m * 2 / 2 ≡ m
    e2 = omega arith

    halves : bit_and ((m * 2 + 1) / 2) (m * 2 / 2) ≡ m
    halves = rw (e1, e2) (bit_and_self m)

parity : (n : ℕ) → (n ≡ n / 2 * 2) ⊎ (n ≡ n / 2 * 2 + 1)
parity n = omega arith

clear_even : (n : ℕ) → 0 < n → n ≡ n / 2 * 2 → bit_and n (n - 1) ≡ bit_and (n / 2) (n / 2 - 1) * 2
clear_even n pos e = ap (λ t. bit_and t (t - 1)) e ∙ even_step (n / 2) (omega arith)

clear_odd : (n : ℕ) → n ≡ n / 2 * 2 + 1 → bit_and n (n - 1) ≡ n / 2 * 2
clear_odd n e = let less : n - 1 ≡ n / 2 * 2 = omega arith in ap₂ bit_and e less ∙ odd_step (n / 2)

double_IsPowerOfTwo : (n : ℕ) → n ≡ n / 2 * 2 → IsPowerOfTwo (n / 2) → IsPowerOfTwo n
double_IsPowerOfTwo n e (k, p) = (suc k, omega (arith, two-pow-succ k))

power_below : (b n : ℕ) → n ≤ b → 0 < n → bit_and n (n - 1) ≡ 0 → IsPowerOfTwo n
power_below zero n h pos z = absurd (omega arith)
power_below (suc b) n h pos z = elim (parity n) [
  | inl e ↦
      double_IsPowerOfTwo n e
        (power_below b (n / 2) (omega arith) (omega arith) (omega (arith, clear_even n pos e)))
  | inr e ↦ (0, omega (arith, clear_odd n e))
]

-- The test passes for the powers of two.
pub pow-clear : (k : ℕ) → bit_and (2 ^ k) (2 ^ k - 1) ≡ 0
pow-clear k = omega (arith, bit_and_mask k (2 ^ k), mod_self (2 ^ k))

-- Of a positive number the test `n & (n - 1) == 0` holds exactly for the powers of two.
pub clear_iff_power : (n : ℕ) → 0 < n → (bit_and n (n - 1) ≡ 0) ↔ IsPowerOfTwo n
clear_iff_power n pos = (power_below n n (omega arith) pos, λ p. rw p.1 (pow-clear p.0))
