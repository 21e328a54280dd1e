-- ===== src/Bits/Fields.antt =====
-- Masks of low bits are remainders, and `|` of disjoint fields is a sum.
use native.Mathlib.Nat.{two-pow-succ, one-le-pow, div-add-mod', mod-lt, div-div-eq-div-mul}
use sid_pi.Base.{
  ℕ, zero, suc, ◌+◌, ◌-◌, ◌*◌, ◌/◌, ◌%◌, ◌^◌, ◌≤◌, ◌<◌, bit_and, bit_or, ◌≡◌, refl, sym, ap, ap₂,
  ◌∙◌, arith,
}
use sid_pi.Bits.Digits.{bit_and_low, bit_or_low}

bit_and-zero_below : (n a : ℕ) → a ≤ n → bit_and a 0 ≡ 0
bit_and-zero_below n zero h = refl
bit_and-zero_below zero (suc a) h = absurd (omega arith)
bit_and-zero_below (suc n) (suc a) h =
    omega (arith, bit_and_low (suc a) 0, bit_and-zero_below n (suc a / 2) (omega arith))

bit_or-zero_below : (n a : ℕ) → a ≤ n → bit_or a 0 ≡ a
bit_or-zero_below n zero h = refl
bit_or-zero_below zero (suc a) h = absurd (omega arith)
bit_or-zero_below (suc n) (suc a) h =
    omega (arith, bit_or_low (suc a) 0, bit_or-zero_below n (suc a / 2) (omega arith))

bit_and_self_below : (n a : ℕ) → a ≤ n → bit_and a a ≡ a
bit_and_self_below n zero h = refl
bit_and_self_below zero (suc a) h = absurd (omega arith)
bit_and_self_below (suc n) (suc a) h =
    omega (arith, bit_and_low (suc a) (suc a), bit_and_self_below n (suc a / 2) (omega arith))

pub bit_and-zero : (a : ℕ) → bit_and a 0 ≡ 0
bit_and-zero a = bit_and-zero_below a a (omega arith)

pub bit_or-zero : (a : ℕ) → bit_or a 0 ≡ a
bit_or-zero a = bit_or-zero_below a a (omega arith)

pub bit_and_self : (a : ℕ) → bit_and a a ≡ a
bit_and_self a = bit_and_self_below a a (omega arith)

pub mul_two_pow : (q k : ℕ) → q * 2 ^ suc k ≡ 2 * (q * 2 ^ k)
mul_two_pow q k = omega (arith, ap (λ (t : ℕ). q * t) (two-pow-succ k))

field-half : (k q r : ℕ) → (q * 2 ^ suc k + r) / 2 ≡ q * 2 ^ k + r / 2
field-half k q r = omega (arith, mul_two_pow q k)

mask-half : (k : ℕ) → (2 ^ suc k - 1) / 2 ≡ 2 ^ k - 1
mask-half k = omega (arith, two-pow-succ k, one-le-pow k 2 (omega arith))

-- A mask of `k` ones keeps the field below `2 ^ k`.
bit_and_field : (k q r : ℕ) → r < 2 ^ k → bit_and (q * 2 ^ k + r) (2 ^ k - 1) ≡ r
bit_and_field zero q r h = omega (arith, bit_and-zero (q * 1 + r))
bit_and_field (suc k) q r h =
    let below : bit_and ((q * 2 ^ suc k + r) / 2) ((2 ^ suc k - 1) / 2) ≡ r / 2 =
      rw (field-half k q r, mask-half k)
        (bit_and_field k q (r / 2) (omega (arith, two-pow-succ k))) in
    omega (
      arith,
      two-pow-succ k,
      one-le-pow k 2 (omega arith),
      mul_two_pow q k,
      bit_and_low (q * 2 ^ suc k + r) (2 ^ suc k - 1),
    )

-- `a & (2^k - 1)` is the remainder by `2 ^ k`.
pub bit_and_mask : (k a : ℕ) → bit_and a (2 ^ k - 1) ≡ a % 2 ^ k
bit_and_mask k a =
    ap (λ t. bit_and t (2 ^ k - 1)) (sym_div)
    ∙ bit_and_field k (a / 2 ^ k) (a % 2 ^ k) (mod-lt a (one-le-pow k 2 (omega arith)))
  where
    sym_div : a ≡ a / 2 ^ k * 2 ^ k + a % 2 ^ k
    sym_div = omega (arith, div-add-mod' a (2 ^ k))

-- `(q << k) | r` is a sum when `r` fits in `k` bits.
pub bit_or_field : (k q r : ℕ) → r < 2 ^ k → bit_or (q * 2 ^ k) r ≡ q * 2 ^ k + r
bit_or_field zero q r h = let e : r ≡ 0 = omega arith in rw (e, bit_or-zero (q * 1)) (omega arith)
bit_or_field (suc k) q r h =
    let half : q * 2 ^ suc k / 2 ≡ q * 2 ^ k = omega (arith, mul_two_pow q k) in
    let below : bit_or (q * 2 ^ suc k / 2) (r / 2) ≡ q * 2 ^ k + r / 2 =
      rw half (bit_or_field k q (r / 2) (omega (arith, two-pow-succ k))) in
    omega (arith, mul_two_pow q k, bit_or_low (q * 2 ^ suc k) r)

pub shift_suc : (k a : ℕ) → a / 2 ^ suc k ≡ a / 2 / 2 ^ k
shift_suc k a =
    ap (λ t. a / t) (let e : 2 ^ suc k ≡ 2 * 2 ^ k = omega (arith, two-pow-succ k) in e)
    ∙ sym (div-div-eq-div-mul a 2 (2 ^ k))

-- A mask and a shift down go through each other.
pub bit_and-div : (k a m : ℕ) → bit_and a m / 2 ^ k ≡ bit_and (a / 2 ^ k) (m / 2 ^ k)
bit_and-div zero a m =
    let one : (x : ℕ) → x / 2 ^ 0 ≡ x = λ x. omega arith in
    one (bit_and a m) ∙ ap₂ bit_and (sym (one a)) (sym (one m))
bit_and-div (suc k) a m =
    let half : bit_and a m / 2 ≡ bit_and (a / 2) (m / 2) = omega (arith, bit_and_low a m) in
    shift_suc k (bit_and a m)
    ∙ ap (λ t. t / 2 ^ k) half
    ∙ bit_and-div k (a / 2) (m / 2)
    ∙ ap₂ bit_and (sym (shift_suc k a)) (sym (shift_suc k m))
