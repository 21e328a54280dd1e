-- ===== src/Bits/Masks.antt =====
-- Single bits of shifted bits, of complements and of masks.
use Prim.Native.Nat.{bit_and-bitwise}
use native.Mathlib.Nat.{two-pow-succ, one-le-pow}
use sid_pi.Base.{
  ℕ, zero, suc, ◌+◌, ◌-◌, ◌*◌, ◌/◌, ◌%◌, ◌^◌, ◌≤◌, ◌<◌, bit_and, bit_or, ◌≡◌, refl, sym, ap, ap₂,
  ◌∙◌, arith, ◌==◌, if◌then◌else◌,
}
use sid_pi.Bits.Digits.{bit, bit_and_low, bit_or_low}
use sid_pi.Bits.Fields.{bit_and-div, bit_and_mask, shift_suc, mul_two_pow}

pub bit_quotient : (j a : ℕ) → bit j a ≡ a / 2 ^ j % 2
bit_quotient zero a = omega arith
bit_quotient (suc j) a = bit_quotient j (a / 2) ∙ ap (λ t. t % 2) (sym (shift_suc j a))

pub bit_of_zero : (p : ℕ) → bit p 0 ≡ 0
bit_of_zero zero = refl
bit_of_zero (suc p) = bit_of_zero p

-- A digit moved to place `q` is the bit there, and the only one.
pub bit-digit : (p q d : ℕ) → d ≤ 1 → bit p (d * 2 ^ q) ≡ (if p == q then d else 0)
bit-digit zero zero d h = omega arith
bit-digit zero (suc q) d h =
    let even : d * 2 ^ suc q % 2 ≡ 0 = omega (arith, mul_two_pow d q) in even ∙ ground arith
bit-digit (suc p) zero d h =
    let none_left : d * 2 ^ 0 / 2 ≡ 0 = omega arith in
    ap (bit p) none_left ∙ bit_of_zero p ∙ ground arith
bit-digit (suc p) (suc q) d h =
    let half : d * 2 ^ suc q / 2 ≡ d * 2 ^ q = omega (arith, mul_two_pow d q) in
    ap (bit p) half ∙ bit-digit p q d h ∙ ground arith

-- the complement in `k` bits
pub bit-complement : (k p a : ℕ) → a < 2 ^ k → p < k → bit p (2 ^ k - 1 - a) ≡ 1 - bit p a
bit-complement zero p a h l = absurd (omega arith)
bit-complement (suc k) zero a h l = omega (arith, two-pow-succ k)
bit-complement (suc k) (suc p) a h l =
    let half : (2 ^ suc k - 1 - a) / 2 ≡ 2 ^ k - 1 - a / 2 =
      omega (arith, two-pow-succ k, one-le-pow k 2) in
    ap (bit p) half ∙ bit-complement k p (a / 2) (omega (arith, two-pow-succ k)) (omega arith)

pub bit_or-lt : (k a b : ℕ) → a < 2 ^ k → b < 2 ^ k → bit_or a b < 2 ^ k
bit_or-lt zero a b h l =
    let e : a ≡ 0 = omega arith in let e' : b ≡ 0 = omega arith in rw (e, e') (omega arith)
bit_or-lt (suc k) a b h l = omega (
  arith,
  two-pow-succ k,
  bit_or_low a b,
  bit_or-lt k (a / 2) (b / 2) (omega (arith, two-pow-succ k)) (omega (arith, two-pow-succ k)),
)

pub bit_and-lt : (k a b : ℕ) → a < 2 ^ k → bit_and a b < 2 ^ k
bit_and-lt zero zero b h = omega (arith, bit_and-bitwise 0 b)
bit_and-lt zero (suc a) b h = absurd (omega arith)
bit_and-lt (suc k) a b h = omega (
  arith,
  two-pow-succ k,
  bit_and_low a b,
  bit_and-lt k (a / 2) (b / 2) (omega (arith, two-pow-succ k)),
)

-- `(i & 2 ^ j) >> j`
pub picked_bit : (i j : ℕ) → bit_and i (2 ^ j) / 2 ^ j ≡ bit j i
picked_bit i j =
    bit_and-div j i (2 ^ j)
    ∙ ap (bit_and (i / 2 ^ j)) (let p = one-le-pow j 2 in one_left (2 ^ j) (omega arith))
    ∙ bit_and_mask 1 (i / 2 ^ j)
    ∙ sym (bit_quotient j i)
  where
    one_left : (n : ℕ) → 0 < n → n / n ≡ 1
    one_left n h = grind arith

-- A number moved up by `s` places: its bits from there on, and none below.
pub bit-shift_at : (s j x : ℕ) → bit (s + j) (x * 2 ^ s) ≡ bit j x
bit-shift_at zero j x =
    let at : zero + j ≡ j = omega arith in let same : x * 2 ^ 0 ≡ x = omega arith in ap₂ bit at same
bit-shift_at (suc s) j x =
    let at : suc s + j ≡ suc (s + j) = omega arith in
    let half : x * 2 ^ suc s / 2 ≡ x * 2 ^ s = omega (arith, mul_two_pow x s) in
    ap (λ t. bit t (x * 2 ^ suc s)) at ∙ ap (bit (s + j)) half ∙ bit-shift_at s j x

pub bit-shift_below : (p s x : ℕ) → p < s → bit p (x * 2 ^ s) ≡ 0
bit-shift_below p zero x h = absurd (omega arith)
bit-shift_below zero (suc s) x h = omega (arith, mul_two_pow x s)
bit-shift_below (suc p) (suc s) x h =
    let half : x * 2 ^ suc s / 2 ≡ x * 2 ^ s = omega (arith, mul_two_pow x s) in
    ap (bit p) half ∙ bit-shift_below p s x (omega arith)

-- above its three bits a number below 8 has no more
pub bit_above_three : (k x : ℕ) → x < 8 → 3 ≤ k → bit k x ≡ 0
bit_above_three k x h l =
    let three : k ≡ suc (suc (suc (k - 3))) = omega arith in
    let gone : x / 2 / 2 / 2 ≡ 0 = omega arith in
    ap (λ t. bit t x) three ∙ ap (bit (k - 3)) gone ∙ bit_of_zero (k - 3)
