-- ===== src/Base/Int.antt =====
-- The values of a C `int`, over the native numbers: results that may be -1, and signed lengths.
use Prim.Native.Nat.{ℕ, suc, ◌+◌, ◌-◌, ◌/◌, ◌%◌, ◌^◌}
use mathlib.Core.Bool.{Bool, true, false}
use sid_pi.Base.Tests.{ltb, leb, ◌==◌, if◌then◌else◌}

-- `negsuc n` is -(n + 1).
pub data ℤ : Type 0 where
  pos : ℕ → ℤ
  negsuc : ℕ → ℤ

-- `(int) w` for an unsigned 32-bit `w`
abbrev pub to_int : ℕ → ℤ
to_int w = if ltb w (2 ^ 31) then pos w else negsuc (2 ^ 32 - w - 1)

-- `(unsigned char) z`: the low byte of the two's complement
abbrev pub to_byte : ℤ → ℕ
to_byte (pos n) = n % 256
to_byte (negsuc n) = 255 - n % 256

-- The two's complement bit pattern of an `int` or a 32-bit `long`.
abbrev pub to_word : ℤ → ℕ
to_word (pos n) = n % 2 ^ 32
to_word (negsuc n) = 2 ^ 32 - 1 - n

-- Comparison, difference and halving, where no result leaves the range of `int`.
abbrev pub ltb_ℤ : ℤ → ℤ → Bool
ltb_ℤ (pos a) (pos b) = ltb a b
ltb_ℤ (pos a) (negsuc b) = false
ltb_ℤ (negsuc a) (pos b) = true
ltb_ℤ (negsuc a) (negsuc b) = ltb b a

infixl 65 ◌-ℤ◌
abbrev pub ◌-ℤ◌ : ℤ → ℤ → ℤ
pos a -ℤ pos b = if leb b a then pos (a - b) else negsuc (b - a - 1)
pos a -ℤ negsuc b = pos (a + suc b)
negsuc a -ℤ pos b = negsuc (a + b)
negsuc a -ℤ negsuc b = if leb a b then pos (b - a) else negsuc (a - b - 1)

-- `z / 2`, towards 0
abbrev pub half_ℤ : ℤ → ℤ
half_ℤ (pos a) = pos (a / 2)
half_ℤ (negsuc a) = if a == 0 then pos 0 else negsuc (suc a / 2 - 1)
