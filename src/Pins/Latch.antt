-- ===== src/Pins/Latch.antt =====
-- What the pins show when the chip is selected.
use sid_pi.Base.{
  ℕ, ◌-◌, ◌*◌, ◌%◌, ◌^◌, ◌≤◌, ◌<◌, ◌≡◌, ◌≢◌, ap, ◌∙◌, arith, bit_and, min, not32, ◌<<<◌, ◌==◌,
  if◌then◌else◌,
}
use sid_pi.Bits.Digits.{bit, bit_le_one, bit-bit_and}
use sid_pi.Bits.Masks.{bit-digit, bit-complement}
use sid_pi.Pins.{cs, data_pins, addr_pins, Gpio, Drives, present}
use sid_pi.Pins.Tables.{data_pins-lt, addr_pins-lt}

-- The level of a pin after a store of the 1s of `table` and then one of the 0s that `all` has.
abbrev pub settled : ℕ → ℕ → ℕ → ℕ
settled own all before = if own == 1 then 1 else if all == 1 then 0 else before

module _ {G : Type 0} (io : Gpio G) (law : Drives io) where
  open law use {level}

  -- A set and a clear through a table settle each pin.
  set_clear :
      (table all : ℕ) (g : G) (p : ℕ)
      → p < 32
      → table < 2 ^ 32
      → level (io.store 10 (bit_and (not32 table) all) (io.store 7 table g)) p
        ≡ settled (bit p table) (bit p all) (level g p)
  set_clear table all g p h t =
      let other : bit p (bit_and (not32 table) all) ≡ min (1 - bit p table) (bit p all) =
        bit-bit_and p (not32 table) all
        ∙ ap (λ x. min x (bit p all)) (bit-complement 32 p table t h) in
      law.clear_law (bit_and (not32 table) all) (io.store 7 table g) p h
      ∙ by_bits (bit p table) (bit p all) _ _ (level g p) (bit_le_one p table) (bit_le_one p all)
          other (law.set_law table g p h)
    where
      by_bits :
          (own every m l before : ℕ)
          → own ≤ 1
          → every ≤ 1
          → m ≡ min (1 - own) every
          → l ≡ (if own == 1 then 1 else before)
          → (if m == 1 then 0 else l) ≡ settled own every before
      by_bits own every m l before h k e f = ground arith

  -- The stores of `writeSid` but for CS.
  pub settled_pin :
      (reg val : ℕ) (g : G) (p : ℕ)
      → p < 32
      → p ≢ cs
      → level (present io reg val g) p
        ≡ settled
            (bit p (data_pins (val % 256)))
            (bit p (data_pins 255))
            (settled (bit p (addr_pins (reg % 32))) (bit p (addr_pins 31)) (level g p))
  unfolding present
  settled_pin reg val g p h k =
      let off : bit p (1 * 2 ^ cs) ≡ 0 = bit-digit p cs 1 (omega arith) ∙ ground arith in
      law.clear_law (1 <<< cs) _ p h
      ∙ ap
          (λ b.
            if b == 1
            then 0
            else level
                (io.store 10 (bit_and (not32 (data_pins (val % 256))) (data_pins 255)) (
                  io.store 7 (data_pins (val % 256)) (
                    io.store 10 (bit_and (not32 (addr_pins (reg % 32))) (addr_pins 31))
                      (io.store 7 (addr_pins (reg % 32)) g))))
                p)
          off
      ∙ set_clear (data_pins (val % 256)) (data_pins 255) _ p h (data_pins-lt (val % 256))
      ∙ ap (settled (bit p (data_pins (val % 256))) (bit p (data_pins 255)))
          (set_clear (addr_pins (reg % 32)) (addr_pins 31) g p h (addr_pins-lt (reg % 32)))
