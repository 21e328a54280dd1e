-- ===== src/Pins.antt =====
-- The chip on the pins: the tables of sidpiserver/src/sidrunnerthread.c (and the same in
-- module/src/sidpi.c), and the stores that put a command on the pins. The registers of the Pi are a
-- parameter.
pub mod Tables
pub mod Filled
pub mod Shows
mod Tests
pub mod Latch
pub mod Select
pub mod Sample
pub mod Block
pub mod Words
use sid_pi.Base.{
  ℕ, zero, suc, ◌+◌, ◌*◌, ◌%◌, ◌/◌, ◌<◌, ◌^◌, ◌≡◌, Bool, true, false, List, [], ◌∷◌, get_or,
  bit_and, bit_or, not32, ◌<<<◌, ◌>>>◌, ◌==◌, if◌then◌else◌,
}
use sid_pi.Bits.Digits.{bit}

-- `DATA`, `ADDR` and `CS`
abbrev pub data_list : List ℕ
data_list = 11 ∷ 9 ∷ 10 ∷ 22 ∷ 27 ∷ 17 ∷ 3 ∷ 2 ∷ []

abbrev pub addr_list : List ℕ
addr_list = 23 ∷ 24 ∷ 25 ∷ 8 ∷ 7 ∷ []

abbrev pub cs : ℕ
cs = 18

-- `table |= ((i & 2 ^ j) >> j) << PINS[j]` for the pins from the `j`-th on
unfoldable pub gather : List ℕ → ℕ → ℕ → ℕ → ℕ
gather [] j i table = table
gather (p ∷ ps) j i table = gather ps (suc j) i (bit_or table ((bit_and i (2 ^ j) >>> j) <<< p))

-- `dataPins[i]` and `addrPins[i]` after `generatePinTables`
unfoldable pub data_pins : ℕ → ℕ
data_pins i = gather data_list 0 i 0

unfoldable pub addr_pins : ℕ → ℕ
addr_pins i = gather addr_list 0 i 0

-- What the program does with the registers `G` of the pins: it writes and reads `*(gpio.addr + n)`.
pub record Gpio (G : Type 0) : Type 0 where
  pub store : ℕ → ℕ → G → G
  pub load : ℕ → G → ℕ

-- What the data sheet says of the words 7 (GPSET0) and 10 (GPCLR0): a 1 drives its pin high or low, a
-- 0 leaves it.
pub record Drives {G : Type 0} (io : Gpio G) : Type 0 where
  pub level : G → ℕ → ℕ
  pub set_law :
      (w : ℕ) (g : G) (p : ℕ)
      → p < 32
      → level (io.store 7 w g) p ≡ (if bit p w == 1 then 1 else level g p)
  pub clear_law :
      (w : ℕ) (g : G) (p : ℕ)
      → p < 32
      → level (io.store 10 w g) p ≡ (if bit p w == 1 then 0 else level g p)

module _ {G : Type 0} (io : Gpio G) where
  -- The stores of `writeSid` up to the one that takes CS low.
  unfoldable pub present : ℕ → ℕ → G → G
  present reg val g =
      let g1 = io.store 7 (addr_pins (reg % 32)) g in
      let g2 = io.store 10 (bit_and (not32 (addr_pins (reg % 32))) (addr_pins 31)) g1 in
      let g3 = io.store 7 (data_pins (val % 256)) g2 in
      let g4 = io.store 10 (bit_and (not32 (data_pins (val % 256))) (data_pins 255)) g3 in
      io.store 10 (1 <<< cs) g4

  -- `writeSid`, and `writeSidPar` of sidpi.c
  unfoldable pub write_sid : ℕ → ℕ → G → G
  unfolding present
  write_sid reg val g = io.store 7 (1 <<< cs) (present reg val g)
