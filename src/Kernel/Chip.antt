-- ===== src/Kernel/Chip.antt =====
-- module/src/sidpi.c: what the kernel thread does to the pins, and the set-up of pins and clock on loading.
use sid_pi.Base.{
  ℕ, ◌%◌, ◌^◌, ◌<<<◌, ◌>>>◌, bit_and, bit_or, not32, Option, none, some, List, [], ◌∷◌, get_or,
  replicate, ◌++◌,
}
use sid_pi.Pins.{Gpio, cs}
use sid_pi.Pins.Filled.{PinTables, table_of}
use sid_pi.Pins.Select.{set_field, clk, rw_pin, res_pin}
use sid_pi.Clock.{Access, start_sid_clk_int}
use sid_pi.Kernel.{Deed, asleep, acts}

-- `gpioToGPFSEL`
abbrev pub gpio_to_gpfsel : List ℕ
gpio_to_gpfsel =
    replicate 10 0
    ++ (replicate 10 1
        ++ (replicate 10 2 ++ (replicate 10 3 ++ (replicate 10 4 ++ replicate 10 5))))

abbrev shifts : List ℕ
shifts = 0 ∷ 3 ∷ 6 ∷ 9 ∷ 12 ∷ 15 ∷ 18 ∷ 21 ∷ 24 ∷ 27 ∷ []

-- `gpioToShift`
abbrev pub gpio_to_shift : List ℕ
gpio_to_shift = shifts ++ (shifts ++ (shifts ++ (shifts ++ shifts)))

-- `DATA` and `ADDR`
abbrev pub data_list : List ℕ
data_list = 11 ∷ 9 ∷ 10 ∷ 22 ∷ 27 ∷ 17 ∷ 3 ∷ 2 ∷ []

abbrev pub addr_list : List ℕ
addr_list = 23 ∷ 24 ∷ 25 ∷ 8 ∷ 7 ∷ []

-- `(i & 2 ^ j) >> j`, at the pin `j` of the list
abbrev placed : List ℕ → ℕ → ℕ → ℕ
placed pins j i = (bit_and i (2 ^ j) >>> j) <<< get_or pins j 0

-- the bodies of the two loops of `generatePinTables`
unfoldable pub data_row : ℕ → ℕ
data_row i =
    let row = bit_and i 1 <<< get_or data_list 0 0 in
    let row = bit_or row (placed data_list 1 i) in
    let row = bit_or row (placed data_list 2 i) in
    let row = bit_or row (placed data_list 3 i) in
    let row = bit_or row (placed data_list 4 i) in
    let row = bit_or row (placed data_list 5 i) in
    let row = bit_or row (placed data_list 6 i) in bit_or row (placed data_list 7 i)

unfoldable pub addr_row : ℕ → ℕ
addr_row i =
    let row = bit_and i 1 <<< get_or addr_list 0 0 in
    let row = bit_or row (placed addr_list 1 i) in
    let row = bit_or row (placed addr_list 2 i) in
    let row = bit_or row (placed addr_list 3 i) in bit_or row (placed addr_list 4 i)

unfoldable pub generate_pin_tables : PinTables
generate_pin_tables = record {
  data_table = table_of data_row 256 0;
  addr_table = table_of addr_row 32 0;
}

module _ {G : Type 0} (io : Gpio G) (t : PinTables) where
  -- `writeSidPar`, with `iowrite32` as the store: up to the one that takes CS low
  unfoldable pub present_par : ℕ → ℕ → G → G
  present_par reg val g =
      let addr_pins = λ (i : ℕ). get_or t.addr_table i 0 in
      let data_pins = λ (i : ℕ). get_or t.data_table i 0 in
      let g1 = io.store 7 (addr_pins (reg % 32)) g in
      let g2 = io.store 10 (bit_and (not32 (addr_pins (reg % 32))) (addr_pins 31)) g1 in
      let g3 = io.store 7 (data_pins (val % 256)) g2 in
      let g4 = io.store 10 (bit_and (not32 (data_pins (val % 256))) (data_pins 255)) g3 in
      io.store 10 (1 <<< cs) g4

  unfoldable pub write_sid_par : ℕ → ℕ → G → G
  unfolding present_par
  write_sid_par reg val g = io.store 7 (1 <<< cs) (present_par reg val g)

  -- The pins at the moment at which a deed takes CS low, if it does.
  abbrev pub latched : Deed → G → Option G
  latched asleep g = none
  latched (acts cycles none) g = none
  latched (acts cycles (some (reg, val))) g = some (present_par reg val g)

module _ {G : Type 0} (io : Gpio G) where
  -- `iowrite32((ioread32(gpio + fSel) & ~(7 << shift)) | (mode << shift), gpio + fSel)`
  abbrev pub set_mode2 : ℕ → ℕ → G → G
  set_mode2 pin mode = set_field io (get_or gpio_to_gpfsel pin 0) (get_or gpio_to_shift pin 0) mode

  -- the two loops, over `DATA` and over `ADDR`
  unfoldable pub set_outputs2 : List ℕ → G → G
  set_outputs2 [] g = g
  set_outputs2 (pin ∷ pins) g = set_outputs2 pins (set_mode2 pin 1 g)

  -- `setPinsToOutput2`
  unfoldable pub set_pins_to_output2 : G → G
  set_pins_to_output2 g =
      let g1 = set_outputs2 addr_list (set_outputs2 data_list g) in
      set_mode2 clk 4 (set_mode2 res_pin 1 (set_mode2 rw_pin 1 (set_mode2 cs 1 g1)))

-- `startSidClk(DEFAULT_SID_SPEED_HZ)` of `_sid_init_module`
abbrev pub start_module_clk : List ℕ → Option (List Access)
start_module_clk words = start_sid_clk_int 985248 words
