-- ===== src/Pins/Select.antt =====
-- The set-up of the pins: `setPinsToOutput` of sidpiserver/src/sidrunnerthread.c, `setPinsToOutput2` of
-- module/src/sidpi.c and `set_output` of sidpiserver/src/serialsid.c, with the tables of rpi.h.
pub mod Modes
pub mod Outputs
use sid_pi.Base.{
  ℕ, zero, suc, ◌+◌, ◌*◌, ◌%◌, ◌/◌, ◌<◌, ◌^◌, ◌≡◌, List, [], ◌∷◌, ◌++◌, get_or, bit_and, bit_or,
  not32, ◌<<<◌, ◌==◌, if◌then◌else◌, replicate,
}
use sid_pi.Pins.{Gpio, data_list, addr_list, cs}

-- `RW`, `RES` and `CLK`
abbrev pub rw_pin : ℕ
rw_pin = 0

abbrev pub res_pin : ℕ
res_pin = 0

abbrev pub clk : ℕ
clk = 4

-- `gpioToGPFSEL`: the word of a pin
abbrev pub gpio_to_gpfsel : List ℕ
gpio_to_gpfsel =
    replicate 10 0
    ++ (replicate 10 1
        ++ (replicate 10 2 ++ (replicate 10 3 ++ (replicate 10 4 ++ replicate 10 5))))

abbrev shifts : List ℕ
shifts = 0 ∷ 3 ∷ 6 ∷ 9 ∷ 12 ∷ 15 ∷ 18 ∷ 21 ∷ 24 ∷ 27 ∷ []

-- `gpioToShift`: where its three bits start
abbrev pub gpio_to_shift : List ℕ
gpio_to_shift = shifts ++ (shifts ++ (shifts ++ (shifts ++ shifts)))

module _ {G : Type 0} (io : Gpio G) where
  -- `*(gpio.addr + fSel) = (*(gpio.addr + fSel) & ~(7 << shift)) | (mode << shift)`
  unfoldable pub set_field : ℕ → ℕ → ℕ → G → G
  set_field f_sel shift mode g =
      io.store f_sel (bit_or (bit_and (io.load f_sel g) (not32 (7 <<< shift))) (mode <<< shift)) g

  abbrev pub set_mode : ℕ → ℕ → G → G
  set_mode pin mode = set_field (get_or gpio_to_gpfsel pin 0) (get_or gpio_to_shift pin 0) mode

  -- the two loops, over `DATA` and over `ADDR`
  unfoldable pub set_outputs : List ℕ → G → G
  set_outputs [] g = g
  set_outputs (pin ∷ pins) g = set_outputs pins (set_mode pin 1 g)

  unfoldable pub set_pins_to_output : G → G
  set_pins_to_output g =
      let g1 = set_outputs addr_list (set_outputs data_list g) in
      set_mode clk 4 (set_mode res_pin 1 (set_mode rw_pin 1 (set_mode cs 1 g1)))

  -- `INP_GPIO(pin)`, `OUT_GPIO(pin)`
  unfoldable pub inp_gpio : ℕ → G → G
  inp_gpio pin g =
      io.store (pin / 10) (bit_and (io.load (pin / 10) g) (not32 (7 <<< (pin % 10 * 3)))) g

  unfoldable pub out_gpio : ℕ → G → G
  out_gpio pin g = io.store (pin / 10) (bit_or (io.load (pin / 10) g) (1 <<< (pin % 10 * 3))) g

  -- `set_output` of serialsid.c
  unfoldable pub set_output : ℕ → G → G
  unfolding inp_gpio out_gpio
  set_output pin g = out_gpio pin (inp_gpio pin g)
