-- ===== src/Pins/Words.antt =====
-- Which words the program stores in the registers of the pins.
use sid_pi.Base.{
  ℕ, ◌<◌, ◌^◌, ◌≡◌, refl, ap, ◌∙◌, arith, true, List, [], ◌∷◌, ltb, if◌then◌else◌, get_or, bit_and,
  bit_or, not32, ◌<<<◌, ◌%◌,
}
use sid_pi.Bits.Masks.{bit_and-lt, bit_or-lt}
use sid_pi.Pins.{Gpio, data_list, addr_list, cs, data_pins, addr_pins, present, write_sid}
use sid_pi.Pins.Tables.{data_pins-lt, addr_pins-lt}
use sid_pi.Pins.Select.{
  gpio_to_gpfsel, gpio_to_shift, set_field, set_mode, set_outputs, set_pins_to_output, clk, rw_pin,
  res_pin,
}

-- The same registers, without what is no word of 32 bits: a store of such a number does nothing.
abbrev pub of_words : {G : Type 0} → Gpio G → Gpio G
of_words io = record {
  store = λ n w g. if ltb w (2 ^ 32) then io.store n w g else g;
  load = io.load;
}

-- The function of a pin fits into its word.
abbrev Fits : ℕ → List ℕ → Type 0
Fits mode [] = Unit {0}
Fits mode (p ∷ ps) = (mode <<< get_or gpio_to_shift p 0 < 2 ^ 32) × Fits mode ps

module _ {G : Type 0} (io : Gpio G) where
  store-of_words : (n w : ℕ) (g : G) → w < 2 ^ 32 → (of_words io).store n w g ≡ io.store n w g
  store-of_words n w g h = let e : ltb w (2 ^ 32) ≡ true = ground arith in rw e

  pub write_sid-of_words :
      (reg val : ℕ) (g : G) → write_sid (of_words io) reg val g ≡ write_sid io reg val g
  unfolding write_sid present
  write_sid-of_words reg val g =
      let addr_low = ltb_word (addr_pins (reg % 32)) (addr_pins-lt (reg % 32)) in
      let addr_high =
        ltb_word (bit_and (not32 (addr_pins (reg % 32))) (addr_pins 31))
          (bit_and-lt 32 (not32 (addr_pins (reg % 32))) (addr_pins 31) (omega arith)) in
      let data_low = ltb_word (data_pins (val % 256)) (data_pins-lt (val % 256)) in
      let data_high =
        ltb_word (bit_and (not32 (data_pins (val % 256))) (data_pins 255))
          (bit_and-lt 32 (not32 (data_pins (val % 256))) (data_pins 255) (omega arith)) in
      rw (addr_low, addr_high, data_low, data_high)
    where
      ltb_word : (w : ℕ) → w < 2 ^ 32 → ltb w (2 ^ 32) ≡ true
      ltb_word w h = ground arith

  module _ (load_word : (n : ℕ) (g : G) → io.load n g < 2 ^ 32) where
    set_field-of_words :
        (n shift mode : ℕ) (g : G)
        → mode <<< shift < 2 ^ 32
        → set_field (of_words io) n shift mode g ≡ set_field io n shift mode g
    unfolding set_field
    set_field-of_words n shift mode g h =
        store-of_words n (bit_or (bit_and (io.load n g) (not32 (7 <<< shift))) (mode <<< shift)) g (
          bit_or-lt 32 (bit_and (io.load n g) (not32 (7 <<< shift))) (mode <<< shift)
            (bit_and-lt 32 (io.load n g) (not32 (7 <<< shift)) (load_word n g)) h)

    set_outputs-of_words :
        (ps : List ℕ) (g : G) → Fits 1 ps → set_outputs (of_words io) ps g ≡ set_outputs io ps g
    unfolding set_outputs
    set_outputs-of_words [] g l = refl
    set_outputs-of_words (p ∷ ps) g l =
        ap (set_outputs (of_words io) ps)
          (set_field-of_words (get_or gpio_to_gpfsel p 0) (get_or gpio_to_shift p 0) 1 g l.0)
        ∙ set_outputs-of_words ps (set_mode io p 1 g) l.1

    set_mode-of_words :
        (p mode : ℕ) {g g' : G}
        → Fits mode (p ∷ [])
        → g ≡ g'
        → set_mode (of_words io) p mode g ≡ set_mode io p mode g'
    set_mode-of_words p mode {g' = g'} l e =
        ap (set_mode (of_words io) p mode) e
        ∙ set_field-of_words (get_or gpio_to_gpfsel p 0) (get_or gpio_to_shift p 0) mode g' l.0

    pub set_pins_to_output-of_words :
        (g : G) → set_pins_to_output (of_words io) g ≡ set_pins_to_output io g
    unfolding set_pins_to_output
    set_pins_to_output-of_words g =
        set_mode-of_words clk 4 (omega arith, tt)
          (set_mode-of_words res_pin 1 (omega arith, tt)
            (set_mode-of_words rw_pin 1 (omega arith, tt)
              (set_mode-of_words cs 1 (omega arith, tt)
                (ap (set_outputs (of_words io) addr_list)
                    (set_outputs-of_words data_list g (omega arith))
                  ∙ set_outputs-of_words addr_list (set_outputs io data_list g) (omega arith)))))
