-- ===== src/Pins/Block.antt =====
-- Which bytes of the mapped memory the program touches.
use sid_pi.Base.{
  ℕ, ◌+◌, ◌*◌, ◌≡◌, refl, ap, ◌∙◌, arith, Bool, true, List, [], ◌∷◌, leb, if◌then◌else◌, get_or,
}
use sid_pi.Pins.{Gpio, data_list, addr_list, cs, present, write_sid}
use sid_pi.Pins.Select.{
  gpio_to_gpfsel, gpio_to_shift, set_field, set_mode, set_outputs, set_pins_to_output, clk, rw_pin,
  res_pin,
}

-- The word `n` lies in a block of so many bytes.
abbrev pub is_inside : ℕ → ℕ → Bool
is_inside size n = leb (4 * n + 4) size

-- The same registers, without those outside a block: a store to one does nothing, and a load gives 0.
abbrev pub within : {G : Type 0} → ℕ → Gpio G → Gpio G
within size io = record {
  store = λ n w g. if is_inside size n then io.store n w g else g;
  load = λ n g. if is_inside size n then io.load n g else 0;
}

-- The words of the pins have entries in the table.
abbrev Listed : List ℕ → Type 0
Listed [] = Unit {0}
Listed (p ∷ ps) = (is_inside 4096 (get_or gpio_to_gpfsel p 0) ≡ true) × Listed ps

module _ {G : Type 0} (io : Gpio G) where
  set_field-within :
      (n shift mode : ℕ) (g : G)
      → is_inside 4096 n ≡ true
      → set_field (within 4096 io) n shift mode g ≡ set_field io n shift mode g
  unfolding set_field
  set_field-within n shift mode g e = rw e

  set_outputs-within :
      (ps : List ℕ) (g : G) → Listed ps → set_outputs (within 4096 io) ps g ≡ set_outputs io ps g
  unfolding set_outputs
  set_outputs-within [] g l = refl
  set_outputs-within (p ∷ ps) g l =
      ap (set_outputs (within 4096 io) ps)
        (set_field-within (get_or gpio_to_gpfsel p 0) (get_or gpio_to_shift p 0) 1 g l.0)
      ∙ set_outputs-within ps (set_mode io p 1 g) l.1

  pub set_mode-within :
      (p mode : ℕ) {g g' : G}
      → Listed (p ∷ [])
      → g ≡ g'
      → set_mode (within 4096 io) p mode g ≡ set_mode io p mode g'
  set_mode-within p mode {g' = g'} l e =
      ap (set_mode (within 4096 io) p mode) e
      ∙ set_field-within (get_or gpio_to_gpfsel p 0) (get_or gpio_to_shift p 0) mode g' l.0

  pub write_sid-within :
      (reg val : ℕ) (g : G) → write_sid (within 4096 io) reg val g ≡ write_sid io reg val g
  unfolding write_sid present
  write_sid-within reg val g = refl

  pub set_pins_to_output-within :
      (g : G) → set_pins_to_output (within 4096 io) g ≡ set_pins_to_output io g
  unfolding set_pins_to_output
  set_pins_to_output-within g =
      set_mode-within clk 4 (refl, tt)
        (set_mode-within res_pin 1 (refl, tt)
          (set_mode-within rw_pin 1 (refl, tt)
            (set_mode-within cs 1 (refl, tt)
              (ap (set_outputs (within 4096 io) addr_list)
                  (set_outputs-within data_list g (ground arith))
                ∙ set_outputs-within addr_list (set_outputs io data_list g) (ground arith)))))
