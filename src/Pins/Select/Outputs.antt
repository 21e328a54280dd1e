-- ===== src/Pins/Select/Outputs.antt =====
-- The pins after `setPinsToOutput`, and the two ways of making a pin an output.
use sid_pi.Base.{
  ℕ, ◌*◌, ◌/◌, ◌%◌, ◌^◌, ◌<◌, ◌≡◌, refl, sym, ap, ap₂, ◌∙◌, arith, Bool, true, false, ◌||◌, List,
  [], ◌∷◌, ◌++◌, bit_and, bit_or, not32, ◌<<<◌, ◌==◌, if◌then◌else◌, get_or,
}
use sid_pi.Bits.Masks.{bit_and-lt}
use sid_pi.Pins.{Gpio, data_list, addr_list, cs}
use sid_pi.Pins.Select.{
  set_field, set_mode, set_outputs, set_pins_to_output, set_output, inp_gpio, out_gpio,
  gpio_to_gpfsel, gpio_to_shift, clk, rw_pin, res_pin,
}
use sid_pi.Pins.Select.Modes.{Keeps, mode_of, mode-set_field, replaced, replaced-lt}

abbrev pub among : ℕ → List ℕ → Bool
among q [] = false
among q (p ∷ ps) = (q == p) || among q ps

-- the pins that are to be outputs
abbrev pub outputs : List ℕ
outputs = data_list ++ (addr_list ++ (cs ∷ rw_pin ∷ res_pin ∷ []))

pub output_either :
    (a b : Bool) (m : ℕ) → (if b then 1 else if a then 1 else m) ≡ (if a || b then 1 else m)
output_either true true m = refl
output_either true false m = refl
output_either false b m = refl

-- The tables have the word and the place of the pin.
abbrev InTables : List ℕ → Type 0
InTables [] = Unit {0}
InTables (p ∷ ps) =
    ((get_or gpio_to_gpfsel p 0 ≡ p / 10) × (get_or gpio_to_shift p 0 ≡ 3 * (p % 10)) × (p < 60))
    × InTables ps

module _ {G : Type 0} (io : Gpio G) (law : Keeps io) where
  pub mode-set_mode :
      (p f : ℕ) (g : G) (q : ℕ)
      → InTables (p ∷ [])
      → f < 8
      → q < 60
      → mode_of io law (set_mode io p f g) q ≡ (if q == p then f else mode_of io law g q)
  mode-set_mode p f g q t low h =
      ap₂ (λ n s. mode_of io law (set_field io n s f g) q) t.0.0 t.0.1
      ∙ mode-set_field io law p f g q t.0.2 low h

  mode-set_outputs :
      (ps : List ℕ) (g : G) (q : ℕ)
      → InTables ps
      → q < 60
      → mode_of io law (set_outputs io ps g) q ≡ (if among q ps then 1 else mode_of io law g q)
  unfolding set_outputs
  mode-set_outputs [] g q t h = refl
  mode-set_outputs (p ∷ ps) g q t h =
      mode-set_outputs ps (set_mode io p 1 g) q t.1 h
      ∙ ap (λ m. if among q ps then 1 else m) (mode-set_mode p 1 g q (t.0, tt) (omega arith) h)
      ∙ output_either (q == p) (among q ps) (mode_of io law g q)

  -- After `setPinsToOutput` the clock pin has the function 4 (ALT0), each of the pins of the two buses, CS, RW
  -- and RES has the function 1 (output), and each other pin the function that it had.
  pub set_pins_to_output_lem :
      (g : G) (q : ℕ)
      → q < 60
      → mode_of io law (set_pins_to_output io g) q
        ≡ (if q == clk then 4 else if among q outputs then 1 else mode_of io law g q)
  unfolding set_pins_to_output set_outputs
  set_pins_to_output_lem g q h =
      mode-set_mode clk 4 (set_outputs io outputs g) q (omega arith) (omega arith) h
      ∙ ap (λ m. if q == clk then 4 else m) (mode-set_outputs outputs g q (omega arith) h)

  -- the two stores with the place of the field as `s`
  two_stores : ℕ → ℕ → G → G
  two_stores m s g =
      let g1 = io.store m (bit_and (io.load m g) (not32 (7 <<< s))) g in
      io.store m (bit_or (io.load m g1) (1 <<< s)) g1

  load-two_stores :
      (m s : ℕ) (g : G) (n : ℕ)
      → m < 6
      → n < 6
      → replaced s 1 (io.load m g) < 2 ^ 32
      → io.load n (two_stores m s g) ≡ io.load n (set_field io m s 1 g)
  unfolding two_stores set_field
  load-two_stores m s g n h l new_fits =
      let w = io.load m g in
      let input : ℕ = bit_and w (not32 (7 <<< s)) in
      let new : ℕ = replaced s 1 w in
      let input_fits : input < 2 ^ 32 = bit_and-lt 32 w (not32 (7 <<< s)) (law.load_word m g) in
      let here : (m == m) ≡ true = ground arith in
      let back : io.load m (io.store m input g) ≡ input =
        law.load_store m m input g h input_fits ∙ rw here in
      ap (λ t. io.load n (io.store m (bit_or t (1 <<< s)) (io.store m input g))) back
      ∙ (law.load_store n m new (io.store m input g) l new_fits
          ∙ ap (λ t. if n == m then new else t) (law.load_store n m input g l input_fits)
          ∙ twice (n == m) new input (io.load n g)
          ∙ sym (law.load_store n m new g l new_fits))
    where
      twice : (b : Bool) (x y z : ℕ) → (if b then x else if b then y else z) ≡ (if b then x else z)
      twice true x y z = refl
      twice false x y z = refl

  -- For every pin of the words 0 to 5: making it an output by `set_output` of serialsid.c, in two stores, leaves
  -- each of these words as the one store of `setPinsToOutput` would.
  pub set_output-set_field :
      (pin : ℕ) (g : G) (n : ℕ)
      → pin < 60
      → n < 6
      → io.load n (set_output io pin g) ≡ io.load n (set_field io (pin / 10) (3 * (pin % 10)) 1 g)
  unfolding set_output inp_gpio out_gpio two_stores
  set_output-set_field pin g n h l =
      let place : pin % 10 * 3 ≡ 3 * (pin % 10) = omega arith in
      ap (λ s. io.load n (two_stores (pin / 10) s g)) place
      ∙ load-two_stores (pin / 10) (3 * (pin % 10)) g n (omega arith) l (
          replaced-lt (pin % 10) 1 (io.load (pin / 10) g) (omega arith) (omega arith)
            (law.load_word (pin / 10) g))
