-- ===== src/Kernel/Tables.antt =====
-- The tables of the driver against those of the server.
use Prim.Native.Nat.{bit_or-bitwise}
use sid_pi.Clock.{Double, IsPrecise, oscillator, start_sid_clk, start_sid_clk_int}
use sid_pi.Clock.Divisor.{start_sid_clk_int-start_sid_clk}
use sid_pi.Base.{
  some, ◌≤◌, ◌*◌, List, [], ◌∷◌, ℕ, ◌/◌, ◌%◌, ◌^◌, ◌<◌, ◌≡◌, refl, ap, ◌∙◌, arith, bit_and, bit_or,
  ◌<<<◌, ◌>>>◌, get_or,
}
use sid_pi.Pins.{data_list, addr_list, Gpio, gather, data_pins, addr_pins, cs, present, write_sid}
use sid_pi.Pins.Filled.{table_of, get_or-table, stores}
use sid_pi.Pins.Select.{set_mode, set_outputs, set_pins_to_output, clk, rw_pin, res_pin}
use sid_pi.Kernel.Chip.{
  set_mode2, set_outputs2, set_pins_to_output2, data_row, addr_row, generate_pin_tables,
  present_par, write_sid_par,
}

-- the first bit of a row, which `gather` adds to an empty one
first_bit : (i p : ℕ) → bit_or 0 ((bit_and i (2 ^ 0) >>> 0) <<< p) ≡ bit_and i 1 <<< p
first_bit i p =
    zero_or ((bit_and i 1 >>> 0) <<< p)
    ∙ ap (λ (t : ℕ). t <<< p) (let e : bit_and i 1 / 1 ≡ bit_and i 1 = omega arith in e)
  where
    zero_or : (b : ℕ) → bit_or 0 b ≡ b
    zero_or b = omega (arith, bit_or-bitwise 0 b)

data_row_lem : (i : ℕ) → data_row i ≡ data_pins i
unfolding data_row data_pins gather
data_row_lem i = rw (first_bit i 11)

addr_row_lem : (i : ℕ) → addr_row i ≡ addr_pins i
unfolding addr_row addr_pins gather
addr_row_lem i = rw (first_bit i 23)

-- `writeSidPar`, with the tables that `generatePinTables` of the driver fills, makes the stores of `writeSid`.
pub present_par-present :
    {G : Type 0} (io : Gpio G) (reg val : ℕ) (g : G)
    → present_par io generate_pin_tables reg val g ≡ present io reg val g
unfolding present_par present generate_pin_tables
present_par-present io reg val g =
    let at_addr : (k : ℕ) → k < 32 → get_or (table_of addr_row 32 0) k 0 ≡ addr_pins k =
      λ k h. get_or-table addr_row 32 k h ∙ addr_row_lem k in
    let at_data : (k : ℕ) → k < 256 → get_or (table_of data_row 256 0) k 0 ≡ data_pins k =
      λ k h. get_or-table data_row 256 k h ∙ data_row_lem k in
    let addr_same = at_addr (reg % 32) (omega arith) in
    let addr_end_same = at_addr 31 (omega arith) in
    let byte_same = at_data (val % 256) (omega arith) in
    let byte_end_same = at_data 255 (omega arith) in
    λ i. stores io (addr_same i) (addr_end_same i) (byte_same i) (byte_end_same i) g

set_outputs2-set_outputs :
    {G : Type 0} (io : Gpio G) (pins : List ℕ) (g : G)
    → set_outputs2 io pins g ≡ set_outputs io pins g
unfolding set_outputs2 set_outputs
set_outputs2-set_outputs io [] g = refl
set_outputs2-set_outputs io (p ∷ ps) g = set_outputs2-set_outputs io ps (set_mode2 io p 1 g)

-- `setPinsToOutput2` makes the loads and the stores of `setPinsToOutput`.
pub set_pins_to_output2-set_pins_to_output :
    {G : Type 0} (io : Gpio G) (g : G) → set_pins_to_output2 io g ≡ set_pins_to_output io g
unfolding set_pins_to_output2 set_pins_to_output
set_pins_to_output2-set_pins_to_output io g =
    ap (λ x. set_mode io clk 4 (set_mode io res_pin 1 (set_mode io rw_pin 1 (set_mode io cs 1 x))))
      (ap (set_outputs2 io addr_list) (set_outputs2-set_outputs io data_list g)
        ∙ set_outputs2-set_outputs io addr_list (set_outputs io data_list g))

-- The driver does to the chip what the server does: `writeSidPar`, with the tables that its `generatePinTables` fills,
-- makes the stores of `writeSid`, `setPinsToOutput2` the loads and the stores of `setPinsToOutput`, and `startSidClk`
-- of the one those of the other, for a frequency up to that of the oscillator where its product fits an `int`.
pub driver_as_server :
    {G D : Type 0} (io : Gpio G) (d : Double D) (reg val freq : ℕ) (words : List ℕ) (g : G)
    → IsPrecise d
    → 0 < freq
    → freq ≤ 19200000
    → oscillator % freq * 4096 < 2 ^ 31
    → (write_sid_par io generate_pin_tables reg val g ≡ write_sid io reg val g)
      × (set_pins_to_output2 io g ≡ set_pins_to_output io g)
      × (start_sid_clk_int freq words ≡ some (start_sid_clk d freq words))
unfolding write_sid_par write_sid
driver_as_server io d reg val freq words g p h l fits = (
  ap (io.store 7 (1 <<< cs)) (present_par-present io reg val g),
  set_pins_to_output2-set_pins_to_output io g,
  start_sid_clk_int-start_sid_clk d freq words p h l fits,
)
