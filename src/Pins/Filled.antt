-- ===== src/Pins/Filled.antt =====
-- `generatePinTables` of sidpiserver/src/sidrunnerthread.c as it fills its two tables, and `writeSid` as it reads them.
use sid_pi.Base.{
  ℕ, zero, suc, ◌+◌, ◌%◌, ◌<◌, ◌≡◌, ap, ◌∙◌, arith, List, [], ◌∷◌, get_or, bit_and, not32, ◌<<<◌,
}
use sid_pi.Pins.{Gpio, data_pins, addr_pins, cs, present}

-- `dataPins` and `addrPins`
pub record PinTables : Type 0 where
  pub data_table : List ℕ
  pub addr_table : List ℕ

-- `for (i = 0; i < n; i++) table[i] = row(i);`, from some `i` on
unfoldable pub table_of : (ℕ → ℕ) → ℕ → ℕ → List ℕ
table_of row zero i = []
table_of row (suc n) i = row i ∷ table_of row n (suc i)

unfoldable pub generate_pin_tables : PinTables
generate_pin_tables = record {
  data_table = table_of data_pins 256 0;
  addr_table = table_of addr_pins 32 0;
}

module _ {G : Type 0} (io : Gpio G) (t : PinTables) where
  -- The stores of `writeSid` up to the one that takes CS low.
  unfoldable pub present_from : ℕ → ℕ → G → G
  present_from reg val g =
      let addr_row = λ (i : ℕ). get_or t.addr_table i 0 in
      let data_row = λ (i : ℕ). get_or t.data_table i 0 in
      let g1 = io.store 7 (addr_row (reg % 32)) g in
      let g2 = io.store 10 (bit_and (not32 (addr_row (reg % 32))) (addr_row 31)) g1 in
      let g3 = io.store 7 (data_row (val % 256)) g2 in
      let g4 = io.store 10 (bit_and (not32 (data_row (val % 256))) (data_row 255)) g3 in
      io.store 10 (1 <<< cs) g4

get_or-table_of : (row : ℕ → ℕ) (n i k : ℕ) → k < n → get_or (table_of row n i) k 0 ≡ row (i + k)
unfolding table_of
get_or-table_of row zero i k h = absurd (omega arith)
get_or-table_of row (suc n) i zero h = ap row (let e : i ≡ i + 0 = omega arith in e)
get_or-table_of row (suc n) i (suc k) h =
    get_or-table_of row n (suc i) k (omega arith)
    ∙ ap row (let e : suc i + k ≡ i + suc k = omega arith in e)

pub get_or-table : (row : ℕ → ℕ) (n k : ℕ) → k < n → get_or (table_of row n 0) k 0 ≡ row k
get_or-table row n k h = get_or-table_of row n 0 k h ∙ ap row (let e : 0 + k ≡ k = omega arith in e)

-- The stores that put on the pins what the tables hold for the register, for the value, and at their ends.
abbrev pub stores : {G : Type 0} → Gpio G → (addr addr_end byte byte_end : ℕ) → G → G
stores io addr addr_end byte byte_end g =
    let g1 = io.store 7 addr g in
    let g2 = io.store 10 (bit_and (not32 addr) addr_end) g1 in
    let g3 = io.store 7 byte g2 in
    let g4 = io.store 10 (bit_and (not32 byte) byte_end) g3 in io.store 10 (1 <<< cs) g4

-- With the tables filled, what is read from them is what `present` takes from the functions.
pub present_from-present :
    {G : Type 0} (io : Gpio G) (reg val : ℕ) (g : G)
    → present_from io generate_pin_tables reg val g ≡ present io reg val g
unfolding present_from present generate_pin_tables
present_from-present io reg val g =
    let addr_same = get_or-table addr_pins 32 (reg % 32) (omega arith) in
    let addr_end_same = get_or-table addr_pins 32 31 (omega arith) in
    let byte_same = get_or-table data_pins 256 (val % 256) (omega arith) in
    let byte_end_same = get_or-table data_pins 256 255 (omega arith) in
    λ i. stores io (addr_same i) (addr_end_same i) (byte_same i) (byte_end_same i) g
