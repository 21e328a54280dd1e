-- ===== src/Clock.antt =====
-- The clock of the chip on GPIO 4: `startSidClk` of sidpiserver/src/sidrunnerthread.c and of
-- module/src/sidpi.c, and `start_sid_clock` of sidpiserver/src/serialsid.c.
pub mod Divisor
pub mod Sample
mod Tests
use sid_pi.Base.{
  ℕ, ◌+◌, ◌*◌, ◌/◌, ◌%◌, ◌^◌, ◌≤◌, ◌<◌, ◌≡◌, Bool, true, false, Option, none, some, List, [], ◌∷◌,
  bit_and, bit_or, ltb, ◌<<<◌, ◌==◌, if◌then◌else◌,
}

-- What the code does with a `double`.
pub record Double (D : Type 0) : Type 0 where
  pub of_int : ℕ → D
  pub mul : D → D → D
  pub div : D → D → D
  -- the cast to `int`
  pub to_int : D → ℕ

-- What it relies on: with 53 bits of precision, a product and a quotient of whole numbers that small are
-- cut to the whole number below.
pub record IsPrecise {D : Type 0} (d : Double D) : Type 0 where
  pub cut :
      (a b c : ℕ)
      → 0 < c
      → a * b + c ≤ 2 ^ 53
      → d.to_int (d.div (d.mul (d.of_int a) (d.of_int b)) (d.of_int c)) ≡ a * b / c

-- A store to a word of the clock manager or of the timer.
pub data Access : Type 0 where
  clock_word timer_word : (n word : ℕ) → Access

-- `while ((*(gpio_clock.addr + 28) & 0x80) != 0);` over what the reads give: whether it is past the loop
abbrev pub is_idle : List ℕ → Bool
is_idle [] = false
is_idle (word ∷ words) = if bit_and word 0x80 == 0 then true else is_idle words

-- `BCM_PASSWORD`, `GPIO_CLOCK_SOURCE`
abbrev pub bcm_password : ℕ
bcm_password = 0x5A000000

abbrev pub clock_source : ℕ
clock_source = 1

abbrev pub oscillator : ℕ
oscillator = 19200000

-- `divi`, at most 4095
abbrev pub whole_part : ℕ → ℕ
whole_part freq = if ltb 4095 (oscillator / freq) then 4095 else oscillator / freq

abbrev pub divisor_word : ℕ → ℕ → ℕ
divisor_word divi divf = bit_or (bit_or bcm_password (divi <<< 12)) divf

-- The stores, those after the wait only if it ends.
unfoldable pub program_clock : ℕ → ℕ → List ℕ → List Access
program_clock freq divf words =
    clock_word 28 (bit_or bcm_password clock_source)
    ∷ (if is_idle words
        then clock_word 29 (divisor_word (whole_part freq) divf)
          ∷ clock_word 28 (bit_or (bit_or bcm_password 0x10) clock_source)
          ∷ timer_word 0x102 0x280
          ∷ timer_word 0x107 0xF9
          ∷ []
        else [])

-- `startSidClk` of sidrunnerthread.c, with `divf = (int) ((double) divr * 4096.0 / 19200000.0)`
unfoldable pub start_sid_clk : {D : Type 0} → Double D → ℕ → List ℕ → List Access
unfolding program_clock
start_sid_clk d freq words =
    let divr = oscillator % freq in
    program_clock freq
      (d.to_int (d.div (d.mul (d.of_int divr) (d.of_int 4096)) (d.of_int 19200000))) words

-- `start_sid_clock` of serialsid.c, which has the same body
unfoldable pub start_sid_clock : {D : Type 0} → Double D → ℕ → List ℕ → List Access
unfolding program_clock
start_sid_clock d freq words =
    let divr = oscillator % freq in
    program_clock freq
      (d.to_int (d.div (d.mul (d.of_int divr) (d.of_int 4096)) (d.of_int 19200000))) words

-- `startSidClk` of sidpi.c, with `divf = (int) (divr * 4096 / 19200000)` in `int`, or none where the product
-- is out of its range
unfoldable pub start_sid_clk_int : ℕ → List ℕ → Option (List Access)
unfolding program_clock
start_sid_clk_int freq words =
    let divr = oscillator % freq in
    if ltb (divr * 4096) (2 ^ 31)
    then some (program_clock freq (divr * 4096 / 19200000) words)
    else none
