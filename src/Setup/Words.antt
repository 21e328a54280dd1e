-- ===== src/Setup/Words.antt =====
-- The words that the server stores in registers.
use sid_pi.Base.{ℕ, ◌≤◌, ◌<◌, ◌^◌, ◌≡◌, arith, Bool-cases, inl, inr, List, [], ◌∷◌, bit_or, ◌<<<◌}
use sid_pi.Bits.Masks.{bit_or-lt}
use sid_pi.Pins.{Gpio, write_sid}
use sid_pi.Pins.Words.{of_words, write_sid-of_words, set_pins_to_output-of_words}
use sid_pi.Clock.{
  Double, IsPrecise, Access, clock_word, timer_word, is_idle, bcm_password, whole_part,
  divisor_word, program_clock, start_sid_clk,
}
use sid_pi.Clock.Divisor.{fraction, fraction-lt, whole_part-lt, exact_cut}
use sid_pi.Setup.Chip.{setup_sid-by_pins}
use sid_pi.Setup.{Host, Env, setup_sid}

abbrev pub word_of : Access → ℕ
word_of (clock_word n word) = word
word_of (timer_word n word) = word

abbrev pub AllWords : List Access → Type 0
AllWords [] = Unit {0}
AllWords (a ∷ rest) = (word_of a < 2 ^ 32) × AllWords rest

divisor_word-lt : (divi divf : ℕ) → divi < 4096 → divf < 4096 → divisor_word divi divf < 2 ^ 32
divisor_word-lt divi divf h l =
    bit_or-lt 32 (bit_or bcm_password (divi <<< 12)) divf
      (bit_or-lt 32 bcm_password (divi <<< 12) (omega arith) (omega arith)) (omega arith)

program_clock-AllWords :
    (freq divf : ℕ) (words : List ℕ) → divf < 4096 → AllWords (program_clock freq divf words)
unfolding program_clock
program_clock-AllWords freq divf words l = elim (Bool-cases (is_idle words)) [
  | inl e ↦ rw e (
    omega arith,
    (
      divisor_word-lt (whole_part freq) divf (whole_part-lt freq) l,
      (omega arith, (omega arith, (omega arith, tt))),
    ),
  )
  | inr e ↦ rw e (omega arith, tt)
]

start_sid_clk-AllWords :
    {D : Type 0} (d : Double D) (freq : ℕ) (words : List ℕ)
    → IsPrecise d
    → 0 < freq
    → freq ≤ 19200000
    → AllWords (start_sid_clk d freq words)
unfolding start_sid_clk
start_sid_clk-AllWords d freq words p h l =
    rw (exact_cut d p freq h l)
      (program_clock-AllWords freq (fraction freq) words (fraction-lt freq h l))

module _ {G D : Type 0} (io : Gpio G) (d : Double D)
    (load_word : (n : ℕ) (g : G) → io.load n g < 2 ^ 32) where
  -- What the server stores in a register is a word of 32 bits, so that no bit is cut off: on registers that read as
  -- such words, `setupSid` and `writeSid` make no store of any other number to the registers of the pins; nor
  -- does `startSidClk` to the clock manager and the timer, whatever frequency from 1 Hz to that of the oscillator it is
  -- called for.
  pub server_words :
      (env : Env) (s : Host G) (reg val freq : ℕ) (g : G)
      → IsPrecise d
      → 0 < freq
      → freq ≤ 19200000
      → (setup_sid (of_words io) d env s ≡ setup_sid io d env s)
        × (write_sid (of_words io) reg val g ≡ write_sid io reg val g)
        × AllWords (start_sid_clk d freq env.words)
  server_words env s reg val freq g p h l = (
    setup_sid-by_pins io (of_words io) d env s (set_pins_to_output-of_words io load_word s.pins),
    write_sid-of_words io reg val g,
    start_sid_clk-AllWords d freq env.words p h l,
  )
