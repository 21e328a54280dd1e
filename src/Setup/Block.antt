-- ===== src/Setup/Block.antt =====
-- The registers that the server touches, against the blocks that it has mapped.
use sid_pi.Base.{ℕ, ◌*◌, ◌≡◌, refl, Bool, true, Bool-cases, inl, inr, List, [], ◌∷◌}
use sid_pi.Pins.{Gpio, write_sid}
use sid_pi.Pins.Block.{is_inside, within, write_sid-within, set_pins_to_output-within}
use sid_pi.Clock.{Double, Access, clock_word, timer_word, is_idle, program_clock, start_sid_clk}
use sid_pi.Setup.Chip.{setup_sid-by_pins}
use sid_pi.Setup.{Host, Env, setup_sid}

-- `BLOCK_SIZE`
abbrev pub block_size : ℕ
block_size = 4 * 1024

abbrev pub is_access_inside : ℕ → Access → Bool
is_access_inside size (clock_word n word) = is_inside size n
is_access_inside size (timer_word n word) = is_inside size n

abbrev pub AllInside : ℕ → List Access → Type 0
AllInside size [] = Unit {0}
AllInside size (a ∷ rest) = (is_access_inside size a ≡ true) × AllInside size rest

start_sid_clk-AllInside :
    {D : Type 0} (d : Double D) (freq : ℕ) (words : List ℕ)
    → AllInside block_size (start_sid_clk d freq words)
unfolding start_sid_clk program_clock
start_sid_clk-AllInside d freq words = elim (Bool-cases (is_idle words)) [
  | inl e ↦ rw e (refl, (refl, (refl, (refl, (refl, tt)))))
  | inr e ↦ rw e (refl, tt)
]

module _ {G D : Type 0} (io : Gpio G) (d : Double D) where
  -- The server touches no byte outside the blocks that it maps: for `setupSid` and `writeSid` it makes no difference
  -- whether there are any registers of the pins beyond the 4096 bytes of the block, and each store to the clock manager
  -- and to the timer lies in the block of its peripheral.
  pub server_inside :
      (env : Env) (s : Host G) (reg val : ℕ) (g : G)
      → (setup_sid (within block_size io) d env s ≡ setup_sid io d env s)
        × (write_sid (within block_size io) reg val g ≡ write_sid io reg val g)
        × AllInside block_size (start_sid_clk d 1000000 env.words)
  server_inside env s reg val g = (
    setup_sid-by_pins io (within block_size io) d env s (set_pins_to_output-within io s.pins),
    write_sid-within io reg val g,
    start_sid_clk-AllInside d 1000000 env.words,
  )
