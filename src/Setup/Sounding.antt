-- ===== src/Setup/Sounding.antt =====
-- What the first `setupSid` makes of the hardware: pins, clock and tables with which a command is heard.
use sid_pi.Base.{ℕ, ◌+◌, ◌*◌, ◌%◌, ◌<◌, ◌≡◌, some, List, [], ◌∷◌, ◌++◌, ◌==◌, if◌then◌else◌}
use sid_pi.Bits.Digits.{bit}
use sid_pi.Fifo.{Fifo}
use sid_pi.Runner.Commands.{Holds}
use sid_pi.Pins.{Gpio, Drives, cs}
use sid_pi.Pins.Filled.{present_from}
use sid_pi.Pins.Select.{clk}
use sid_pi.Pins.Select.Modes.{Keeps, mode_of}
use sid_pi.Pins.Select.Outputs.{among, outputs}
use sid_pi.Pins.Shows.{data_pin, addr_pin}
use sid_pi.Clock.{Double, IsPrecise, Access, clock_word, timer_word}
use sid_pi.Setup.{Host}

-- The stores that make 1 MHz of the oscillator: the divisor is 19 and 42 of 4096 parts.
abbrev pub one_mhz : List Access
one_mhz =
    clock_word 28 0x5A000001
    ∷ clock_word 29 (0x5A000000 + 19 * 4096 + 42)
    ∷ clock_word 28 0x5A000011
    ∷ timer_word 0x102 0x280
    ∷ timer_word 0x107 0xF9
    ∷ []

module _ {G D : Type 0} (io : Gpio G) (law : Drives io) (keeps : Keeps io) (d : Double D)
    (p : IsPrecise d) where
  open law use {level}

  -- A host on which what is queued can be played and heard, `s` being the one before.
  pub record CanSound (s s' : Host G) : Type 0 where
    pub queue : Fifo
    pub fifo_at : s'.fifo ≡ some queue
    pub empty : Holds queue []
    pub function_of :
        (q : ℕ)
        → q < 60
        → mode_of io keeps s'.pins q
          ≡ (if q == clk then 4 else if among q outputs then 1 else mode_of io keeps s.pins q)
    pub clock_set : s'.accesses ≡ s.accesses ++ one_mhz
    pub heard :
        (reg val : ℕ) (g : G) (j i : ℕ)
        → j < 8
        → i < 5
        → let g' = present_from io s'.tables reg val g in
          (level g' (data_pin j) ≡ bit j (val % 256))
          × (level g' (addr_pin i) ≡ bit i (reg % 32))
          × (level g' cs ≡ 0)
