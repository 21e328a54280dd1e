-- ===== src/Setup/Chip.antt =====
-- The registers of the pins in `setupSid`, which gets to them by `setPinsToOutput` alone.
use sid_pi.Base.{◌≡◌, Option-cases, inl, inr, pos}
use sid_pi.Fifo.{init_fifo}
use sid_pi.Runner.{buffer_size}
use sid_pi.Pins.{Gpio}
use sid_pi.Pins.Select.{set_pins_to_output}
use sid_pi.Clock.{Double}
use sid_pi.Setup.{Host, Env, start_chip, setup_sid}

-- Registers on which `setPinsToOutput` does the same give the same set-up.
pub setup_sid-by_pins :
    {G D : Type 0} (io io' : Gpio G) (d : Double D) (env : Env) (s : Host G)
    → set_pins_to_output io' s.pins ≡ set_pins_to_output io s.pins
    → setup_sid io' d env s ≡ setup_sid io d env s
unfolding setup_sid start_chip
setup_sid-by_pins io io' d env s same =
    elim (Option-cases (init_fifo env.malloc (pos buffer_size) s.live).0) [
      | inl e ↦ rw e
      | inr (f, e) ↦ rw (e, same)
    ]
