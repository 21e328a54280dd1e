-- ===== src/Serial/Sweep.antt =====
-- sidpiserver/src/testsid.c: the test program of the serial chip, which writes every value to every register.
pub mod Frames
use sid_pi.Base.{ℕ, zero, suc, ◌+◌}
use sid_pi.Pins.{Gpio, Drives}
use sid_pi.Serial.{Line, write_sid}

module _ {G : Type 0} (io : Gpio G) (law : Drives io) where
  -- `for (j = 0; j < 256; j++) { write_sid(i, j); sleep(1); }`, from `j` on with so many rounds left
  unfoldable pub write_values : ℕ → ℕ → ℕ → Line G → Line G
  write_values zero i j s = s
  write_values (suc rounds) i j s = write_values rounds i (j + 1) (write_sid io law i j s)

  -- `for (i = n - 1; i >= 0; i--)` over it
  unfoldable pub write_registers : ℕ → Line G → Line G
  unfolding write_values
  write_registers zero s = s
  write_registers (suc i) s = write_registers i (write_values 256 i 0 s)

  -- The loops of `main`, after `setup_sid`.
  unfoldable pub main : Line G → Line G
  unfolding write_registers
  main s = write_registers 32 s
