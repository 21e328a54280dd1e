-- ===== src/Runner/Sounds.antt =====
-- A command on its way through the SID thread, from `sidWrite` to the pins.
use sid_pi.Base.{ℕ, ◌%◌, ◌<◌, ◌≡◌, ◌≢◌, refl, sym, subst, ap, ◌∙◌, arith, Option, none, some, []}
use sid_pi.Bits.Digits.{bit}
use sid_pi.Pins.{Gpio, Drives, cs, present}
use sid_pi.Pins.Shows.{data_pin, addr_pin, write_sid_lem}
use sid_pi.Runner.{Runner, Timeval, Action, pause, play, sid_write, thread_round}
use sid_pi.Runner.Commands.{Holds, command}
use sid_pi.Runner.Queue.{sid_write_room, thread_round_plays}

-- The pins at the moment at which an action takes CS low, if it does.
abbrev pub latched : {G : Type 0} → Gpio G → Action → G → Option G
latched io pause g = none
latched io (play slept reg val) g = some (present io reg val g)

playback_kept :
    (r : Runner) (a b c d : ℕ) → (sid_write r a b c d).is_playback_ready ≡ r.is_playback_ready
unfolding sid_write
playback_kept r a b c d = refl

module _ {G : Type 0} (io : Gpio G) (law : Drives io) where
  open law use {level}

  -- A command that `sidWrite` puts in an empty FIFO, with playback on, comes out on the pins: the next round of
  -- `sidThread` leaves the FIFO empty and takes CS low with each line of the data bus at its bit of the value and each
  -- of the address bus at its bit of the register.
  pub sid_write_sounds :
      (t1 t2 : Timeval) (r : Runner) (reg value cycle_high cycle_low : ℕ) (g : G) (j i : ℕ)
      → Holds r.fifo []
      → r.is_playback_ready ≢ 0
      → j < 8
      → i < 5
      → let (action, r') = thread_round t1 t2 (sid_write r reg value cycle_high cycle_low) in
        Holds r'.fifo []
        × ((g' : G) × (latched io action g ≡ some g')
            × (level g' (data_pin j) ≡ bit j (value % 256))
            × (level g' (addr_pin i) ≡ bit i (reg % 32))
            × (level g' cs ≡ 0))
  sid_write_sounds t1 t2 r reg value high low g j i empty on hj hi =
      let s = sid_write r reg value high low in
      let c = command reg value high low in
      let held = sid_write_room r [] reg value high low empty (omega arith) in
      let still_on : s.is_playback_ready ≢ 0 =
        λ e. on (omega (arith, playback_kept r reg value high low, e)) in
      let (f, none_left, step) = thread_round_plays t1 t2 s c [] held still_on in
      let (on_data, on_addr, on_cs, done_high) = write_sid_lem io law c.reg c.value g j i hj hi in
      let data_cut : value % 256 % 256 ≡ value % 256 = omega arith in
      let reg_cut : reg % 256 % 32 ≡ reg % 32 = omega arith in
      (
        subst (λ x. Holds x.1.fifo []) (sym step) none_left,
        (
          present io c.reg c.value g,
          ap (λ x. latched io x.0 g) step,
          on_data ∙ ap (bit j) data_cut,
          on_addr ∙ ap (bit i) reg_cut,
          on_cs,
        ),
      )
