-- ===== src/Kernel/Sounds.antt =====
-- A command on its way through the driver, from the device file to the pins.
use sid_pi.Base.{
  ℕ, ◌+◌, ◌*◌, ◌%◌, ◌<◌, ◌≡◌, ap, ◌∙◌, arith, Bool, true, false, some, List, [], ◌∷◌, ◌++◌, length,
  ltb,
}
use sid_pi.Bits.Digits.{bit}
use sid_pi.Pins.{Gpio, Drives, cs, present}
use sid_pi.Pins.Shows.{data_pin, addr_pin, write_sid_lem}
use sid_pi.Kernel.{Kfifo, Behaves, Driver, told, acts, slowed, thread_round}
use sid_pi.Kernel.Calls.{Fortune, answered, size, device_write}
use sid_pi.Kernel.Delay.{thread_round_lem}
use sid_pi.Kernel.Drift.{IsGranted, device_write_room}
use sid_pi.Kernel.Chip.{generate_pin_tables, latched}
use sid_pi.Kernel.Tables.{present_par-present}

module _ {F G : Type 0} (k : Kfifo F) (b : Behaves k) (speedfix : Bool) (io : Gpio G)
    (law : Drives io) where
  open b use {contents}
  open law use {level}

  -- A command that is written to the device value first, then the register, below 32, and the two bytes of the cycles,
  -- comes out on the pins: with the FIFO empty, no call going wrong, and no round of the kernel thread between its
  -- bytes, `device_write` takes the four, and the next round empties the FIFO and takes CS low with each line of the
  -- data bus at its bit of the value and each of the address bus at its bit of the register.
  pub device_write_sounds :
      (w : Fortune) (live : ℕ) (d : Driver F) (stale : List ℕ) (val reg low high : ℕ) (g : G)
      (j i : ℕ)
      → IsGranted w
      → contents d.msg_fifo ≡ []
      → reg < 32
      → low < 256
      → high < 256
      → j < 8
      → i < 5
      → (d' : Driver F) × (g' : G) × (device_write k speedfix w (val ∷ reg ∷ low ∷ high ∷ []) live d
          ≡ answered (size 4) live d')
        × (latched io generate_pin_tables (thread_round k speedfix false stale d').0 g ≡ some g')
        × (contents (thread_round k speedfix false stale d').1.msg_fifo ≡ [])
        × (level g' (data_pin j) ≡ bit j (val % 256))
        × (level g' (addr_pin i) ≡ bit i reg)
        × (level g' cs ≡ 0)
  device_write_sounds w live d stale val reg low high g j i granted empty r l h hj hi =
      let bytes = val ∷ reg ∷ low ∷ high ∷ [] in
      let none_in = ap length empty in
      let (d', done, inside, counted) =
        device_write_room k b speedfix w bytes live d granted
          (λ e. absurd (omega (arith, ap length e))) (omega arith) in
      let (deed, left) =
        thread_round_lem k b speedfix false stale d' val reg low high []
          (inside ∙ ap (λ t. t ++ bytes) empty) l h in
      let is_reg : told reg val ≡ some (reg, val) =
        (let e : ltb reg 32 ≡ true = ground arith in rw e) in
      let (on_data, on_addr, on_cs, done_high) = write_sid_lem io law reg val g j i hj hi in
      let same : reg % 32 ≡ reg = omega arith in
      (
        d',
        present io reg val g,
        done,
        ap (λ t. latched io generate_pin_tables t g)
              (deed ∙ ap (acts (slowed speedfix (high * 256 + low))) is_reg)
            ∙ ap some (present_par-present io reg val g),
        left,
        on_data,
        on_addr ∙ ap (bit i) same,
        on_cs,
      )
