-- ===== src/Kernel/Client.antt =====
-- player/app2.js: the bytes that its `writeSid` writes to /dev/sid, and what module/src/sidpi.c makes of them.
use sid_pi.Base.{
  ℕ, ◌%◌, ◌<◌, ◌≡◌, refl, ap, ◌∙◌, arith, Bool, true, false, some, List, [], ◌∷◌, ◌++◌, length,
  bit_and, ◌↔◌,
}
use sid_pi.Bits.Fields.{bit_and_mask}
use sid_pi.Kernel.{Kfifo, Behaves, Driver, acts, told, slowed, thread_round}
use sid_pi.Kernel.Calls.{Fortune, answered, size, device_write}
use sid_pi.Kernel.Delay.{thread_round_lem}
use sid_pi.Kernel.Drift.{IsGranted, device_write_room}

-- `buf` of `writeSid(reg, value)`
unfoldable pub client_bytes : ℕ → ℕ → List ℕ
client_bytes reg value = bit_and reg 0x1f ∷ bit_and value 0xff ∷ 0 ∷ 0 ∷ []

no_wait : (speedfix : Bool) → slowed speedfix 0 ≡ 0
no_wait true = refl
no_wait false = refl

-- The driver takes the first byte for the value and the second for the register.
told-swapped :
    (reg value : ℕ)
    → reg < 32
    → (acts 0 (told value reg) ≡ acts 0 (some (reg, value))) ↔ (reg ≡ value)
told-swapped reg value h = ground arith

module _ {F : Type 0} (k : Kfifo F) (b : Behaves k) (speedfix : Bool) where
  open b use {contents}

  -- The client of the device and the driver do not agree on the order of a command: `writeSid(reg, value)` of the client
  -- puts the register first, and the driver takes it for the value. With the FIFO empty, no call going wrong and no
  -- round of the kernel thread between its bytes, the four bytes are taken, and the next round writes
  -- `reg & 0x1f` to the register `value & 0xff`, or nothing where that is above 31: the client gets the command
  -- that it means exactly where the two numbers are the same.
  pub client_write_swapped :
      (w : Fortune) (live : ℕ) (d : Driver F) (stale : List ℕ) (reg value : ℕ)
      → IsGranted w
      → contents d.msg_fifo ≡ []
      → (d' : Driver F) × (device_write k speedfix w (client_bytes reg value) live d
          ≡ answered (size 4) live d')
        × (let (deed, d2) = thread_round k speedfix false stale d' in
            (deed ≡ acts 0 (told (value % 256) (reg % 32)))
            × (contents d2.msg_fifo ≡ [])
            × ((deed ≡ acts 0 (some (reg % 32, value % 256))) ↔ (reg % 32 ≡ value % 256)))
  unfolding client_bytes
  client_write_swapped w live d stale reg value granted empty =
      let bytes = client_bytes reg value in
      let (d', done, inside, counted) =
        device_write_room k b speedfix w bytes live d granted
          (λ e. absurd (omega (arith, ap length e))) (omega (arith, ap length empty)) in
      let (deed, left) =
        thread_round_lem k b speedfix false stale d' (bit_and reg 0x1f) (bit_and value 0xff) 0 0 []
          (inside ∙ ap (λ t. t ++ bytes) empty) (omega arith) (omega arith) in
      let low : bit_and reg 0x1f ≡ reg % 32 = bit_and_mask 5 reg in
      let byte : bit_and value 0xff ≡ value % 256 = bit_and_mask 8 value in
      let made : (thread_round k speedfix false stale d').0
          ≡ acts 0 (told (value % 256) (reg % 32)) =
        deed ∙ rw (low, byte, no_wait speedfix) refl in
      (d', done, (made, left, rw made (told-swapped (reg % 32) (value % 256) (omega arith))))
