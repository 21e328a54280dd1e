-- ===== src/Kernel/Drift.antt =====
-- Two flaws of the driver: a command that is read before it is whole, and the counter of unprocessed data.
use sid_pi.Base.{
  ℕ, ◌+◌, ◌-◌, ◌*◌, ◌%◌, ◌^◌, ◌≤◌, ◌<◌, ◌≡◌, ◌≢◌, refl, ap, ◌∙◌, arith, Bool, true, false, List, [],
  ◌∷◌, ◌++◌, length, length-drop, drop, ◌==◌, add32, sub32,
}
use sid_pi.Kernel.{Kfifo, Behaves, Driver, thread_round, thread_rounds}
use sid_pi.Kernel.Delay.{filled, write_data_room}
use sid_pi.Kernel.Calls.{Fortune, answered, size, device_write}

-- No call of a `device_write` goes wrong.
pub record IsGranted (w : Fortune) : Type 0 where
  pub device : w.has_device ≡ true
  pub buffer : w.allocated ≡ true
  pub whole : w.copied ≡ true
  pub lock : w.locked ≡ true

module _ {F : Type 0} (k : Kfifo F) (b : Behaves k) (speedfix : Bool) where
  open b use {contents}

  -- With room for its bytes and no call going wrong, `device_write` returns their number at once, has put them at
  -- the end of the FIFO, freed its buffer, and counted them.
  pub device_write_room :
      (w : Fortune) (bytes : List ℕ) (live : ℕ) (d : Driver F)
      → IsGranted w
      → bytes ≢ []
      → length (contents d.msg_fifo) + length bytes ≤ 8192
      → (d' : Driver F) × (device_write k speedfix w bytes live d
          ≡ answered (size (length bytes)) live d')
        × (contents d'.msg_fifo ≡ contents d.msg_fifo ++ bytes)
        × (d'.unprocessed ≡ add32 d.unprocessed (length bytes))
  unfolding device_write
  device_write_room w [] live d g some_bytes room = absurd (some_bytes refl)
  device_write_room w (x ∷ xs) live d g some_bytes room =
      let bytes = x ∷ xs in
      let d1 : Driver F = record d { unprocessed = add32 d.unprocessed (length bytes) } in
      let (at_once, inside) = write_data_room k b speedfix w.wakes bytes d1 room in
      let more : (length bytes == 0) ≡ false = ground arith in
      let freed : live + 1 - 1 ≡ live = omega arith in
      (
        filled k b speedfix bytes d1,
        rw (g.device, more, g.buffer, g.whole, g.lock, at_once, freed) refl,
        inside,
        refl,
      )

  -- A round in which there is something to read takes one off the counter and up to four bytes out.
  pub thread_round_counts :
      (stale : List ℕ) (d : Driver F)
      → length (contents d.msg_fifo) ≢ 0
      → let d' = (thread_round k speedfix false stale d).1 in
        (d'.unprocessed ≡ sub32 d.unprocessed 1)
        × (contents d'.msg_fifo ≡ drop 4 (contents d.msg_fifo))
  unfolding thread_round
  thread_round_counts stale d some_in =
      let awake : k.is_empty d.msg_fifo ≡ false =
        (let law = b.empty_law d.msg_fifo in ground arith) in
      rw awake (refl, (b.leave_law 4 d.msg_fifo).1)

  thread_rounds_count :
      (ss : List (List ℕ)) (d : Driver F)
      → length (contents d.msg_fifo) ≡ 4 * length ss
      → d.unprocessed < 2 ^ 32
      → let d' = thread_rounds k speedfix ss d in
        (length (contents d'.msg_fifo) ≡ 0)
        × (d'.unprocessed < 2 ^ 32)
        × ((d'.unprocessed + length ss) % 2 ^ 32 ≡ d.unprocessed)
  unfolding thread_rounds
  thread_rounds_count [] d e h = (e, h, omega arith)
  thread_rounds_count (s ∷ ss) d e h =
      let (one, out) = thread_round_counts s d (omega arith) in
      let left = ap length out ∙ length-drop 4 (contents d.msg_fifo) in
      let (none_left, fits, rest) =
        thread_rounds_count ss (thread_round k speedfix false s d).1 (omega arith) (omega arith) in
      (none_left, fits, omega arith)

  -- The counter does not come back: after a write of whole commands to an empty FIFO, and as many rounds of the kernel
  -- thread as commands, the FIFO is empty again but the counter is up by three for each command.
  pub unprocessed_drift :
      (w : Fortune) (bytes : List ℕ) (live : ℕ) (d : Driver F) (ss : List (List ℕ))
      → IsGranted w
      → bytes ≢ []
      → contents d.msg_fifo ≡ []
      → length bytes ≡ 4 * length ss
      → length bytes ≤ 8192
      → d.unprocessed < 2 ^ 32
      → (d' : Driver F) × (device_write k speedfix w bytes live d
          ≡ answered (size (length bytes)) live d')
        × (length (contents (thread_rounds k speedfix ss d').msg_fifo) ≡ 0)
        × ((thread_rounds k speedfix ss d').unprocessed ≡ (d.unprocessed + 3 * length ss) % 2 ^ 32)
  unprocessed_drift w bytes live d ss g some_bytes empty whole room fits =
      let (d', done, inside, counted) =
        device_write_room w bytes live d g some_bytes (omega (arith, ap length empty)) in
      let filled_to = ap length (inside ∙ ap (λ t. t ++ bytes) empty) in
      let (none_left, small, back) = thread_rounds_count ss d' (omega arith) (omega arith) in
      (d', done, none_left, omega arith)
