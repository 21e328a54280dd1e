-- ===== src/Kernel.antt =====
-- module/src/sidpi.c: the driver of /dev/sid. A write queues bytes in a kernel FIFO, four for a
-- command, and the kernel thread takes them off. The kernel FIFO is a parameter.
pub mod Queue
pub mod Done
pub mod Calls
pub mod Delay
pub mod Settle
pub mod Load
pub mod Chip
pub mod Tables
pub mod Drift
pub mod Sounds
pub mod Play
pub mod Lost
pub mod Client
pub mod Threads
pub mod Sample
pub mod Memory
pub mod Life
pub mod Proc
mod Tests
use sid_pi.Base.{
  ℕ, zero, suc, ◌+◌, ◌*◌, ◌/◌, ◌≡◌, Bool, true, false, not, ◌||◌, Option, none, some, List, [], ◌∷◌,
  ◌++◌, length, take, drop, get_or, ltb, ◌==◌, if◌then◌else◌, bit_or, ◌<<<◌, add32, sub32,
}

-- What the driver uses of `<linux/kfifo.h>`, for FIFOs of bytes `F`.
pub record Kfifo (F : Type 0) : Type 0 where
  pub is_full : F → Bool
  pub is_empty : F → Bool
  -- `kfifo_in` of one byte
  pub enter : ℕ → F → F
  -- `kfifo_out`: at most so many bytes
  pub leave : ℕ → F → List ℕ × F
  pub clear : F → F

-- Its documented behaviour, for a FIFO declared with 8192 bytes.
pub record Behaves {F : Type 0} (k : Kfifo F) : Type 0 where
  pub contents : F → List ℕ
  pub full_law : (f : F) → k.is_full f ≡ (length (contents f) == 8192)
  pub empty_law : (f : F) → k.is_empty f ≡ (length (contents f) == 0)
  pub enter_law :
      (b : ℕ) (f : F) → k.is_full f ≡ false → contents (k.enter b f) ≡ contents f ++ (b ∷ [])
  pub leave_law :
      (n : ℕ) (f : F)
      → ((k.leave n f).0 ≡ take n (contents f)) × (contents (k.leave n f).1 ≡ drop n (contents f))
  pub clear_law : (f : F) → contents (k.clear f) ≡ []

-- `sid_msg_fifo` and `g_atomUnprocessedData`. `consumed` is a history: the bytes that the kernel
-- thread has taken.
pub record Driver (F : Type 0) : Type 0 where
  pub msg_fifo : F
  pub unprocessed : ℕ
  pub consumed : List ℕ

-- What a round of `sidThread2` does.
pub data Deed : Type 0 where
  asleep : Deed
  -- `usleep_range(cycles, cycles)`, then `writeSidPar(reg, val)` if it is made
  acts : ℕ → Option (ℕ × ℕ) → Deed

-- `if (speedfix == 1) cycles += (cycles * 17) / 100;`
abbrev pub slowed : Bool → ℕ → ℕ
slowed speedfix cycles = if speedfix then add32 cycles (cycles * 17 / 100) else cycles

-- `acBuffer[i]` once `got` has been copied over what the stack held
abbrev pub ac_buffer : List ℕ → List ℕ → ℕ → ℕ
ac_buffer got stale i = get_or (got ++ drop (length got) stale) i 0

-- `if (acBuffer[1] < 32) writeSidPar(acBuffer[1], acBuffer[0]);`
abbrev pub told : ℕ → ℕ → Option (ℕ × ℕ)
told reg val = if ltb reg 32 then some (reg, val) else none

-- How a wait of `writeData` for room ends.
pub data Wake : Type 0 where
  -- after some rounds of the kernel thread, by what the stack held in each
  rounds : List (List ℕ) → Wake
  interrupted : Wake

pub data Written (F : Type 0) : Type 0 where
  returned : Driver F → Written F
  -- these bytes are still to be written
  waiting : List ℕ → Driver F → Written F

-- `while (i < iSize)`, with the bytes from `i` on
abbrev pub or_done : {F : Type 0} → List ℕ → Written F → Written F → Written F
or_done [] finished more = finished
or_done (b ∷ bs) finished more = more

module _ {F : Type 0} (k : Kfifo F) (speedfix : Bool) where
  -- A round of `sidThread2` whose wait is not ended by a signal. `stop` is `kthread_should_stop()`
  -- and `stale` what the stack held in `acBuffer`.
  unfoldable pub thread_round : Bool → List ℕ → Driver F → Deed × Driver F
  thread_round stop stale d =
      if not (k.is_empty d.msg_fifo) || stop
      then (let (got, f) = k.leave 4 d.msg_fifo in
          let at = ac_buffer got stale in
          let cycles = slowed speedfix (bit_or (at 3 <<< 8) (at 2)) in
          (
            acts cycles (told (at 1) (at 0)),
            record {
              msg_fifo = f;
              unprocessed = sub32 d.unprocessed 1;
              consumed = d.consumed ++ got;
            },
          ))
      else (asleep, d)

  unfoldable pub thread_rounds : List (List ℕ) → Driver F → Driver F
  thread_rounds [] d = d
  thread_rounds (stale ∷ ss) d = thread_rounds ss (thread_round false stale d).1

  -- The inner loop of `writeData`: the bytes left over, and the FIFO.
  unfoldable pub fill : List ℕ → F → List ℕ × F
  fill [] f = ([], f)
  fill (b ∷ bs) f = let more = fill bs (k.enter b f) in if k.is_full f then (b ∷ bs, f) else more

  -- `writeData`. The wait for room returns at once if there is room; where it does not and there is
  -- no more to its wakes, the writer is still asleep.
  unfoldable pub write_data : List Wake → List ℕ → Driver F → Written F
  unfolding fill
  write_data [] bytes d =
      let (rest, f) = fill bytes d.msg_fifo in
      let d' = record d { msg_fifo = f } in or_done rest (returned d') (waiting rest d')
  write_data (rounds stales ∷ ws) bytes d =
      let (rest, f) = fill bytes d.msg_fifo in
      let d' = record d { msg_fifo = f } in
      or_done rest (returned d') (write_data ws rest (thread_rounds stales d'))
  write_data (interrupted ∷ ws) bytes d =
      let (rest, f) = fill bytes d.msg_fifo in
      let d' = record d { msg_fifo = f } in
      or_done rest (returned d')
        (returned (record d' { unprocessed = sub32 d.unprocessed (length rest) }))
