-- ===== src/Kernel/Threads.antt =====
-- module/src/sidpi.c with many processes: writers that take turns by the semaphore `lockWriter`, and the kernel
-- thread. `writeData` puts one byte at a time, and anything may happen between two bytes.
pub mod Inv
pub mod Serve
pub mod Torn
pub mod Schedule
mod Tests
use sid_pi.Base.{
  ℕ, ◌+◌, ◌≡◌, ◌≢◌, Bool, true, false, List, [], ◌∷◌, ◌++◌, length, take, ◌-◌, ◌==◌, if◌then◌else◌,
  add32, sub32,
}
use sid_pi.Kernel.{Kfifo, Driver, thread_round}
use sid_pi.Kernel.Calls.{delay_bytes}

-- Where a process is, with the bytes from `i` on that it has still to put.
pub data Pc : Type 0 where
  idle : Pc
  -- in `device_write`, before `down_interruptible`
  queued : List ℕ → Pc
  -- in the `writeData` of `device_write`
  holding : List ℕ → Pc
  -- in the `writeData` of SID_IOCTL_DELAY, which takes no semaphore
  delaying : List ℕ → Pc

abbrev pub update : {A : Type 0} → (ℕ → A) → ℕ → A → ℕ → A
update f i a j = if i == j then a else f j

-- `lock_writer` is that the semaphore is taken. `granted` is a history: the bytes of the writes, in the order in which
-- they got it, less those that a signal has cut off.
pub record System (F : Type 0) : Type 0 where
  pub driver : Driver F
  pub lock_writer : Bool
  pub pc : ℕ → Pc
  pub granted : List ℕ

abbrev pub start : {F : Type 0} → Driver F → System F
start d = record { driver = d; lock_writer = false; pc = λ i. idle; granted = [] }

abbrev pub counted : {F : Type 0} → Driver F → ℕ → Driver F
counted d n = record d { unprocessed = add32 d.unprocessed n }

abbrev pub uncounted : {F : Type 0} → Driver F → ℕ → Driver F
uncounted d n = record d { unprocessed = sub32 d.unprocessed n }

module _ {F : Type 0} (k : Kfifo F) (speedfix : Bool) where
  -- `kfifo_in` of one byte
  abbrev pub entered : Driver F → ℕ → Driver F
  entered d b = record d { msg_fifo = k.enter b d.msg_fifo }

  -- One step of the processes that call `device_write`, or of the kernel thread.
  pub data Step (s : System F) : System F → Type 0 where
    -- `device_write` with its memory granted and the bytes copied, up to the semaphore
    call :
        (i : ℕ) (bytes : List ℕ)
        → s.pc i ≡ idle
        → bytes ≢ []
        → Step s (record s {
          driver = counted s.driver (length bytes);
          pc = update s.pc i (queued bytes);
        })
    lock :
        (i : ℕ) (bytes : List ℕ)
        → s.pc i ≡ queued bytes
        → s.lock_writer ≡ false
        → Step s (record s {
          lock_writer = true;
          pc = update s.pc i (holding bytes);
          granted = s.granted ++ bytes;
        })
    -- a signal ends the wait for the semaphore
    give_up :
        (i : ℕ) (bytes : List ℕ)
        → s.pc i ≡ queued bytes
        → Step s (record s { driver = uncounted s.driver (length bytes); pc = update s.pc i idle })
    -- one turn of the inner loop of `writeData`
    put :
        (i b : ℕ) (bs : List ℕ)
        → s.pc i ≡ holding (b ∷ bs)
        → k.is_full s.driver.msg_fifo ≡ false
        → Step s (record s { driver = entered s.driver b; pc = update s.pc i (holding bs) })
    -- a signal ends the wait for room in `writeData`: the rest is skipped
    interrupt :
        (i : ℕ) (bytes : List ℕ)
        → s.pc i ≡ holding bytes
        → bytes ≢ []
        → k.is_full s.driver.msg_fifo ≡ true
        → Step s (record s {
          driver = uncounted s.driver (length bytes);
          pc = update s.pc i (holding []);
          granted = take (length s.granted - length bytes) s.granted;
        })
    unlock :
        (i : ℕ)
        → s.pc i ≡ holding []
        → Step s (record s { lock_writer = false; pc = update s.pc i idle })
    -- one round of `sidThread2`
    thread :
        (stale : List ℕ)
        → Step s (record s { driver = (thread_round k speedfix false stale s.driver).1 })

  -- The same with SID_IOCTL_DELAY.
  pub data DelayStep (s : System F) : System F → Type 0 where
    step : {t : System F} → Step s t → DelayStep s t
    delay :
        (i arg : ℕ)
        → s.pc i ≡ idle
        → arg ≢ 0
        → DelayStep s (record s { pc = update s.pc i (delaying (delay_bytes arg)) })
    put :
        (i b : ℕ) (bs : List ℕ)
        → s.pc i ≡ delaying (b ∷ bs)
        → k.is_full s.driver.msg_fifo ≡ false
        → DelayStep s (record s { driver = entered s.driver b; pc = update s.pc i (delaying bs) })
    finish : (i : ℕ) → s.pc i ≡ delaying [] → DelayStep s (record s { pc = update s.pc i idle })

-- The states that steps of `R` lead to.
pub data Reach {F : Type 0} (R : System F → System F → Type 0) (s : System F)
    : System F → Type 0 where
  here : Reach R s s
  later : {t u : System F} → Reach R s t → R t u → Reach R s u
