-- ===== src/Kernel/Life.antt =====
-- module/src/sidpi.c: `sidThread2` as a whole, from `kthread_run` to its return.
pub mod Rounds
pub mod Plays
pub mod Stop
pub mod Unload
mod Tests
use sid_pi.Base.{Bool, true, false, List, [], ◌∷◌, ◌++◌, ℕ, if◌then◌else◌}
use sid_pi.Kernel.{Kfifo, Driver, Deed, asleep, acts, thread_round}

-- Where the thread is.
pub data Place : Type 0 where
  -- at `while (!kthread_should_stop())`
  at_while : Place
  -- in `wait_event_interruptible`
  in_wait : Place
  returned : Place

-- What the thread finds when it runs on: `kthread_should_stop()`, whether a signal is there, and what the stack holds.
pub record Pass : Type 0 where
  pub stop : Bool
  pub signal : Bool
  pub stale : List ℕ

-- The thread, the driver, and what the thread has done.
pub record Life (F : Type 0) : Type 0 where
  pub place : Place
  pub driver : Driver F
  pub deeds : List Deed

-- The wait, by what the round that may follow it does: its condition goes before a signal, and with neither it goes on.
abbrev pub after_wait : {F : Type 0} → Bool → Life F → Deed → Driver F → Life F
after_wait signal l asleep d = record l { place = if signal then at_while else in_wait }
after_wait signal l (acts cycles written) d = record {
  place = at_while;
  driver = d;
  deeds = l.deeds ++ (acts cycles written ∷ []);
}

module _ {F : Type 0} (k : Kfifo F) (speedfix : Bool) where
  -- from one place to the next
  unfoldable pub advance : Place → Pass → Life F → Life F
  advance at_while p l = record l { place = if p.stop then returned else in_wait }
  advance in_wait p l =
      let (deed, d) = thread_round k speedfix p.stop p.stale l.driver in
      after_wait p.signal l deed d
  advance returned p l = l

  unfoldable pub sid_thread2 : List Pass → Life F → Life F
  unfolding advance
  sid_thread2 [] l = l
  sid_thread2 (p ∷ ps) l = sid_thread2 ps (advance l.place p l)
