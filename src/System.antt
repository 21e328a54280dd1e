-- ===== src/System.antt =====
-- The two threads of sidpiserver/src/ together: the network side, where the TRY_WRITE case of
-- `processReadBuffer` tests for room and then `handleWritePacket` writes the commands one `sidWrite`
-- at a time, and `sidThread`. The mutex `queue` makes a `sidWrite` and the four reads of a round one
-- step each; the steps go in any order. The tests take no mutex: each is a step between rounds here, and Amid has the
-- others.
pub mod Inv
pub mod Live
pub mod Amid
pub mod Silent
use sid_pi.Base.{ℕ, ◌*◌, ◌≡◌, true, false, List, [], ◌∷◌, ◌++◌, length, pos, Bool, if◌then◌else◌}
use sid_pi.Runner.{
  Runner, Timeval, Action, play, pause, sid_write, thread_round, can_buffer_accept,
  is_buffer_half_full, start_playback,
}
use sid_pi.Runner.Commands.{Command, AllBytes}

-- What the chip is told: a value for a register.
pub record Sound : Type 0 where
  pub reg : ℕ
  pub val : ℕ

abbrev pub sound_of : Command → Sound
sound_of c = record { reg = c.reg; val = c.value }

-- The `writeSid` calls of a round.
abbrev pub sounds_of : Action → List Sound
sounds_of pause = []
sounds_of (play slept reg val) = record { reg = reg; val = val } ∷ []

-- `todo` are the commands of the packet at hand that are still to be written. `accepted` and
-- `sounds` are histories: the commands of the packets answered OK, and what the chip was told.
pub record System : Type 0 where
  pub runner : Runner
  pub todo : List Command
  pub accepted : List Command
  pub sounds : List Sound

-- `if (isBufferHalfFull()) startPlayback();`
abbrev pub woken : Runner → Runner
woken r = if is_buffer_half_full r then start_playback r else r

abbrev pub write_command : Runner → Command → Runner
write_command r c = sid_write r c.reg c.value c.cycle_high c.cycle_low

abbrev pub round : Timeval → Timeval → System → System
round t1 t2 s =
    let (action, r) = thread_round t1 t2 s.runner in
    record s { runner = r; sounds = s.sounds ++ sounds_of action }

pub data Step (s : System) : System → Type 0 where
  -- a TRY_DELAY or TRY_WRITE tests `isBufferHalfFull`
  wake : s.todo ≡ [] → Step s (record s { runner = woken s.runner })
  -- a TRY_WRITE with the commands `cs` passes `canBufferAccept`
  accept :
      (cs : List Command)
      → s.todo ≡ []
      → AllBytes cs
      → can_buffer_accept s.runner (pos (4 * length cs)) ≡ true
      → Step s (record s { todo = cs; accepted = s.accepted ++ cs })
  -- one turn of the loop of `handleWritePacket`
  write_next :
      (c : Command) (cs : List Command)
      → s.todo ≡ c ∷ cs
      → Step s (record s { runner = write_command s.runner c; todo = cs })
  -- one round of `sidThread`
  thread : (t1 t2 : Timeval) → Step s (round t1 t2 s)

pub data Reach (r : Runner) : System → Type 0 where
  start : Reach r (record { runner = r; todo = []; accepted = []; sounds = [] })
  later : {s t : System} → Reach r s → Step s t → Reach r t
