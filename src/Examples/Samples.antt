-- ===== src/Examples/Samples.antt =====
-- Values that the examples share: a runner, queues of commands, packets.
use sid_pi.Base.{
  ℕ, zero, suc, ◌≤◌, ◌≡◌, refl, ◌∙◌, arith, false, List, [], ◌∷◌, ◌++◌, length, replicate,
  length-replicate, length-append, pos, AreBytes,
}
use sid_pi.Fifo.{Fifo}
use sid_pi.Runner.{Runner, Timeval, sid_write}
use sid_pi.Runner.Commands.{Command, Holds}
use sid_pi.Runner.Queue.{sid_write_room}
use sid_pi.Server.{Server}
use sid_pi.Server.Protocol.{View}
use sid_pi.Server.Refine.Relation.{Shows}

abbrev pub empty_fifo : Fifo
empty_fifo = record {
  fifo_buf = replicate 8192 0;
  fifo_size = 8192;
  fifo_count = 0;
  fifo_first = 0;
  fifo_last = 0;
}

abbrev pub idle : Runner
idle = record {
  fifo = empty_fifo;
  buffer = record { first = 0; last = 0; count = 0 };
  is_playback_ready = 0;
  current_clock = 0;
  target_cycles = 0;
  threshold = pos 10;
  multiplier = pos 1000;
}

pub idle-Holds : Holds empty_fifo []
idle-Holds = record {
  has = record {
    valid = record {
      power = (13, refl);
      small = omega arith;
      stored = length-replicate {A = ℕ} 8192 0;
      first_in = omega arith;
      count_in = omega arith;
      last_at = refl;
    };
    sized = refl;
    bytes = refl;
  };
  byte_sized = tt;
}

-- volume 15 after 20000 cycles
abbrev pub volume : Command
volume = record { reg = 0x18; value = 15; cycle_high = 0x4e; cycle_low = 0x20 }

abbrev pub filled : ℕ → Runner
filled zero = idle
filled (suc n) = sid_write (filled n) 0x18 15 0x4e 0x20

abbrev pub volumes : ℕ → List Command
volumes zero = []
volumes (suc n) = volumes n ++ (volume ∷ [])

pub length-volumes : (n : ℕ) → length (volumes n) ≡ n
length-volumes zero = refl
length-volumes (suc n) = length-append (volumes n) (volume ∷ []) ∙ omega (arith, length-volumes n)

pub filled-Holds : (n : ℕ) → n ≤ 2048 → Holds (filled n).fifo (volumes n)
filled-Holds zero h = idle-Holds
filled-Holds (suc n) h =
    sid_write_room (filled n) (volumes n) 0x18 15 0x4e 0x20 (filled-Holds n (omega arith))
      (omega (arith, length-volumes n))

abbrev pub early : Timeval
early = record { tv_sec = 7; tv_usec = 999900 }

abbrev pub late : Timeval
late = record { tv_sec = 8; tv_usec = 100 }

-- a TRY_WRITE of one command
abbrev pub write_packet : List ℕ
write_packet = 5 ∷ 0 ∷ 0 ∷ 4 ∷ 0x4e ∷ 0x20 ∷ 0x18 ∷ 15 ∷ []

pub zeros-AreBytes : (n : ℕ) → AreBytes (replicate n 0)
zeros-AreBytes zero = tt
zeros-AreBytes (suc n) = (omega arith, zeros-AreBytes n)

-- a server with so many commands queued
abbrev pub serving : ℕ → Server
serving n = record {
  data_read = write_packet ++ replicate 100 0;
  data_write = replicate 260 0;
  data_write_pos = 0;
  data_read_pos = 0;
  input_clock = 5;
  effects = [];
  runner = filled n;
}

abbrev pub view_of : ℕ → View
view_of n = record { queue = volumes n; playing = false; clock = 5 }

pub playback_off : (n : ℕ) → (filled n).is_playback_ready ≡ 0
unfolding sid_write
playback_off zero = refl
playback_off (suc n) = playback_off n

pub input-AreBytes : AreBytes (write_packet ++ replicate 100 0)
input-AreBytes = (
  omega arith,
  (
    omega arith,
    (
      omega arith,
      (omega arith, (omega arith, (omega arith, (omega arith, (omega arith, zeros-AreBytes 100))))),
    ),
  ),
)

pub serving-Shows : (n : ℕ) → n ≤ 2048 → Shows (serving n) (view_of n)
serving-Shows n h = record {
  holds = filled-Holds n h;
  plays = rw (playback_off n);
  clocks = refl;
  clock_fits = omega arith;
  room = length-replicate {A = ℕ} 260 0;
  read_at = refl;
  input = input-AreBytes;
}
