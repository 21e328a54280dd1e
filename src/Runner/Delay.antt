-- ===== src/Runner/Delay.antt =====
-- `delay` of sidrunnerthread.c: how the network side waits for a TRY_DELAY.
use sid_pi.Base.{ℕ, ◌*◌, ◌/◌, ◌%◌, ltb, ◌==◌, if◌then◌else◌}

-- What `delay` does, by the length of the wait.
pub data Wait : Type 0 where
  -- returns at once
  no_wait : Wait
  -- reads the clock until it has advanced by so many seconds and microseconds
  spin : (sec usec : ℕ) → Wait
  -- `nanosleep` of so many seconds and nanoseconds
  sleep : (sec nsec : ℕ) → Wait

-- The argument is a cycle count from a packet, so it is not negative.
unfoldable pub delay : ℕ → Wait
delay how_long =
    if how_long == 0
    then no_wait
    else if ltb how_long 100
    then spin (how_long / 1000000) (how_long % 1000000)
    else sleep 0 (how_long * 1000)

-- `sidDelay`
unfoldable pub sid_delay : ℕ → Wait
unfolding delay
sid_delay cycles = delay cycles
