-- ===== src/Runner.antt =====
-- sidpiserver/src/sidrunnerthread.c: the globals, the command queue between the network side and the
-- SID thread, the playback gate and the clock. `pthread_mutex_t queue` makes the four calls of
-- `sidWrite`, and those of the SID thread, one step each.
pub mod Commands
pub mod Queue
pub mod Gates
pub mod Delay
pub mod Timing
pub mod Tempo
pub mod Print
pub mod Sounds
use sid_pi.Base.{
  ℕ, ◌+◌, ◌-◌, ◌*◌, ◌/◌, ◌%◌, ◌^◌, bit_or, Bool, true, false, ◌&&◌, Option, none, some, List, [],
  ◌∷◌, ℤ, pos, negsuc, to_byte, to_word, ltb_ℤ, half_ℤ, ◌-ℤ◌, not, ltb, ◌==◌, if◌then◌else◌, u8,
  u32, add32, sub32, ◌<<<◌,
}
use sid_pi.Fifo.{Fifo, read_fifo, write_fifo, fifo_count_of, is_fifo_full, fifo_size_of, reset_fifo}

-- `BUFFER_SIZE`
abbrev pub buffer_size : ℕ
buffer_size = 8192

-- `struct buffer`, an older queue that only the getters below still read
pub record Buffer : Type 0 where
  pub first : ℕ
  pub last : ℕ
  pub count : ℕ

-- The globals. `long` is the 32-bit word of the Pi, as its bit pattern.
pub record Runner : Type 0 where
  pub fifo : Fifo
  pub buffer : Buffer
  pub is_playback_ready : ℕ
  pub current_clock : ℕ
  pub target_cycles : ℕ
  pub threshold : ℤ
  pub multiplier : ℤ

unfoldable pub playback_ready : Runner → ℕ
playback_ready r = r.is_playback_ready

unfoldable pub start_playback : Runner → Runner
start_playback r = record r { is_playback_ready = 1 }

unfoldable pub stop_playback : Runner → Runner
stop_playback r = record r { is_playback_ready = 0 }

-- `sidWrite`. What the four calls return is not used.
unfoldable pub sid_write : Runner → ℕ → ℕ → ℕ → ℕ → Runner
sid_write r reg value cycle_high cycle_low =
    let f1 = (write_fifo r.fifo reg).1 in
    let f2 = (write_fifo f1 value).1 in
    let f3 = (write_fifo f2 cycle_high).1 in
    let f4 = (write_fifo f3 cycle_low).1 in record r { fifo = f4 }

unfoldable pub set_threshold : Runner → ℤ → Runner
set_threshold r value = record r { threshold = value }

unfoldable pub set_multiplier : Runner → ℤ → Runner
set_multiplier r value = record r { multiplier = value }

unfoldable pub get_sid_clock : Runner → ℕ
get_sid_clock r = r.current_clock

unfoldable pub get_buffer_first : Runner → ℕ
get_buffer_first r = r.buffer.first

unfoldable pub get_buffer_last : Runner → ℕ
get_buffer_last r = r.buffer.last

unfoldable pub get_buffer_count : Runner → ℕ
get_buffer_count r = r.buffer.count

unfoldable pub get_buffer_full : Runner → ℤ
get_buffer_full r = is_fifo_full r.fifo

-- `(FIFOSize(fifo) - FIFOCount(fifo)) > bytes`
unfoldable pub can_buffer_accept : Runner → ℤ → Bool
can_buffer_accept r bytes = ltb_ℤ bytes (fifo_size_of r.fifo -ℤ fifo_count_of r.fifo)

-- `(FIFOSize(fifo) / 2) < FIFOCount(fifo)`
unfoldable pub is_buffer_half_full : Runner → Bool
is_buffer_half_full r = ltb_ℤ (half_ℤ (fifo_size_of r.fifo)) (fifo_count_of r.fifo)

unfoldable pub flush : Runner → Runner
unfolding stop_playback
flush r = stop_playback (record r { fifo = reset_fifo r.fifo; current_clock = 0 })

-- `struct timeval`
pub record Timeval : Type 0 where
  pub tv_sec : ℕ
  pub tv_usec : ℕ

-- `elaps`, an `unsigned long`
unfoldable pub elapsed : Timeval → Timeval → ℕ
elapsed t1 t2 =
    if t1.tv_sec == t2.tv_sec
    then sub32 t2.tv_usec t1.tv_usec
    else add32 (sub32 1000000 t1.tv_usec) t2.tv_usec

-- What one round of `sidThread` does outside its globals.
pub data Action : Type 0 where
  -- `usleep(100)`
  pause : Action
  -- `usleep(slept)`, left out at 0, and then `writeSid(reg, val)`
  play : (slept reg val : ℕ) → Action

-- `FIFOCount(fifo) > 3 && playbackReady()`
unfoldable pub can_play : Runner → Bool
unfolding playback_ready
can_play r = ltb_ℤ (pos 3) (fifo_count_of r.fifo) && not (playback_ready r == 0)

-- The branch that plays, with `readFIFO` into an `unsigned char` or an `int`. `t1` and `t2` are what
-- the two calls of `gettimeofday` return.
unfoldable pub play_command : Timeval → Timeval → Runner → Action × Runner
play_command t1 t2 r =
    let (reg, f1) = read_fifo r.fifo in
    let (val, f2) = read_fifo f1 in
    let (high, f3) = read_fifo f2 in
    let (low, f4) = read_fifo f3 in
    let cycles = bit_or (u32 (to_word high <<< 8)) (to_word low) in
    let elaps = elapsed t1 t2 in
    (
      play (if ltb elaps cycles then cycles - elaps else 0) (to_byte reg) (to_byte val),
      record r {
        fifo = f4;
        current_clock = add32 r.current_clock cycles;
        target_cycles = add32 r.target_cycles cycles;
      },
    )

-- One round of the loop of `sidThread`.
unfoldable pub thread_round : Timeval → Timeval → Runner → Action × Runner
thread_round t1 t2 r = if can_play r then play_command t1 t2 r else (pause, r)
