-- ===== src/Runner/Tempo.antt =====
-- When the SID thread writes to the chip: its rounds against the clock, one after the other.
use sid_pi.Base.{
  ℕ, ◌+◌, ◌*◌, ◌≤◌, ◌<◌, ◌≡◌, ◌≢◌, refl, ap, ◌∙◌, subst, arith, List, [], ◌∷◌, length, take,
}
use sid_pi.Runner.{Runner, Timeval, Action, pause, play, elapsed, thread_round}
use sid_pi.Runner.Commands.{Command, cycles_of, Holds}
use sid_pi.Runner.Queue.{wait, advanced, thread_round_plays}
use sid_pi.Runner.Timing.{micros}

-- A round: what the clock shows at its two readings, and the microsecond in which it calls `writeSid`.
pub record Turn : Type 0 where
  pub t1 : Timeval
  pub t2 : Timeval
  pub at : ℕ

-- How long a round asks to sleep.
abbrev pub slept : Action → ℕ
slept pause = 100
slept (play time reg val) = time

-- The rounds that follow the microsecond `now`, on a clock that does not go back: `usleep` takes at least as long as it
-- was asked for, and the next round reads the clock `lag` microseconds later or after that.
abbrev pub Kept : ℕ → ℕ → List Turn → Runner → Type 0
Kept lag now [] r = Unit {0}
Kept lag now (t ∷ ts) r =
    (now + lag ≤ micros t.t1)
    × (t.t1.tv_usec < 1000000)
    × (t.t2.tv_usec < 1000000)
    × (micros t.t1 ≤ micros t.t2)
    × (micros t.t2 + slept (thread_round t.t1 t.t2 r).0 ≤ t.at)
    × Kept lag t.at ts (thread_round t.t1 t.t2 r).1

-- when the last of them has written
abbrev pub last_write : ℕ → List Turn → ℕ
last_write now [] = now
last_write now (t ∷ ts) = last_write t.at ts

-- what they write
abbrev pub written : Action → List (ℕ × ℕ) → List (ℕ × ℕ)
written pause rest = rest
written (play time reg val) rest = (reg, val) ∷ rest

abbrev pub writes : List Turn → Runner → List (ℕ × ℕ)
writes [] r = []
writes (t ∷ ts) r = written (thread_round t.t1 t.t2 r).0 (writes ts (thread_round t.t1 t.t2 r).1)

abbrev pub total_cycles : List Command → ℕ
total_cycles [] = 0
total_cycles (c ∷ cs) = cycles_of c + total_cycles cs

abbrev pub targets : List Command → List (ℕ × ℕ)
targets [] = []
targets (c ∷ cs) = (c.reg, c.value) ∷ targets cs

-- A round does not end its wait before the cycles have passed since its first reading.
wait-covers :
    (t1 t2 : Timeval) (cycles : ℕ)
    → t1.tv_usec < 1000000
    → t2.tv_usec < 1000000
    → micros t1 ≤ micros t2
    → micros t1 + cycles ≤ micros t2 + wait cycles (elapsed t1 t2)
unfolding elapsed
wait-covers t1 t2 cycles h1 h2 order = ground arith

-- With playback on and a command queued for each round, the SID thread writes the commands in order and none early:
-- the last of so many writes comes no earlier than all their cycles, and the lag of each round besides, after the start.
-- A lag is not made up for.
pub keeps_time :
    (lag now : ℕ) (turns : List Turn) (r : Runner) (cs : List Command)
    → Holds r.fifo cs
    → r.is_playback_ready ≢ 0
    → length turns ≤ length cs
    → Kept lag now turns r
    → (writes turns r ≡ targets (take (length turns) cs))
      × (now + total_cycles (take (length turns) cs) + length turns * lag ≤ last_write now turns)
keeps_time lag now [] r cs h on enough kept = (refl, omega arith)
keeps_time lag now (t ∷ ts) r [] h on enough kept = absurd (omega arith)
keeps_time lag now (t ∷ ts) r (c ∷ cs) h on enough (begins, u1, u2, order, ends, kept_on) =
    let (f, held, e) = thread_round_plays t.t1 t.t2 r c cs h on in
    let (sleeps, kept) =
      subst (λ (p : Action × Runner). (micros t.t2 + slept p.0 ≤ t.at) × Kept lag t.at ts p.1) e
        (ends, kept_on) in
    let (same, late) =
      keeps_time lag t.at ts (advanced r f (cycles_of c)) cs held on (omega arith) kept in
    (
      ap (λ (p : Action × Runner). written p.0 (writes ts p.1)) e
          ∙ ap (λ rest. (c.reg, c.value) ∷ rest) same,
      (let covers = wait-covers t.t1 t.t2 (cycles_of c) u1 u2 order in
          omega (arith, covers, late, sleeps)),
    )
