-- ===== src/Runner/Timing.antt =====
-- How long the network side and the SID thread wait: `delay`, and the `usleep` of `sidThread`.
use sid_pi.Base.{
  ℕ, ◌+◌, ◌*◌, ◌^◌, ◌≤◌, ◌<◌, ◌≡◌, arith, Bool-cases, inl, inr, ltb, ◌==◌, if◌then◌else◌,
}
use sid_pi.Runner.{Timeval, elapsed}
use sid_pi.Runner.Queue.{wait}
use sid_pi.Runner.Delay.{Wait, no_wait, spin, sleep, delay, sid_delay}

-- A length of time in microseconds, if the fields are in range for the call.
abbrev pub Lasts : Wait → ℕ → Type 0
Lasts no_wait t = t ≡ 0
Lasts (spin sec usec) t = (t ≡ sec * 1000000 + usec) × (usec < 1000000)
Lasts (sleep sec nsec) t = (t * 1000 ≡ sec * 1000000000 + nsec) × (nsec < 1000000000)

-- For each cycle count of 16 bits `sidDelay` asks for a wait of a microsecond a cycle, in fields that
-- are in range, and its product `howLong * 1000` fits in a 32-bit `long`.
pub sid_delay_lem :
    (cycles : ℕ) → cycles < 2 ^ 16 → Lasts (sid_delay cycles) cycles × (cycles * 1000 < 2 ^ 31)
unfolding sid_delay delay
sid_delay_lem cycles h = elim (Bool-cases (cycles == 0)) [
  | inl e ↦ rw e (ground arith)
  | inr e ↦ elim (Bool-cases (ltb cycles 100)) [
    | inl short ↦ rw (e, short) (ground arith)
    | inr long ↦ rw (e, long) (ground arith)
  ]
]

-- A reading of the clock, in microseconds.
abbrev pub micros : Timeval → ℕ
micros t = t.tv_sec * 1000000 + t.tv_usec

-- If the two readings of the clock in a round are in order and the second is in the same second or the
-- next, the wait ends when the cycles of the command have passed since the first reading, or at once
-- if they already had.
pub wait_lem :
    (t1 t2 : Timeval) (cycles : ℕ)
    → t1.tv_usec < 1000000
    → t2.tv_usec < 1000000
    → micros t1 ≤ micros t2
    → t2.tv_sec ≤ t1.tv_sec + 1
    → micros t2 + wait cycles (elapsed t1 t2)
      ≡ (if ltb (micros t2) (micros t1 + cycles) then micros t1 + cycles else micros t2)
unfolding elapsed
wait_lem t1 t2 cycles h1 h2 order near = ground arith
