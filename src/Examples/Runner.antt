-- ===== src/Examples/Runner.antt =====
-- Rounds of the SID thread at concrete times.
use sid_pi.Base.{◌+◌, ◌*◌, ◌≤◌, ◌≡◌, sym, subst, arith, [], ◌∷◌, take}
use sid_pi.Runner.{Runner, Action, elapsed, thread_round}
use sid_pi.Runner.Queue.{advanced, thread_round_plays}
use sid_pi.Runner.Timing.{micros}
use sid_pi.Runner.Tempo.{Turn, Kept, slept, writes, targets, total_cycles, keeps_time}
use sid_pi.Examples.Samples.{filled, filled-Holds, volume, volumes, early, late}

abbrev started : Runner
started = record (filled 2) { is_playback_ready = 1 }

-- one across the end of a second, and one within
abbrev first_turn : Turn
first_turn = record { t1 = early; t2 = late; at = 8020000 }

abbrev second_turn : Turn
second_turn = record {
  t1 = record { tv_sec = 8; tv_usec = 20050 };
  t2 = record { tv_sec = 8; tv_usec = 20060 };
  at = 8040055;
}

turns-Kept : Kept 50 7999800 (first_turn ∷ second_turn ∷ []) started
unfolding elapsed
turns-Kept =
    let (f, held, e) =
      thread_round_plays early late started volume (volume ∷ []) (filled-Holds 2 (omega arith))
        (omega arith) in
    let (f', held', e') =
      thread_round_plays second_turn.t1 second_turn.t2 (advanced started f 20000) volume [] held
        (omega arith) in
    let ends : (p : Action × Runner) → Type 0 =
      λ p. (micros second_turn.t2 + slept p.0 ≤ 8040055) × Kept 50 8040055 [] p.1 in
    let last : ends (thread_round second_turn.t1 second_turn.t2 (advanced started f 20000)) =
      subst ends (sym e') (omega arith, tt) in
    let next : (p : Action × Runner) → Type 0 =
      λ p. (micros late + slept p.0 ≤ 8020000) × Kept 50 8020000 (second_turn ∷ []) p.1 in
    let (sleeps, kept) =
      subst next (sym e)
        (omega arith, (omega arith, omega arith, omega arith, omega arith, last.0, last.1)) in
    (omega arith, omega arith, omega arith, omega arith, sleeps, kept)

keeps_time_example :
    (writes (first_turn ∷ second_turn ∷ []) started ≡ targets (take 2 (volumes 2)))
    × (7999800 + total_cycles (take 2 (volumes 2)) + 2 * 50 ≤ 8040055)
keeps_time_example =
    keeps_time 50 7999800 (first_turn ∷ second_turn ∷ []) started (volumes 2)
      (filled-Holds 2 (omega arith)) (omega arith) (omega arith) turns-Kept
