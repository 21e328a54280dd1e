-- ===== src/System/Live.antt =====
-- Progress: with playback on, the SID thread plays out what is queued, and a client that is told
-- BUSY does not wait for ever.
use sid_pi.Base.{
  ℕ, ◌<◌, ◌≡◌, ◌≢◌, sym, ap, ◌∙◌, subst, arith, true, false, List, [], ◌∷◌, ◌++◌, append-nil,
  append_assoc, map, length, pos,
}
use sid_pi.Runner.{Runner, Timeval, can_buffer_accept, is_buffer_half_full, start_playback}
use sid_pi.Runner.Commands.{Command, Holds, cycles_of}
use sid_pi.Runner.Queue.{thread_round_plays, advanced}
use sid_pi.Runner.Gates.{can_buffer_accept_lem, is_buffer_half_full_lem}
use sid_pi.System.{System, sound_of, sounds_of, woken, round}

-- Rounds of the SID thread, by what its clock reads.
pub rounds : List (Timeval × Timeval) → System → System
rounds [] s = s
rounds ((t1, t2) ∷ ts) s = rounds ts (round t1 t2 s)

-- With playback on, as many rounds as commands are queued play them all, in order, whatever the
-- clock reads, and leave the FIFO empty.
pub rounds_drain :
    (ts : List (Timeval × Timeval)) (s : System) (cs : List Command)
    → Holds s.runner.fifo cs
    → s.runner.is_playback_ready ≢ 0
    → length ts ≡ length cs
    → ((rounds ts s).sounds ≡ s.sounds ++ map sound_of cs) × Holds (rounds ts s).runner.fifo []
unfolding rounds
rounds_drain [] s [] h on e = (sym (append-nil s.sounds), h)
rounds_drain [] s (c ∷ cs) h on e = absurd (omega arith)
rounds_drain (t ∷ ts) s [] h on e = absurd (omega arith)
rounds_drain ((t1, t2) ∷ ts) s (c ∷ cs) h on e =
    let (f, left, step) = thread_round_plays t1 t2 s.runner c cs h on in
    let s1 : System = record s {
      runner = advanced s.runner f (cycles_of c);
      sounds = s.sounds ++ (sound_of c ∷ []);
    } in
    let (heard, empty) = rounds_drain ts s1 cs left on (omega arith) in
    let stepped : round t1 t2 s ≡ s1 =
      ap (λ p. record s { runner = p.1; sounds = s.sounds ++ sounds_of p.0 }) step in
    subst
      (λ u.
        ((rounds ts u).sounds ≡ s.sounds ++ map sound_of (c ∷ cs))
        × Holds (rounds ts u).runner.fifo [])
      (sym stepped) (heard ∙ append_assoc s.sounds (sound_of c ∷ []) (map sound_of cs), empty)

-- A packet of less than half the buffer that `canBufferAccept` refuses finds playback on.
busy_plays :
    (r : Runner) (cs : List Command) (n : ℕ)
    → Holds r.fifo cs
    → n < 4096
    → can_buffer_accept r (pos n) ≡ false
    → (woken r).is_playback_ready ≡ 1
unfolding start_playback
busy_plays r cs n h small full =
    let gate = can_buffer_accept_lem r cs h n in
    let half : is_buffer_half_full r ≡ true = is_buffer_half_full_lem r cs h ∙ ground arith in
    rw half

fifo-woken : (r : Runner) → (woken r).fifo ≡ r.fifo
unfolding start_playback
fifo-woken r = ground arith

-- A packet of less than half the buffer that `canBufferAccept` refuses is accepted after as many
-- rounds of the SID thread as commands were queued, started by the half-full test of the refused
-- request, whether playback was on before or not.
pub busy_then_accepted :
    (s : System) (cs : List Command) (n : ℕ) (ts : List (Timeval × Timeval))
    → Holds s.runner.fifo cs
    → n < 4096
    → can_buffer_accept s.runner (pos n) ≡ false
    → length ts ≡ length cs
    → can_buffer_accept (rounds ts (record s { runner = woken s.runner })).runner (pos n) ≡ true
busy_then_accepted s cs n ts h small full e =
    let on = busy_plays s.runner cs n h small full in
    let held = subst (λ f. Holds f cs) (sym (fifo-woken s.runner)) h in
    let s1 : System = record s { runner = woken s.runner } in
    let drained = rounds_drain ts s1 cs held (omega (arith, on)) e in
    can_buffer_accept_lem (rounds ts s1).runner [] drained.1 n ∙ ground arith
