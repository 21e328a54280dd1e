-- ===== src/System/Silent.antt =====
-- When playback starts: not before the FIFO is half full.
use sid_pi.Base.{
  ◌^◌, ◌≤◌, ◌<◌, ◌≡◌, refl, ap, ◌∙◌, arith, false, [], ◌++◌, append-nil, length, length-append, inl,
}
use sid_pi.Runner.{Runner, sid_write, is_buffer_half_full}
use sid_pi.Runner.Commands.{Command, Holds}
use sid_pi.Runner.Queue.{thread_round_pauses}
use sid_pi.Runner.Gates.{is_buffer_half_full_lem}
use sid_pi.System.{
  System, woken, write_command, Step, wake, accept, write_next, thread, Reach, start, later,
}
use sid_pi.System.Inv.{Inv, Reach-Inv}

-- Nothing played, and playback off.
abbrev pub IsSilent : System → Type 0
IsSilent s = (s.sounds ≡ []) × (s.runner.is_playback_ready ≡ 0)

-- No more commands wait than have been accepted.
queue_accepted : {r0 : Runner} {s : System} (inv : Inv r0 s) → length inv.queue ≤ length s.accepted
queue_accepted {s = s} inv =
    let all = ap length inv.order ∙ length-append inv.played (inv.queue ++ s.todo) in
    omega (arith, all, length-append inv.queue s.todo)

wake-IsSilent :
    {r0 : Runner} {s : System}
    → Inv r0 s
    → length s.accepted ≤ 1024
    → IsSilent s
    → IsSilent (record s { runner = woken s.runner })
wake-IsSilent {s = s} inv few (none_played, off) =
    let half = is_buffer_half_full_lem s.runner inv.queue inv.holds in
    let bound = queue_accepted inv in
    let not_half : is_buffer_half_full s.runner ≡ false = half ∙ ground arith in
    (none_played, rw not_half off)

write-IsSilent :
    (r : Runner) (c : Command) → (write_command r c).is_playback_ready ≡ r.is_playback_ready
unfolding sid_write
write-IsSilent r c = refl

Step-IsSilent :
    {r0 : Runner} {s t : System}
    → Inv r0 s
    → Step s t
    → length t.accepted ≤ 1024
    → (length s.accepted ≤ 1024 → IsSilent s)
    → IsSilent t
Step-IsSilent inv (wake none_left) few silent = wake-IsSilent inv few (silent few)
Step-IsSilent {s = s} inv (accept cs none_left b fits) few silent =
    silent (omega (arith, length-append s.accepted cs))
Step-IsSilent {s = s} inv (write_next c cs next) few silent =
    let (none_played, off) = silent few in (none_played, write-IsSilent s.runner c ∙ off)
Step-IsSilent {s = s} inv (thread t1 t2) few silent =
    let (none_played, off) = silent few in
    rw (thread_round_pauses t1 t2 s.runner inv.queue inv.holds (inl off), append-nil)
      (none_played, off)

-- A short tune is never played: with playback off at first, whatever the order of steps and however many rounds the SID
-- thread makes, the chip is told nothing as long as the packets answered OK hold no more than 1024 commands.
pub no_sound_until_half_full :
    {r0 : Runner} {s : System}
    → Holds r0.fifo []
    → r0.current_clock < 2 ^ 32
    → r0.is_playback_ready ≡ 0
    → Reach r0 s
    → length s.accepted ≤ 1024
    → IsSilent s
no_sound_until_half_full empty small off start few = (refl, off)
no_sound_until_half_full empty small off (later r st) few =
    Step-IsSilent (Reach-Inv empty small r) st few (no_sound_until_half_full empty small off r)
