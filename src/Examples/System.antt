-- ===== src/Examples/System.antt =====
-- A packet on its way through both threads, and a packet that is refused at first.
use sid_pi.Base.{
  ℕ, ◌+◌, ◌*◌, ◌≡◌, refl, arith, true, false, [], ◌∷◌, ◌++◌, length, replicate, length-replicate,
  pos, ◌∙◌, sym, ltb,
}
use sid_pi.Runner.{Runner, Timeval, can_buffer_accept, can_play, sid_write}
use sid_pi.Runner.Queue.{sid_write_room, can_play_iff}
use sid_pi.System.Amid.{woken_amid, Holds-woken_amid, can_buffer_accept-amid, amid-Reach}
use sid_pi.Runner.Commands.{Holds}
use sid_pi.Runner.Gates.{can_buffer_accept_lem}
use sid_pi.System.{
  System, Reach, start, later, accept, write_next, thread, woken, write_command, round,
}
use sid_pi.System.Silent.{IsSilent, no_sound_until_half_full}
use sid_pi.System.Inv.{Inv, Reach-Inv}
use sid_pi.System.Live.{rounds, busy_then_accepted}
use sid_pi.Examples.Samples.{
  idle, filled, volume, volumes, filled-Holds, idle-Holds, length-volumes, early, late,
}

abbrev at_start : System
at_start = record { runner = idle; todo = []; accepted = []; sounds = [] }

abbrev taken : System
taken = record at_start { todo = volume ∷ []; accepted = volume ∷ [] }

abbrev written : System
written = record taken { runner = write_command idle volume; todo = [] }

reached : Reach idle (round early late written)
reached =
    later
      (later
        (later start (
          accept (volume ∷ []) refl (omega arith, tt)
            (can_buffer_accept_lem idle [] idle-Holds 4 ∙ refl)))
        (write_next volume [] refl))
      (thread early late)

Reach-Inv_example : Inv idle (round early late written)
Reach-Inv_example = Reach-Inv idle-Holds (omega arith) reached

-- 1500 commands queued: 2192 bytes are free.
abbrev busy : System
busy = record at_start { runner = filled 1500 }

too_much : (n : ℕ) → n ≡ 1500 → ltb (4 * n + 4000) 8192 ≡ false
too_much n e = ground arith

busy-refuses : can_buffer_accept (filled 1500) (pos 4000) ≡ false
busy-refuses =
    can_buffer_accept_lem (filled 1500) (volumes 1500) (filled-Holds 1500 (omega arith)) 4000
    ∙ too_much (length (volumes 1500)) (length-volumes 1500)

busy_then_accepted_example :
    can_buffer_accept
      (rounds (replicate 1500 (early, late)) (record busy { runner = woken (filled 1500) })).runner
      (pos 4000)
    ≡ true
busy_then_accepted_example =
    busy_then_accepted busy (volumes 1500) 4000 (replicate 1500 (early, late))
      (filled-Holds 1500 (omega arith)) (omega arith) busy-refuses
      (length-replicate {A = Timeval × Timeval} 1500 (early, late) ∙ sym (length-volumes 1500))

abbrev sounding : Runner
sounding = record idle { is_playback_ready = 1 }

-- one command queued, and playback on
abbrev queued : System
queued = record {
  runner = write_command sounding volume;
  todo = [];
  accepted = volume ∷ [];
  sounds = [];
}

queued-Reach : Reach sounding queued
queued-Reach =
    later
      (later start (
        accept (volume ∷ []) refl (omega arith, tt)
          (can_buffer_accept_lem sounding [] idle-Holds 4 ∙ refl)))
      (write_next volume [] refl)

queued-Holds : Holds queued.runner.fifo (volume ∷ [])
queued-Holds = sid_write_room sounding [] 0x18 15 0x4e 0x20 idle-Holds (omega arith)

queued_plays : can_play queued.runner ≡ true
unfolding sid_write
queued_plays = (can_play_iff queued.runner (volume ∷ []) queued-Holds).1 (omega arith, omega arith)

-- a TRY_WRITE that tests after the first and after the third read
amid-Reach_example :
    Reach sounding
      (record (round early late (record queued { runner = woken_amid 1 queued.runner })) {
        todo = volume ∷ [];
        accepted = (volume ∷ []) ++ (volume ∷ []);
      })
amid-Reach_example =
    amid-Reach queued (volume ∷ []) 1 3 early late idle-Holds (omega arith) queued-Reach refl
      (omega arith, tt) (omega arith) (omega arith) queued_plays
      (can_buffer_accept-amid (woken_amid 1 queued.runner) (volume ∷ [])
          (Holds-woken_amid 1 queued.runner (volume ∷ []) queued-Holds) 3 4 (omega arith)
        ∙ refl)

no_sound_until_half_full_example : IsSilent (round early late written)
no_sound_until_half_full_example =
    no_sound_until_half_full idle-Holds (omega arith) refl reached (omega arith)
