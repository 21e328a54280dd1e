-- ===== src/System/Inv.antt =====
-- What holds in every reachable state of the two threads.
use native.Mathlib.Nat.{mod-add-mod, mod-eq_of_lt}
use sid_pi.Base.{
  ◌+◌, ◌*◌, ◌%◌, ◌^◌, ◌<◌, ◌≡◌, ◌≢◌, refl, sym, ap, ◌∙◌, subst, arith, true, List, [], ◌∷◌, ◌++◌,
  append-nil, append_assoc, map, length, length-append, inl, inr, pos, ℕ_discrete,
}
use sid_pi.Runner.{
  Runner, Timeval, pause, sid_write, thread_round, can_buffer_accept, start_playback,
  get_buffer_full,
}
use sid_pi.Runner.Commands.{Command, IsBytes, AllBytes, Holds, cycles_of, command}
use sid_pi.Runner.Queue.{sid_write_room, thread_round_plays, thread_round_pauses}
use sid_pi.Runner.Gates.{can_buffer_accept_lem, get_buffer_full_lem}
use sid_pi.Server.Decode.{total_cycles}
use sid_pi.System.{
  System, sound_of, woken, write_command, round, Step, wake, accept, write_next, thread, Reach,
  start, later,
}

-- `played` are the commands that the chip has been told, `queue` those in the FIFO.
pub record Inv (r0 : Runner) (s : System) : Type 0 where
  pub played : List Command
  pub queue : List Command
  pub holds : Holds s.runner.fifo queue
  pub order : s.accepted ≡ played ++ (queue ++ s.todo)
  pub heard : s.sounds ≡ map sound_of played
  pub room : length queue + length s.todo < 2048
  pub todo_bytes : AllBytes s.todo
  pub clock : s.runner.current_clock ≡ (r0.current_clock + total_cycles played) % 2 ^ 32

woken_kept : (r : Runner) → ((woken r).fifo ≡ r.fifo) × ((woken r).current_clock ≡ r.current_clock)
unfolding start_playback
woken_kept r = ground arith

total_cycles-snoc :
    (cs : List Command) (c : Command)
    → total_cycles (cs ++ (c ∷ [])) ≡ total_cycles cs + cycles_of c
total_cycles-snoc [] c = omega arith
total_cycles-snoc (d ∷ cs) c = omega (arith, total_cycles-snoc cs c)

map-snoc :
    (cs : List Command) (c : Command)
    → map sound_of (cs ++ (c ∷ [])) ≡ map sound_of cs ++ (sound_of c ∷ [])
map-snoc [] c = refl
map-snoc (d ∷ cs) c = ap (λ t. sound_of d ∷ t) (map-snoc cs c)

command_self : (c : Command) → IsBytes c → command c.reg c.value c.cycle_high c.cycle_low ≡ c
command_self c b = ground (
  arith,
  mod-eq_of_lt b.reg_byte,
  mod-eq_of_lt b.value_byte,
  mod-eq_of_lt b.high_byte,
  mod-eq_of_lt b.low_byte,
)

module _ {r0 : Runner} {s : System} (inv : Inv r0 s) where
  open inv use {played, queue, holds, order, heard, room, todo_bytes, clock}

  wake-Inv : Inv r0 (record s { runner = woken s.runner })
  wake-Inv = record {
    played = played;
    queue = queue;
    holds = subst (λ f. Holds f queue) (sym (woken_kept s.runner).0) holds;
    order = order;
    heard = heard;
    room = room;
    todo_bytes = todo_bytes;
    clock = (woken_kept s.runner).1 ∙ clock;
  }

  accept-Inv :
      (cs : List Command)
      → s.todo ≡ []
      → AllBytes cs
      → can_buffer_accept s.runner (pos (4 * length cs)) ≡ true
      → Inv r0 (record s { todo = cs; accepted = s.accepted ++ cs })
  accept-Inv cs none_left b fits = record {
    played = played;
    queue = queue;
    holds = holds;
    order = rw (order, none_left, append-nil) (append_assoc played queue cs);
    heard = heard;
    room = let gate = can_buffer_accept_lem s.runner queue holds (4 * length cs) in ground arith;
    todo_bytes = b;
    clock = clock;
  }

  write_next-Inv :
      (c : Command) (cs : List Command)
      → s.todo ≡ c ∷ cs
      → Inv r0 (record s { runner = write_command s.runner c; todo = cs })
  unfolding sid_write
  write_next-Inv c cs next =
      let b : IsBytes c × AllBytes cs = subst AllBytes next todo_bytes in
      let len = ap length next in
      record {
        played = played;
        queue = queue ++ (c ∷ []);
        holds =
            subst (λ d. Holds (write_command s.runner c).fifo (queue ++ (d ∷ [])))
              (command_self c b.0)
              (sid_write_room s.runner queue c.reg c.value c.cycle_high c.cycle_low holds
                (omega arith));
        order = rw (append_assoc queue (c ∷ []) cs, ← next) order;
        heard = heard;
        room = omega (arith, length-append queue (c ∷ []));
        todo_bytes = b.1;
        clock = clock;
      }

  paused-Inv :
      (t1 t2 : Timeval) → thread_round t1 t2 s.runner ≡ (pause, s.runner) → Inv r0 (round t1 t2 s)
  paused-Inv t1 t2 e = rw (e, append-nil) inv

  played-Inv :
      (t1 t2 : Timeval) (c : Command) (cs : List Command)
      → queue ≡ c ∷ cs
      → s.runner.is_playback_ready ≢ 0
      → Inv r0 (round t1 t2 s)
  played-Inv t1 t2 c cs e on =
      let (f, left, step) =
        thread_round_plays t1 t2 s.runner c cs (subst (Holds s.runner.fifo) e holds) on in
      rw step (record {
        played = played ++ (c ∷ []);
        queue = cs;
        holds = left;
        order =
            order
            ∙ ap (λ q. played ++ (q ++ s.todo)) e
            ∙ sym (append_assoc played (c ∷ []) (cs ++ s.todo));
        heard = ap (λ t. t ++ (sound_of c ∷ [])) heard ∙ sym (map-snoc played c);
        room = omega (arith, ap length e);
        todo_bytes = todo_bytes;
        clock =
            ap (λ t. (t + cycles_of c) % 2 ^ 32) clock
            ∙ mod-add-mod (r0.current_clock + total_cycles played) (2 ^ 32) (cycles_of c)
            ∙ ap (λ t. t % 2 ^ 32) (omega (arith, total_cycles-snoc played c));
      })

  thread-Inv : (t1 t2 : Timeval) → Inv r0 (round t1 t2 s)
  thread-Inv t1 t2 = by_queue queue refl
    where
      by_queue : (q : List Command) → queue ≡ q → Inv r0 (round t1 t2 s)
      by_queue [] e = paused-Inv t1 t2 (thread_round_pauses t1 t2 s.runner queue holds (inr e))
      by_queue (c ∷ cs) e = elim (ℕ_discrete s.runner.is_playback_ready 0) [
        | yes off ↦ paused-Inv t1 t2 (thread_round_pauses t1 t2 s.runner queue holds (inl off))
        | no on ↦ played-Inv t1 t2 c cs e on
      ]

-- Every step of the two threads keeps the invariant.
pub Step-Inv : {r0 : Runner} {s t : System} → Inv r0 s → Step s t → Inv r0 t
Step-Inv inv (wake none_left) = wake-Inv inv
Step-Inv inv (accept cs none_left b fits) = accept-Inv inv cs none_left b fits
Step-Inv inv (write_next c cs next) = write_next-Inv inv c cs next
Step-Inv inv (thread t1 t2) = thread-Inv inv t1 t2

-- From an empty FIFO and a clock of 32 bits, whatever the order of steps: the chip has been told the
-- commands of the accepted packets up to some point, each once and in order; the FIFO holds the ones
-- after, whole, and the rest are still to be written; and the clock has advanced by the cycles played.
pub Reach-Inv :
    {r0 : Runner} {s : System}
    → Holds r0.fifo []
    → r0.current_clock < 2 ^ 32
    → Reach r0 s
    → Inv r0 s
Reach-Inv empty small start = record {
  played = [];
  queue = [];
  holds = empty;
  order = refl;
  heard = refl;
  room = omega arith;
  todo_bytes = tt;
  clock = omega arith;
}
Reach-Inv empty small (later r st) = Step-Inv (Reach-Inv empty small r) st

-- In no state that is reached from an empty FIFO and a clock of 32 bits is the FIFO full:
-- `getBufferFull` is 0.
pub never_full :
    {r0 : Runner} {s : System}
    → Holds r0.fifo []
    → r0.current_clock < 2 ^ 32
    → Reach r0 s
    → get_buffer_full s.runner ≡ pos 0
never_full {s = s} empty small r =
    let i = Reach-Inv empty small r in
    get_buffer_full_lem s.runner i.queue i.holds ∙ (let room = i.room in ground arith)
