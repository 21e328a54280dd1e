-- ===== src/Startup/Main.antt =====
-- `main` as a whole: the globals as the set-up leaves them, and then the loop over `accept`.
use sid_pi.Base.{
  ℕ, ◌≡◌, refl, sym, ap, ◌∙◌, subst, arith, false, Option, none, some, List, [], length, pos,
  AreBytes,
}
use sid_pi.Fifo.{Fifo}
use sid_pi.Runner.{Runner}
use sid_pi.Runner.Commands.{Holds}
use sid_pi.Pins.{Gpio}
use sid_pi.Clock.{Double}
use sid_pi.Server.{Server}
use sid_pi.Server.Protocol.{View}
use sid_pi.Server.Refine.Relation.{Shows, data_write_size}
use sid_pi.Setup.{Host, Env}
use sid_pi.Setup.Ready.{HasMemory, init-Fresh, fifo_of, fifo-setup_sid}
use sid_pi.Startup.{Machine, accepting, start, Client, serve_clients}
use sid_pi.Startup.Clients.{FollowsAll, AllDeliver, host_clients, serve_clients-FollowsAll}
use sid_pi.Startup.Outcome.{Reached, start-Reached}

-- The globals of sidrunnerthread.c as they are when the program starts, but for `fifo`.
abbrev pub first_runner : Fifo → Runner
first_runner queue = record {
  fifo = queue;
  buffer = record { first = 0; last = 0; count = 0 };
  is_playback_ready = 0;
  current_clock = 0;
  target_cycles = 0;
  threshold = pos 10;
  multiplier = pos 1000;
}

-- The globals of sidpiserver.c, with what `malloc` has given for `dataRead` and `dataWrite`.
abbrev pub first_server : Fifo → List ℕ → List ℕ → Server
first_server queue read write = record {
  data_read = read;
  data_write = write;
  data_write_pos = 0;
  data_read_pos = 0;
  input_clock = 0;
  effects = [];
  runner = first_runner queue;
}

-- The server before its loop over `accept`, if the set-up has made a FIFO.
abbrev pub launched : {G : Type 0} → Host G → List ℕ → List ℕ → Option Server
launched h read write = elim h.fifo [
  | none ↦ none
  | some queue ↦ some (first_server queue read write)
]

-- nothing queued, playback off
abbrev pub first_view : View
first_view = record { queue = []; playing = false; clock = 0 }

first_server-Shows :
    (queue : Fifo) (read write : List ℕ)
    → Holds queue []
    → AreBytes read
    → length write ≡ data_write_size
    → Shows (first_server queue read write) first_view
first_server-Shows queue read write h b n = record {
  holds = h;
  plays = refl;
  clocks = refl;
  clock_fits = omega arith;
  room = n;
  read_at = refl;
  input = b;
}

module _ {G D : Type 0} (io : Gpio G) (d : Double D) where
  -- `main` serves the protocol: where it gets to its loop over `accept` on a first set-up with memory, it has a server
  -- there that holds with whatever clients come the conversations of the protocol, one after the other, from
  -- an empty queue on.
  pub main_serves :
      (m : Machine) (env : Env) (h h' : Host G) (read write : List ℕ) (clients : List Client)
      → start io d m env h ≡ accepting h'
      → h.sid_setup ≡ 0
      → HasMemory env.malloc
      → AreBytes read
      → length write ≡ data_write_size
      → AllDeliver clients
      → (s : Server) × (launched h' read write ≡ some s)
        × FollowsAll (serve_clients clients s []) (host_clients clients first_view [])
  main_serves m env h h' read write clients e first memory b n delivers =
      let passed = subst (Reached io d m env h) e (start-Reached io d m env h) in
      let fresh = init-Fresh env.malloc h.live memory in
      let made : h'.fifo ≡ some fresh.queue =
        ap (fifo_of io d) (sym passed.set_up) ∙ fifo-setup_sid io d env h fresh first in
      (
        first_server fresh.queue read write,
        rw made refl,
        serve_clients-FollowsAll clients (first_server fresh.queue read write) first_view [] []
            delivers (first_server-Shows fresh.queue read write fresh.holds b n) refl,
      )
