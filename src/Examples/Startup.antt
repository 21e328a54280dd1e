-- ===== src/Examples/Startup.antt =====
-- `main` up to its loop over `accept`, and the loop with two clients.
use sid_pi.Base.{
  refl, arith, ◌↔◌, true, false, none, some, List, [], ◌∷◌, ℕ, ◌≡◌, replicate, length-replicate,
}
use sid_pi.Pins.Sample.{Board, board}
use sid_pi.Clock.Sample.{fractions}
use sid_pi.Setup.{Host, Env}
use sid_pi.Session.{bytes, end_of_file, read_failed, thread}
use sid_pi.Startup.{
  accepting, start_network, bind_first, Machine, Client, refused, arrives, serve_clients, start,
}
use sid_pi.Startup.Clients.{host_clients, FollowsAll, AllDeliver}
use sid_pi.Setup.{back, setup_sid}
use sid_pi.Setup.Ready.{setup_sid-Up}
use sid_pi.Server.{Server}
use sid_pi.Startup.Main.{launched, first_view, main_serves}
use sid_pi.Startup.Signal.{AllClean, buffers_of, signal-AllClean}
use sid_pi.Startup.Outcome.{Reached, start-Reached}
use sid_pi.Examples.Setup.{works, at_boot, all_well, plenty-HasMemory, all_mapped}
use sid_pi.Examples.Samples.{zeros-AreBytes, write_packet, early, late}

-- a failed `accept`, a client that sends a packet and leaves, and one that stays
abbrev clients : List Client
clients =
    refused
    ∷ arrives (bytes write_packet ∷ thread early late ∷ read_failed ∷ [])
    ∷ arrives (end_of_file ∷ [])
    ∷ []

clients-AllDeliver : AllDeliver clients
clients-AllDeliver = (
  (
    (
      omega arith,
      (
        omega arith,
        (
          omega arith,
          (omega arith, (omega arith, (omega arith, (omega arith, (omega arith, tt))))),
        ),
      ),
    ),
    tt,
  ),
  (tt, tt),
)

-- the first address has no socket
abbrev machine : Machine
machine = record {
  read_buffer = true;
  write_buffer = true;
  addresses = some (
      record { socket = false; setsockopt = true; bind = true }
      ∷ record { socket = true; setsockopt = true; bind = true }
      ∷ []);
  listen = true;
  sigaction = true;
}

-- the buffer of the FIFO is refused
abbrev no_memory : Env
no_memory = record {
  malloc = record { struct_given = true; buffer = λ n. none };
  fates = record { of_gpio = works; of_clock = works; of_timer = works };
  words = 1 ∷ [];
  thread_result = 0;
}

start-Reached_example :
    Reached board fractions machine no_memory at_boot
      (start board fractions machine no_memory at_boot)
start-Reached_example = start-Reached board fractions machine no_memory at_boot

starts :
    (h' : Host Board)
    → setup_sid board fractions all_well at_boot ≡ back h'
    → start board fractions machine all_well at_boot ≡ accepting h'
unfolding start start_network bind_first
starts h' e = rw e refl

main_serves_example :
    (h' : Host Board) × (s : Server) × (launched h' (replicate 100 0) (replicate 260 0) ≡ some s)
    × FollowsAll (serve_clients clients s []) (host_clients clients first_view [])
main_serves_example =
    let (h', e, up, again) =
      setup_sid-Up board fractions all_well all_well at_boot plenty-HasMemory all_mapped refl refl
        refl in
    let (s, made, follows) =
      main_serves board fractions machine all_well at_boot h' (replicate 100 0) (replicate 260 0)
        clients (starts h' e) refl plenty-HasMemory (zeros-AreBytes 100)
        (length-replicate {A = ℕ} 260 0) clients-AllDeliver in
    (h', s, made, follows)

-- `malloc` gives the second buffer alone.
abbrev half_granted : Machine
half_granted = record machine { read_buffer = false }

signal-AllClean_example : AllClean (buffers_of half_granted) ↔ (false ≡ true)
signal-AllClean_example = signal-AllClean half_granted
