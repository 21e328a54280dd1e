-- ===== src/Startup.antt =====
-- `main` of sidpiserver/src/sidpiserver.c around the connection loop: from the buffers and the socket to the
-- loop over `accept`, and `signal_callback_handler`.
pub mod Bind
pub mod Clients
pub mod Outcome
pub mod Main
pub mod Signal
use sid_pi.Base.{
  ℕ, ◌+◌, ◌-◌, ◌≡◌, Bool, true, false, not, ◌&&◌, ◌||◌, Option, none, some, List, [], ◌∷◌, ◌++◌,
  if◌then◌else◌,
}
use sid_pi.Pins.{Gpio}
use sid_pi.Clock.{Double}
use sid_pi.Setup.{Host, Env, SetUp, back, waiting, setup_sid}
use sid_pi.Server.{Server, Complaint}
use sid_pi.Session.{Event, Connection, reading, closed, ended, connection}

-- One result of `getaddrinfo`, by which calls succeed on it.
pub record Address : Type 0 where
  pub socket : Bool
  pub setsockopt : Bool
  pub bind : Bool

-- Where the loop over the addresses ends, with the sockets that are open then.
pub data Bound : Type 0 where
  at_socket : ℕ → Bound
  -- `p == NULL`
  nowhere : ℕ → Bound
  -- `exit(1)`
  option_refused : ℕ → Bound

unfoldable pub bind_first : List Address → ℕ → Bound
bind_first [] opened = nowhere opened
bind_first (p ∷ ps) opened =
    let next = bind_first ps in
    if not p.socket
    then next opened
    else if not p.setsockopt
    then option_refused (opened + 1)
    else if not p.bind
    then next (opened + 1 - 1)
    else at_socket (opened + 1)

-- How the calls of `main` go. A failed `open` of /dev/sid only prints.
pub record Machine : Type 0 where
  pub read_buffer : Bool
  pub write_buffer : Bool
  -- what `getaddrinfo` finds, or none for an error
  pub addresses : Option (List Address)
  pub listen : Bool
  pub sigaction : Bool

-- Where `main` is before its loop over `accept`.
pub data Started (G : Type 0) : Type 0 where
  -- `return` or `exit` with this code, and the buffers in use
  left : (code buffers : ℕ) → Started G
  -- still in `setupSid`
  setting_up : Host G → Started G
  accepting : Host G → Started G

abbrev count : Bool → ℕ
count b = if b then 1 else 0

module _ {G D : Type 0} (io : Gpio G) (d : Double D) where
  abbrev pub after_setup : SetUp G → Started G
  after_setup (back h) = accepting h
  after_setup (waiting h) = setting_up h

  -- `main` from the socket on
  unfoldable pub start_network : Machine → Bound → Env → Host G → Started G
  start_network m (nowhere n) env h = left 2 2
  start_network m (option_refused n) env h = left 1 2
  start_network m (at_socket n) env h =
      if not m.listen
      then left 1 2
      else if not m.sigaction
      then left 1 2
      else after_setup (setup_sid io d env h)

  unfoldable pub start : Machine → Env → Host G → Started G
  unfolding start_network bind_first
  start m env h =
      if not m.read_buffer || not m.write_buffer
      then left 1
          (count m.read_buffer + count m.write_buffer - count m.read_buffer - count m.write_buffer)
      else elim m.addresses [ none ↦ left 1 2 | some ps ↦ start_network m (bind_first ps 0) env h ]

-- What `accept` gives: an error, or a client with what its `read`s give, the rounds of the SID thread since the
-- last client first.
pub data Client : Type 0 where
  refused : Client
  arrives : List Event → Client

-- Where the loop over `accept` is, with what each client has been sent.
pub data Serving : Type 0 where
  at_accept : Server → List (List (List ℕ)) → Serving
  in_session : Server → List (List (List ℕ)) → Serving
  over : Complaint → List (List (List ℕ)) → Serving

-- `while (1)`; clients behind one whose connection is still open are not accepted.
unfoldable pub serve_clients : List Client → Server → List (List (List ℕ)) → Serving
serve_clients [] s log = at_accept s log
serve_clients (refused ∷ cs) s log = serve_clients cs s log
serve_clients (arrives es ∷ cs) s log = elim (connection es s []) [
  | reading s' sent ↦ in_session s' (log ++ (sent ∷ []))
  | closed s' sent ↦ serve_clients cs s' (log ++ (sent ∷ []))
  | ended c sent ↦ over c (log ++ (sent ∷ []))
]
