-- ===== src/Session.antt =====
-- The loop over one connection in `main` of sidpiserver/src/sidpiserver.c, with the SID thread
-- running between its packets. What the sockets do is the list of events.
pub mod Spec
pub mod Refine
pub mod Framing
pub mod Sounds
use sid_pi.Base.{ℕ, ◌+◌, List, [], ◌∷◌, ◌++◌, length, take, drop, replicate}
use sid_pi.Runner.{Timeval, thread_round}
use sid_pi.Server.{Server, Complaint, Outcome, done, exited, process_read_buffer}

-- What `read(new_fd, dataRead, 16384)` returns: a count above 0 with the bytes, 0, or -1.
pub data Event : Type 0 where
  bytes : List ℕ → Event
  end_of_file : Event
  read_failed : Event
  -- a round of the SID thread, by what its clock reads
  thread : Timeval → Timeval → Event

-- Where the loop is after the events, with what it has sent, a list for each `send`.
pub data Connection : Type 0 where
  -- in the loop, at the next `read`
  reading : Server → List (List ℕ) → Connection
  -- past the loop, at `close(new_fd)`
  closed : Server → List (List ℕ) → Connection
  -- the program has ended
  ended : Complaint → List (List ℕ) → Connection

-- `read` into the front of `dataRead`
abbrev pub receive : List ℕ → Server → Server
receive bs s = record s { data_read = bs ++ drop (length bs) s.data_read }

-- `send(new_fd, dataWrite, dataWritePos, 0)`
abbrev pub to_send : Server → List ℕ
to_send s = take s.data_write_pos s.data_write

-- The loop `while (rv > -1)`; what follows the first failed `read` is for the next connection.
unfoldable pub connection : List Event → Server → List (List ℕ) → Connection
connection [] s sent = reading s sent
connection (bytes bs ∷ es) s sent = elim (process_read_buffer (length bs) (receive bs s)) [
  | done s' ↦ connection es s' (sent ++ (to_send s' ∷ []))
  | exited c ↦ ended c sent
]
connection (end_of_file ∷ es) s sent = connection es s sent
connection (read_failed ∷ es) s sent = closed s sent
connection (thread t1 t2 ∷ es) s sent =
    connection es (record s { runner = (thread_round t1 t2 s.runner).1 }) sent
