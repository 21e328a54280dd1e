-- ===== src/Session/Spec.antt =====
-- A conversation over the protocol: packets are answered one by one, and between them the oldest
-- queued command is played while playback is on.
use sid_pi.Base.{ℕ, none, some, List, [], ◌∷◌, ◌++◌, if◌then◌else◌}
use sid_pi.Runner.Commands.{Command}
use sid_pi.Server.Protocol.{View, serve}
use sid_pi.Session.{Event, bytes, end_of_file, read_failed, thread}

pub data Ending : Type 0 where
  reading : View → List (List ℕ) → Ending
  closed : View → List (List ℕ) → Ending
  ended : List (List ℕ) → Ending

abbrev pub behind_first : List Command → List Command
behind_first [] = []
behind_first (c ∷ cs) = cs

abbrev pub played_one : View → View
played_one v = if v.playing then record v { queue = behind_first v.queue } else v

abbrev pub conversation : List Event → View → List (List ℕ) → Ending
conversation [] v sent = reading v sent
conversation (bytes bs ∷ es) v sent = elim (serve bs v) [
  | some r ↦ conversation es r.view (sent ++ (r.answer ∷ []))
  | none ↦ ended sent
]
conversation (end_of_file ∷ es) v sent = conversation es v sent
conversation (read_failed ∷ es) v sent = closed v sent
conversation (thread t1 t2 ∷ es) v sent = conversation es (played_one v) sent
