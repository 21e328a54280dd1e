-- ===== src/Examples/Session.antt =====
-- Connections: a packet with the SID thread in between, a packet in two parts, two packets in one `read`.
use sid_pi.Base.{◌≡◌, refl, arith, List, [], ◌∷◌, ◌%◌, some}
use sid_pi.Session.{Event, bytes, end_of_file, read_failed, thread, connection, reading, ended}
use sid_pi.Server.{Complaint, Server}
use sid_pi.Session.Spec.{conversation}
use sid_pi.Session.Refine.{Follows, DeliversBytes, connection-Follows}
use sid_pi.Session.Sounds.{awake, packet_sounds}
use sid_pi.Server.Request
use sid_pi.Server.Answer
use sid_pi.Bits.Digits.{bit}
use sid_pi.Pins.{cs}
use sid_pi.Pins.Shows.{data_pin, addr_pin}
use sid_pi.Pins.Sample.{Board, board, board-Drives, high}
use sid_pi.Runner.{thread_round}
use sid_pi.Runner.Sounds.{latched}
use sid_pi.Server.Refine.Relation.{Shows}
use sid_pi.Session.Framing.{split_packet_ends}
use sid_pi.Examples.Samples.{idle, serving, view_of, write_packet, serving-Shows, early, late}

abbrev events : List Event
events = thread early late ∷ bytes write_packet ∷ end_of_file ∷ read_failed ∷ []

events-DeliversBytes : DeliversBytes events
events-DeliversBytes = (
  (
    omega arith,
    (
      omega arith,
      (omega arith, (omega arith, (omega arith, (omega arith, (omega arith, (omega arith, tt)))))),
    ),
  ),
  tt,
)

connection-Follows_example :
    Follows (connection events (serving 1) []) (conversation events (view_of 1) [])
connection-Follows_example =
    connection-Follows events (serving 1) (view_of 1) [] [] events-DeliversBytes
      (serving-Shows 1 (omega arith)) refl

-- the first five bytes of the packet, which has eight
split_packet_ends_example :
    (c : Complaint) × (connection
        (bytes (5 ∷ 0 ∷ 0 ∷ 4 ∷ 0x4e ∷ []) ∷ bytes (0x20 ∷ 0x18 ∷ 15 ∷ []) ∷ [])
        (serving 1)
        []
      ≡ ended c [])
split_packet_ends_example =
    split_packet_ends (serving 1) (view_of 1) 5 0 0 4 (0x4e ∷ 0x20 ∷ 0x18 ∷ 15 ∷ []) 5
      (bytes (0x20 ∷ 0x18 ∷ 15 ∷ []) ∷ []) [] (serving-Shows 1 (omega arith))
      (omega arith, (omega arith, (omega arith, (omega arith, (omega arith, tt))))) refl
      (omega arith) (omega arith)

abbrev playing_server : Server
playing_server = record (serving 0) { runner = record idle { is_playback_ready = 1 } }

playing-Shows : Shows playing_server (awake 5)
playing-Shows =
    let h = serving-Shows 0 (omega arith) in
    record {
      holds = h.holds;
      plays = refl;
      clocks = refl;
      clock_fits = omega arith;
      room = h.room;
      read_at = refl;
      input = h.input;
    }

-- volume 15: bit 3 of the value, and bit 4 of the register
packet_sounds_example :
    (s' : Server) × (g' : Board) × (connection
        (bytes (Request.try_write ∷ 0 ∷ 0 ∷ 4 ∷ 0x4e ∷ 0x20 ∷ 0x18 ∷ 15 ∷ []) ∷ [])
        playing_server
        []
      ≡ reading s' ((Answer.ok ∷ []) ∷ []))
    × (latched board (thread_round early late s'.runner).0 high ≡ some g')
    × (g'.levels (data_pin 3) ≡ bit 3 15)
    × (g'.levels (addr_pin 4) ≡ bit 4 (0x18 % 32))
    × (g'.levels cs ≡ 0)
packet_sounds_example =
    packet_sounds board board-Drives playing_server 5 0 0x4e 0x20 0x18 15 early late high 3 4
      playing-Shows (omega arith) (omega arith) (omega arith) (omega arith) (omega arith)
      (omega arith) (omega arith)
