-- ===== src/Examples/Server.antt =====
-- A packet at a server with one command queued.
use sid_pi.Base.{refl, arith, replicate, ◌≡◌, ◌++◌}
use sid_pi.Server.{process_read_buffer}
use sid_pi.Server.Received.{with_input, but_input, received_bytes_suffice}
use sid_pi.Server.Protocol.{serve}
use sid_pi.Server.Refine.Relation.{Agrees}
use sid_pi.Server.Refine.Packet.{process_read_buffer_refines}
use sid_pi.Examples.Samples.{serving, view_of, write_packet, serving-Shows}

process_read_buffer_refines_example :
    Agrees (serving 1) (process_read_buffer 8 (serving 1)) (serve write_packet (view_of 1))
process_read_buffer_refines_example =
    process_read_buffer_refines (serving 1) (view_of 1) write_packet (serving-Shows 1 (omega arith))
      (record { old = replicate 100 0; input = refl })

-- zeros behind the packet, and what an older packet has left
received_bytes_suffice_example :
    but_input (process_read_buffer 8 (with_input (write_packet ++ replicate 100 0) (serving 1)))
    ≡ but_input (process_read_buffer 8 (with_input (write_packet ++ write_packet) (serving 1)))
received_bytes_suffice_example =
    received_bytes_suffice 8 (write_packet ++ replicate 100 0) (write_packet ++ write_packet) refl
      (serving 1) refl
