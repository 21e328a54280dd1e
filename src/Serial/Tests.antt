-- ===== src/Serial/Tests.antt =====
-- A command through the shift register, over the levels of the pins as the registers.
use sid_pi.Base.{ℕ, ◌+◌, ◌*◌, ◌%◌, ◌≡◌, ◌++◌, arith, List, [], length}
use sid_pi.Pins.Sample.{Board, board, board-Drives, high}
use sid_pi.Serial.{Line, write_sid}
use sid_pi.Serial.Bits.{shifted, write_sid-shifted}

abbrev quiet : Line Board
quiet = record { pins = high; reset = 1; bit_counter = 0; taken = [] }

write_sid-shifted_example :
    (bits : List ℕ) × ((write_sid board board-Drives 24 15 quiet).taken ≡ [] ++ bits)
    × (length bits ≡ 16)
    × (shifted 0 bits ≡ 15 % 256 * 256 + 1 * 32 + 24 % 32)
write_sid-shifted_example = write_sid-shifted board board-Drives 24 15 quiet (omega arith)
