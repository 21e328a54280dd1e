-- ===== src/Pins/Tests.antt =====
-- `writeSid` and `setPinsToOutput` over the registers of Sample.
use sid_pi.Base.{◌≡◌, arith, ◌==◌, if◌then◌else◌}
use sid_pi.Pins.Sample.{board, board-Keeps, high}
use sid_pi.Pins.Select.{clk, set_pins_to_output}
use sid_pi.Pins.Select.Modes.{mode_of}
use sid_pi.Pins.Select.Outputs.{among, outputs, set_pins_to_output_lem}

set_pins_to_output_lem_example :
    mode_of board board-Keeps (set_pins_to_output board high) 4
    ≡ (if 4 == clk then 4 else if among 4 outputs then 1 else mode_of board board-Keeps high 4)
set_pins_to_output_lem_example = set_pins_to_output_lem board board-Keeps high 4 (omega arith)
