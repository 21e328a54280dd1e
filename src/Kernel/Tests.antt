-- ===== src/Kernel/Tests.antt =====
-- The theorems on the driver at concrete inputs.
use sid_pi.Base.{
  ◌↔◌, ℕ, ◌≡◌, ◌≢◌, refl, arith, true, false, none, some, List, [], ◌∷◌, ◌++◌, length, replicate,
  length-replicate,
}
use sid_pi.Kernel.{Driver, acts, thread_round, interrupted, write_data}
use sid_pi.Kernel.Sample.{
  listed, listed-Behaves, volume, driver, stack, wakes, good, good-IsGranted,
}
use sid_pi.Kernel.Done.{Returns, write_data-Returns}
use sid_pi.Kernel.Calls.{Fortune, answered, size, device_write}
use sid_pi.Kernel.Chip.{generate_pin_tables, latched, write_sid_par, set_pins_to_output2}
use sid_pi.Kernel.Tables.{driver_as_server}
use sid_pi.Pins.Select.{set_pins_to_output}
use sid_pi.Clock.Sample.{fractions, fractions-IsPrecise}
use sid_pi.Kernel.Client.{client_bytes, client_write_swapped}
use sid_pi.Kernel.Lost.{interrupted_write_lost}
use sid_pi.Kernel.Sounds.{device_write_sounds}
use sid_pi.Bits.Digits.{bit}
use sid_pi.Pins.{cs, write_sid}
use sid_pi.Pins.Shows.{data_pin, addr_pin}
use sid_pi.Pins.Sample.{Board, board, board-Drives, high}
use sid_pi.Clock.{Access, start_sid_clk, start_sid_clk_int}
use sid_pi.Kernel.Memory.{pi_version, peri_base}
use sid_pi.Kernel.Memory.Outside.{AllBehind, start_sid_clk_int-AllBehind}
use sid_pi.Kernel.Load.{Grants, Left, init_module, init_module-Left}

write_data-Returns_example :
    Returns (write_data listed false wakes volume (driver (replicate 8192 7)))
write_data-Returns_example =
    write_data-Returns listed listed-Behaves false wakes volume (driver (replicate 8192 7)) tt (
      let n : length {A = ℕ} (replicate 8192 7) ≡ 8192 = length-replicate {A = ℕ} 8192 7 in
      omega arith)

-- everything granted but the memory of the clock
abbrev busy_clock : Grants
busy_clock = record {
  register_chrdev = true;
  class_create = true;
  device_create = true;
  request_gpio = true;
  ioremap_gpio = true;
  request_clock = false;
  ioremap_clock = true;
  request_timer = true;
  ioremap_timer = true;
  kthread_run = true;
}

init_module-Left_example : Left busy_clock (init_module busy_clock)
init_module-Left_example = init_module-Left busy_clock

-- bit 3 of the volume, and bit 4 of its register
device_write_sounds_example :
    (d' : Driver (List ℕ)) × (g' : Board) × (device_write listed false good volume 0 (driver [])
      ≡ answered (size 4) 0 d')
    × (latched board generate_pin_tables (thread_round listed false false stack d').0 high
        ≡ some g')
    × ((thread_round listed false false stack d').1.msg_fifo ≡ [])
    × (g'.levels (data_pin 3) ≡ bit 3 15)
    × (g'.levels (addr_pin 4) ≡ bit 4 0x18)
    × (g'.levels cs ≡ 0)
device_write_sounds_example =
    device_write_sounds listed listed-Behaves false board board-Drives good 0 (driver []) stack 15
      0x18 0x20 0x4e high 3 4 good-IsGranted refl (omega arith) (omega arith) (omega arith)
      (omega arith) (omega arith)

abbrev woken : Fortune
woken = record good { wakes = interrupted ∷ [] }

-- two bytes have room
interrupted_write_lost_example :
    (d' : Driver (List ℕ)) × (lost : List ℕ) × (device_write listed false woken volume 0
        (driver (replicate 8190 7))
      ≡ answered (size 4) 0 d')
    × (length d'.msg_fifo ≡ 8192)
    × (d'.msg_fifo ++ lost ≡ replicate 8190 7 ++ volume)
    × (lost ≢ [])
interrupted_write_lost_example =
    let n : length {A = ℕ} (replicate 8190 7) ≡ 8190 = length-replicate {A = ℕ} 8190 7 in
    interrupted_write_lost listed listed-Behaves false woken [] volume 0 (driver (replicate 8190 7))
      (record { device = refl; buffer = refl; whole = refl; lock = refl }) refl (omega arith)
      (omega arith)

-- 15 is there, and its register is not yet: it goes to register 7 after 0x0a03 cycles
-- `writeSid(0, 255)`, which the client makes
client_write_swapped_example :
    (d' : Driver (List ℕ)) × (device_write listed false good (client_bytes 0 255) 0 (driver [])
      ≡ answered (size 4) 0 d')
    × (let (deed, d2) = thread_round listed false false stack d' in
        (deed ≡ acts 0 none)
        × (d2.msg_fifo ≡ [])
        × ((deed ≡ acts 0 (some (0, 255))) ↔ ◌≡◌ {A = ℕ} 0 255))
client_write_swapped_example =
    client_write_swapped listed listed-Behaves false good 0 (driver []) stack 0 255 good-IsGranted
      refl

-- what is stored with a clock manager that is idle, on a Pi 2 and at the frequency of a PAL computer
abbrev stores : List Access
stores = elim (start_sid_clk_int 985248 (1 ∷ [])) [ some accesses ↦ accesses | none ↦ [] ]

start_sid_clk_int-AllBehind_example : AllBehind (peri_base (pi_version 0xa01041)) stores
unfolding start_sid_clk_int
start_sid_clk_int-AllBehind_example =
    start_sid_clk_int-AllBehind 0xa01041 985248 (1 ∷ []) stores refl

driver_as_server_example :
    (write_sid_par board generate_pin_tables 24 15 high ≡ write_sid board 24 15 high)
    × (set_pins_to_output2 board high ≡ set_pins_to_output board high)
    × (start_sid_clk_int 985248 (1 ∷ []) ≡ some (start_sid_clk fractions 985248 (1 ∷ [])))
driver_as_server_example =
    driver_as_server board fractions 24 15 985248 (1 ∷ []) high fractions-IsPrecise (omega arith)
      (omega arith) (omega arith)
