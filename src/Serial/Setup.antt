-- ===== src/Serial/Setup.antt =====
-- sidpiserver/src/serialsid.c: `mmap_devices` and `setup_sid`.
pub mod Ready
use sid_pi.Base.{ℕ, ◌≡◌, Bool, true, false, not, List, [], ◌∷◌, ◌++◌, if◌then◌else◌, ℤ, pos, negsuc}
use sid_pi.Pins.{Gpio}
use sid_pi.Pins.Select.{clk, set_mode, set_output}
use sid_pi.Clock.{Double, Access, is_idle, start_sid_clock}
use sid_pi.Setup.{gpio, gpio_clock, gpio_timer, Held, Fates, map_peripheral, is_minus_one}
use sid_pi.Serial.{ser, sclk, rclk, cs}

unfoldable pub mmap_devices : Fates → List Held → ℤ × List Held
mmap_devices fates held =
    let (rc1, held1) = map_peripheral gpio fates.of_gpio held in
    if is_minus_one rc1
    then (negsuc 0, held1)
    else let (rc2, held2) = map_peripheral gpio_clock fates.of_clock held1 in
      if is_minus_one rc2
      then (negsuc 0, held2)
      else let (rc3, held3) = map_peripheral gpio_timer fates.of_timer held2 in
        if is_minus_one rc3 then (negsuc 0, held3) else (pos 0, held3)

-- What the process holds, the registers `G` of the pins, and the stores to the other two peripherals.
pub record Process (G : Type 0) : Type 0 where
  pub held : List Held
  pub pins : G
  pub accesses : List Access

pub data Ran (G : Type 0) : Type 0 where
  back : Process G → Ran G
  -- in the loop that waits for the clock manager
  waiting : Process G → Ran G

module _ {G D : Type 0} (io : Gpio G) (d : Double D) where
  -- `setup_sid`; `DEFAULT_SID_SPEED_HZ` is 1000000, and `words` what the clock manager reads
  unfoldable pub setup_sid : Fates → List ℕ → Process G → Ran G
  setup_sid fates words s =
      let (rc, held) = mmap_devices fates s.held in
      if is_minus_one rc
      then back (record s { held = held })
      else let g1 = set_output io ser s.pins in
        let g2 = set_output io rclk g1 in
        let g3 = set_output io sclk g2 in
        let g4 = set_output io cs g3 in
        let g5 = set_output io clk g4 in
        let s1 : Process G = record {
          held = held;
          pins = set_mode io clk 4 g5;
          accesses = s.accesses ++ start_sid_clock d 1000000 words;
        } in
        if is_idle words then back s1 else waiting s1
