-- ===== src/Setup.antt =====
-- Bringing the chip up: sidpiserver/src/rpi.c, and `mmapRPIDevices`, `setupSid` and `startSidThread` of
-- sidpiserver/src/sidrunnerthread.c.
pub mod Mapping
pub mod Ready
pub mod Sounding
pub mod Chip
pub mod Block
pub mod Words
use sid_pi.Base.{
  ℕ, ◌+◌, ◌≡◌, Bool, true, false, not, Option, none, some, List, [], ◌∷◌, ◌++◌, ◌==◌, if◌then◌else◌,
  ℤ, pos, negsuc,
}
use sid_pi.Fifo.{Fifo, Malloc, init_fifo}
use sid_pi.Runner.{buffer_size}
use sid_pi.Pins.{Gpio}
use sid_pi.Pins.Filled.{PinTables, generate_pin_tables}
use sid_pi.Pins.Select.{set_pins_to_output}
use sid_pi.Clock.{Double, Access, is_idle, start_sid_clk}

-- `struct bcm2835_peripheral gpio, gpio_clock, gpio_timer`
pub data Peripheral : Type 0 where
  gpio gpio_clock gpio_timer : Peripheral

-- What the process holds for a peripheral: the descriptor `mem_fd`, and the memory `map`.
pub data Held : Type 0 where
  descriptor mapping : Peripheral → Held

-- How the calls of `open` and of `mmap` go.
pub record Fate : Type 0 where
  pub opened : Bool
  pub mapped : Bool

-- `close` of the descriptor opened last
abbrev pub close : List Held → List Held
close [] = []
close (_ ∷ held) = held

unfoldable pub map_peripheral : Peripheral → Fate → List Held → ℤ × List Held
map_peripheral p fate held =
    if not fate.opened
    then (negsuc 0, held)
    else let held1 = descriptor p ∷ held in
      if not fate.mapped then (negsuc 0, close held1) else (pos 0, mapping p ∷ held1)

-- The call that gives `h` back.
abbrev pub release : Held → List Held → List Held
release h [] = []
release h (q ∷ held) = if is_held h q then held else q ∷ release h held
  where
    index : Peripheral → ℕ
    index gpio = 0
    index gpio_clock = 1
    index gpio_timer = 2

    is_held : Held → Held → Bool
    is_held (descriptor p) (descriptor q) = index p == index q
    is_held (mapping p) (mapping q) = index p == index q
    is_held _ _ = false

-- `munmap` and `close`
unfoldable pub unmap_peripheral : Peripheral → List Held → List Held
unmap_peripheral p held = release (descriptor p) (release (mapping p) held)

abbrev pub is_minus_one : ℤ → Bool
is_minus_one (pos n) = false
is_minus_one (negsuc n) = n == 0

pub record Fates : Type 0 where
  pub of_gpio : Fate
  pub of_clock : Fate
  pub of_timer : Fate

unfoldable pub mmap_rpi_devices : Fates → List Held → ℤ × List Held
unfolding map_peripheral
mmap_rpi_devices fates held =
    let (rc1, held1) = map_peripheral gpio fates.of_gpio held in
    if is_minus_one rc1
    then (negsuc 0, held1)
    else let (rc2, held2) = map_peripheral gpio_clock fates.of_clock held1 in
      if is_minus_one rc2
      then (negsuc 0, held2)
      else let (rc3, held3) = map_peripheral gpio_timer fates.of_timer held2 in
        if is_minus_one rc3 then (negsuc 0, held3) else (pos 0, held3)

-- The globals that the set-up changes, with the pin tables, the registers `G` of the pins and the stores to the other two
-- peripherals. `live` are the heap blocks and `threads` the SID threads there are.
pub record Host (G : Type 0) : Type 0 where
  pub fifo : Option Fifo
  pub live : ℕ
  pub held : List Held
  pub sid_setup : ℕ
  pub running : ℕ
  pub threads : ℕ
  pub tables : PinTables
  pub pins : G
  pub accesses : List Access

-- How the calls of a `setupSid` go: what the clock manager reads, and what `pthread_create` returns.
pub record Env : Type 0 where
  pub malloc : Malloc
  pub fates : Fates
  pub words : List ℕ
  pub thread_result : ℕ

-- `startSidThread`. A `pthread_create` that fails returns the number of an error, which is never -1.
unfoldable pub start_sid_thread : {G : Type 0} → ℕ → Host G → Host G
start_sid_thread result s =
    if not (s.running == 0)
    then s
    else record s { threads = s.threads + (if result == 0 then 1 else 0); running = 1 }

pub data SetUp (G : Type 0) : Type 0 where
  back : Host G → SetUp G
  -- in the loop that waits for the clock manager
  waiting : Host G → SetUp G

module _ {G D : Type 0} (io : Gpio G) (d : Double D) where
  -- The part of `setupSid` behind the mapping; `DEFAULT_SID_SPEED_HZ` is 1000000.
  unfoldable pub start_chip : Env → Host G → SetUp G
  unfolding start_sid_thread
  start_chip env s =
      let s1 = record s {
        tables = generate_pin_tables;
        pins = set_pins_to_output io s.pins;
        accesses = s.accesses ++ start_sid_clk d 1000000 env.words;
      } in
      if not (is_idle env.words)
      then waiting s1
      else back (record (start_sid_thread env.thread_result s1) { sid_setup = 1 })

  unfoldable pub setup_sid : Env → Host G → SetUp G
  unfolding start_chip
  setup_sid env s =
      if not (s.sid_setup == 0)
      then back s
      else let (f, live) = init_fifo env.malloc (pos buffer_size) s.live in
        elim f [
          | none ↦ back (record s { fifo = none; live = live })
          | some f ↦
              let (rc, held) = mmap_rpi_devices env.fates s.held in
              let s1 = record s { fifo = some f; live = live; held = held } in
              if is_minus_one rc then back s1 else start_chip env s1
        ]
