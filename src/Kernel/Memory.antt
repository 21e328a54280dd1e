-- ===== src/Kernel/Memory.antt =====
-- module/src/sidpi.c: the addresses of the registers, by the version of the Pi, and the regions that the module asks
-- for and maps.
pub mod Outside
use sid_pi.Base.{ℕ, ◌+◌, ◌*◌, ◌≤◌, ◌≡◌, List, [], ◌∷◌, bit_and, ltb, ◌==◌, if◌then◌else◌}
use sid_pi.Clock.{Access, clock_word, timer_word}

-- `BCM2708_PERI_BASE_1`, `BCM2708_PERI_BASE_2`
abbrev pub peri_base_1 : ℕ
peri_base_1 = 0x20000000

abbrev pub peri_base_2 : ℕ
peri_base_2 = 0x3F000000

-- `GPIO_BASE`, `GPIO_TIMER`, `GPIO_CLOCK`
abbrev pub gpio_base : ℕ
gpio_base = 0x200000

abbrev pub gpio_timer : ℕ
gpio_timer = 0x003000

abbrev pub gpio_clock : ℕ
gpio_clock = 0x00101000

-- `piVersion`, of the kernel's `system_rev`
abbrev pub pi_version : ℕ → ℕ
pi_version system_rev = if ltb 0x15 (bit_and system_rev 0xFFFF) then 1 else 0

-- `peri_base`, and `saved_peri_base`
abbrev pub peri_base : ℕ → ℕ
peri_base version = if version == 0 then peri_base_1 else peri_base_2

-- the arguments of `request_mem_region` and of `ioremap`
pub record Region : Type 0 where
  pub first : ℕ
  pub size : ℕ

abbrev pub gpio_region : ℕ → Region
gpio_region base = record { first = gpio_base + base; size = 4096 }

abbrev pub clock_region : ℕ → Region
clock_region base = record { first = gpio_clock + base; size = 32 }

abbrev pub timer_region : ℕ → Region
timer_region base = record { first = gpio_timer + base; size = 256 }

-- where an access goes: `(u32 *) gpio_clock + n`, `(u32 *) gpio_timer + n`
abbrev pub address : ℕ → Access → ℕ
address base (clock_word n word) = (clock_region base).first + 4 * n
address base (timer_word n word) = (timer_region base).first + 4 * n

-- the region that was mapped for it
abbrev pub region_of : ℕ → Access → Region
region_of base (clock_word n word) = clock_region base
region_of base (timer_word n word) = timer_region base
