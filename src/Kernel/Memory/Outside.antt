-- ===== src/Kernel/Memory/Outside.antt =====
-- The registers that the module writes, against the regions that it has mapped.
use sid_pi.Base.{
  ℕ, ◌+◌, ◌*◌, ◌/◌, ◌%◌, ◌^◌, ◌≤◌, ◌≡◌, ◌⊎◌, inl, inr, subst, arith, Bool, true, false, Bool-cases,
  none, some, List, [], ◌∷◌, ltb, if◌then◌else◌,
}
use mathlib.Core.Option.{some-injective}
use sid_pi.Clock.{Access, oscillator, is_idle, program_clock, start_sid_clk_int}
use sid_pi.Kernel.Memory.{
  pi_version, peri_base, Region, gpio_region, clock_region, timer_region, address, region_of,
}

-- No byte in common.
abbrev pub Apart : Region → Region → Type 0
Apart r q = (r.first + r.size ≤ q.first) ⊎ (q.first + q.size ≤ r.first)

-- Whatever the version of the Pi, the three regions have no byte in common.
pub regions-Apart :
    (system_rev : ℕ)
    → let base = peri_base (pi_version system_rev) in
      Apart (gpio_region base) (clock_region base)
      × Apart (gpio_region base) (timer_region base)
      × Apart (clock_region base) (timer_region base)
regions-Apart system_rev = (inr (omega arith), inr (omega arith), inr (omega arith))

-- Each access goes behind the end of the region that was mapped for it.
abbrev pub AllBehind : ℕ → List Access → Type 0
AllBehind base [] = Unit {0}
AllBehind base (a ∷ rest) =
    ((region_of base a).first + (region_of base a).size ≤ address base a) × AllBehind base rest

program_clock-AllBehind :
    (base freq divf : ℕ) (words : List ℕ) → AllBehind base (program_clock freq divf words)
unfolding program_clock
program_clock-AllBehind base freq divf words = elim (Bool-cases (is_idle words)) [
  | inl e ↦ rw e (omega arith, (omega arith, (omega arith, (omega arith, (omega arith, tt)))))
  | inr e ↦ rw e (omega arith, tt)
]

-- On loading, the kernel module programs the clock outside its mappings: whatever the version of the Pi, the frequency
-- and what the clock manager reads, every store of `startSidClk` goes behind the 32 bytes mapped for the clock or
-- behind the 256 bytes mapped for the timer.
pub start_sid_clk_int-AllBehind :
    (system_rev freq : ℕ) (words : List ℕ) (accesses : List Access)
    → start_sid_clk_int freq words ≡ some accesses
    → AllBehind (peri_base (pi_version system_rev)) accesses
unfolding start_sid_clk_int
start_sid_clk_int-AllBehind system_rev freq words accesses e =
    if_some (ltb (oscillator % freq * 4096) (2 ^ 31)) _ accesses e
      (program_clock-AllBehind base freq (oscillator % freq * 4096 / 19200000) words)
  where
    base : ℕ
    base = peri_base (pi_version system_rev)

    if_some :
        (b : Bool) (made others : List Access)
        → (if b then some made else none) ≡ some others
        → AllBehind base made
        → AllBehind base others
    if_some true made others e h = subst (AllBehind base) (some-injective _ _ e) h
    if_some false made others e h = absurd (cc)
