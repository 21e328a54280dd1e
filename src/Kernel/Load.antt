-- ===== src/Kernel/Load.antt =====
-- module/src/sidpi.c: loading and unloading the module, by the resources that it holds.
use sid_pi.Base.{
  ℕ, ◌≡◌, ◌⊎◌, Bool, not, true, false, ◌&&◌, arith, List, [], ◌∷◌, ◌==◌, if◌then◌else◌,
}

pub data Resource : Type 0 where
  proc_entry chrdev sid_class sid_device thread : Resource
  gpio_region gpio_map clock_region clock_map timer_region timer_map : Resource

abbrev pub index : Resource → ℕ
index proc_entry = 0
index chrdev = 1
index sid_class = 2
index sid_device = 3
index thread = 4
index gpio_region = 5
index gpio_map = 6
index clock_region = 7
index clock_map = 8
index timer_region = 9
index timer_map = 10

-- The call that gives `r` back.
abbrev pub release : Resource → List Resource → List Resource
release r [] = []
release r (q ∷ qs) = if index q == index r then qs else q ∷ release r qs

-- Which calls of the kernel succeed. `proc_create` is not tested.
pub record Grants : Type 0 where
  pub register_chrdev : Bool
  pub class_create : Bool
  pub device_create : Bool
  pub request_gpio : Bool
  pub ioremap_gpio : Bool
  pub request_clock : Bool
  pub ioremap_clock : Bool
  pub request_timer : Bool
  pub ioremap_timer : Bool
  pub kthread_run : Bool

pub data Loaded : Type 0 where
  success eio eagain : Loaded

-- from the label `failed_chrdevreg`, `failed_classreg`, `failed_devreg` on
abbrev failed_chrdevreg : List Resource → Loaded × List Resource
failed_chrdevreg held = (eio, held)

abbrev failed_classreg : List Resource → Loaded × List Resource
failed_classreg held = failed_chrdevreg (release chrdev held)

abbrev failed_devreg : List Resource → Loaded × List Resource
failed_devreg held = failed_classreg (release sid_class held)

-- The part of `_sid_init_module` from `setPinsToOutput2` on.
unfoldable pub init_thread : Grants → List Resource → Loaded × List Resource
init_thread g held = if not g.kthread_run then (eagain, held) else (success, thread ∷ held)

-- The requests of memory for the timer, the clock and the pins, each with what it gives back on failure.
unfoldable pub init_timer : Grants → List Resource → Loaded × List Resource
unfolding init_thread
init_timer g held =
    if not g.request_timer
    then failed_devreg
        (release gpio_region (release gpio_map (release clock_region (release clock_map held))))
    else if not g.ioremap_timer
    then failed_devreg (
        release gpio_region (
          release gpio_map (
            release clock_region (release clock_map (release timer_region (timer_region ∷ held))))))
    else init_thread g (timer_map ∷ timer_region ∷ held)

unfoldable pub init_clock : Grants → List Resource → Loaded × List Resource
unfolding init_timer
init_clock g held =
    if not g.request_clock
    then failed_devreg (release gpio_region (release gpio_map held))
    else if not g.ioremap_clock
    then failed_devreg
        (release gpio_region (release gpio_map (release clock_region (clock_region ∷ held))))
    else init_timer g (clock_map ∷ clock_region ∷ held)

unfoldable pub init_gpio : Grants → List Resource → Loaded × List Resource
unfolding init_clock
init_gpio g held =
    if not g.request_gpio
    then failed_devreg held
    else if not g.ioremap_gpio
    then failed_devreg (release gpio_region (gpio_region ∷ held))
    else init_clock g (gpio_map ∷ gpio_region ∷ held)

-- `_sid_init_module`
unfoldable pub init_module : Grants → Loaded × List Resource
unfolding init_gpio
init_module g =
    let with_proc = proc_entry ∷ [] in
    if not g.register_chrdev
    then failed_chrdevreg with_proc
    else let with_chrdev = chrdev ∷ with_proc in
      if not g.class_create
      then failed_classreg with_chrdev
      else let with_class = sid_class ∷ with_chrdev in
        if not g.device_create
        then failed_devreg with_class
        else init_gpio g (sid_device ∷ with_class)

-- the calls of `_sid_cleanup_module`, in order
abbrev pub cleanup_order : List Resource
cleanup_order =
    thread ∷ gpio_map ∷ clock_map ∷ timer_map ∷ timer_region ∷ clock_region ∷ gpio_region
    ∷ sid_device ∷ sid_class ∷ chrdev ∷ proc_entry ∷ []

abbrev pub release_each : List Resource → List Resource → List Resource
release_each [] held = held
release_each (r ∷ rs) held = release_each rs (release r held)

-- `_sid_cleanup_module`
unfoldable pub cleanup_module : List Resource → List Resource
cleanup_module held = release_each cleanup_order held

-- The calls up to `device_create`, and the requests of memory behind it.
abbrev pub gets_device : Grants → Bool
gets_device g = g.register_chrdev && g.class_create && g.device_create

abbrev pub gets_memory : Grants → Bool
gets_memory g =
    g.request_gpio && g.ioremap_gpio && g.request_clock && g.ioremap_clock && g.request_timer
    && g.ioremap_timer

-- What a load leaves held, by how it ends, and which calls have gone wrong then.
abbrev pub Left : Grants → Loaded × List Resource → Type 0
Left g (success, held) =
    (gets_device g ≡ true)
    × (gets_memory g ≡ true)
    × (g.kthread_run ≡ true)
    × (cleanup_module held ≡ [])
Left g (eio, held) =
    ((gets_device g ≡ false) × (held ≡ proc_entry ∷ []))
    ⊎ ((gets_device g ≡ true) × (gets_memory g ≡ false) × (held ≡ sid_device ∷ proc_entry ∷ []))
Left g (eagain, held) =
    (gets_device g ≡ true)
    × (gets_memory g ≡ true)
    × (g.kthread_run ≡ false)
    × (held
        ≡ timer_map ∷ timer_region ∷ clock_map ∷ clock_region ∷ gpio_map ∷ gpio_region ∷ sid_device
          ∷ sid_class ∷ chrdev ∷ proc_entry ∷ [])

-- Unloading gives back all that a load that succeeds holds, and a load succeeds only if all its calls do. A load that
-- fails never gives back the entry under /proc: where a call up to `device_create` fails that alone is left, where a
-- request of memory fails the device too, and where only the thread cannot be started everything is.
pub init_module-Left : (g : Grants) → Left g (init_module g)
unfolding init_module init_gpio init_clock init_timer init_thread cleanup_module
init_module-Left g = ground arith
