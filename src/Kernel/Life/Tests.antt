-- ===== src/Kernel/Life/Tests.antt =====
-- The kernel thread at concrete inputs, and the unloading of a module that has loaded.
use sid_pi.Base.{ℕ, ◌+◌, ◌*◌, ◌≡◌, refl, arith, true, false, List, [], ◌∷◌, ◌++◌, map, drop}
use sid_pi.Kernel.{Driver, Deed, acts, told, slowed}
use sid_pi.Kernel.Sample.{listed, listed-Behaves, driver, stack, good, good-IsGranted}
use sid_pi.Kernel.Calls.{answered, size, device_write}
use sid_pi.Kernel.Play.{Order, carried_out, orders_bytes}
use sid_pi.Kernel.Load.{
  Grants, init_module, cleanup_order, cleanup_module, Resource, proc_entry, chrdev, sid_class,
  sid_device, thread, gpio_region, gpio_map, clock_region, clock_map, timer_region, timer_map,
}
use sid_pi.Kernel.Life.{at_while, in_wait, returned, Pass, Life, sid_thread2}
use sid_pi.Kernel.Life.Rounds.{Made, sid_thread2-Made}
use sid_pi.Kernel.Life.Plays.{write_played}
use sid_pi.Kernel.Life.Stop.{kthread_stop_ends, stop_plays_stale}
use sid_pi.Kernel.Life.Unload.{SoundThrough, unload_stays_sound}

abbrev on : Pass
on = record { stop = false; signal = false; stale = stack }

abbrev signalled : Pass
signalled = record { stop = false; signal = true; stale = stack }

abbrev stopping : Pass
stopping = record { stop = true; signal = false; stale = 0 ∷ 7 ∷ 3 ∷ 0x0a ∷ [] }

abbrev begun : List ℕ → Life (List ℕ)
begun bytes = record { place = at_while; driver = driver bytes; deeds = [] }

abbrev asleep : Life (List ℕ)
asleep = record { place = in_wait; driver = driver []; deeds = [] }

-- a command, a signal in the wait for the next, and the wait again
abbrev passes : List Pass
passes = on ∷ on ∷ on ∷ signalled ∷ on ∷ on ∷ []

sid_thread2-Made_example :
    Made listed listed-Behaves false passes (begun (15 ∷ 0x18 ∷ 0x20 ∷ 0x4e ∷ []))
sid_thread2-Made_example =
    sid_thread2-Made listed listed-Behaves false passes (begun (15 ∷ 0x18 ∷ 0x20 ∷ 0x4e ∷ []))
      (refl, (refl, (refl, (refl, (refl, (refl, tt)))))) (λ e. cc)

abbrev order : Order
order = record { val = 15; reg = 0x18; low = 0x20; high = 0x4e }

write_played_example :
    (d' : Driver (List ℕ)) × (device_write listed false good
        (orders_bytes (order ∷ []))
        0
        (driver [])
      ≡ answered (size 4) 0 d')
    × (let l' = sid_thread2 listed false (on ∷ on ∷ []) (record (begun []) { driver = d' }) in
        (l'.deeds ≡ [] ++ map (carried_out false) (order ∷ []))
        × (l'.driver.msg_fifo ≡ [])
        × (l'.place ≡ at_while))
write_played_example =
    write_played listed listed-Behaves false good (order ∷ []) 0 (begun []) (on ∷ on ∷ [])
      good-IsGranted (λ e. cc) (omega arith) (omega arith) refl refl (refl, (refl, tt))
      (omega arith)

kthread_stop_ends_example :
    let l' = sid_thread2 listed false (stopping ∷ stopping ∷ []) asleep in
    (l'.place ≡ returned)
    × (asleep.place ≡ at_while → (l'.deeds ≡ []) × (l'.driver ≡ driver []))
    × (asleep.place ≡ in_wait
        → (deed : Deed) × (l'.deeds ≡ [] ++ (deed ∷ [])) × (l'.driver.msg_fifo ≡ drop 4 []))
kthread_stop_ends_example =
    kthread_stop_ends listed listed-Behaves false stopping stopping [] asleep (refl, (refl, tt))

-- 0 goes to register 7 after 0x0a03 cycles
stop_plays_stale_example :
    let l' = sid_thread2 listed false (stopping ∷ stopping ∷ []) asleep in
    (l'.place ≡ returned)
    × (l'.deeds ≡ [] ++ (acts (slowed false (0x0a * 256 + 3)) (told 7 0) ∷ []))
stop_plays_stale_example =
    stop_plays_stale listed listed-Behaves false stopping stopping [] asleep 0 7 3 0x0a
      (refl, (refl, tt)) refl (omega arith) (omega arith) refl refl

abbrev all_granted : Grants
all_granted = record {
  register_chrdev = true;
  class_create = true;
  device_create = true;
  request_gpio = true;
  ioremap_gpio = true;
  request_clock = true;
  ioremap_clock = true;
  request_timer = true;
  ioremap_timer = true;
  kthread_run = true;
}

abbrev loaded : List Resource
loaded =
    thread ∷ timer_map ∷ timer_region ∷ clock_map ∷ clock_region ∷ gpio_map ∷ gpio_region
    ∷ sid_device ∷ sid_class ∷ chrdev ∷ proc_entry ∷ []

unload_stays_sound_example : SoundThrough cleanup_order loaded × (cleanup_module loaded ≡ [])
unfolding init_module
unload_stays_sound_example = unload_stays_sound all_granted loaded refl
