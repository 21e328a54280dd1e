-- ===== src/Kernel/Threads/Tests.antt =====
-- Two processes and the kernel thread at concrete inputs.
use sid_pi.Base.{ℕ, ◌≡◌, ◌≢◌, refl, ap, arith, true, false, List, [], ◌∷◌, ◌++◌, length}
use sid_pi.Kernel.Queue.{history}
use sid_pi.Kernel.Calls.{device_write, delay_bytes}
use sid_pi.Kernel.Sample.{listed, listed-Behaves, volume, driver, good, good-IsGranted}
use sid_pi.Kernel.Threads.{
  idle, queued, holding, update, System, start, counted, entered, Step, call, lock, put, DelayStep,
  Reach, here, later,
}
use sid_pi.Kernel.Threads.Inv.{one_writer}
use sid_pi.Kernel.Threads.Serve.{writer_served}
use sid_pi.Kernel.Threads.Torn.{delay_tears}
use sid_pi.Kernel.Threads.Schedule.{Lands, device_write-Lands}

abbrev at_rest : System (List ℕ)
at_rest = start (driver [])

some_volume : volume ≢ []
some_volume e = absurd (omega (arith, ap length e))

abbrev called : System (List ℕ)
called = record at_rest { driver = counted (driver []) 4; pc = update at_rest.pc 0 (queued volume) }

abbrev locked : System (List ℕ)
locked = record called {
  lock_writer = true;
  pc = update called.pc 0 (holding volume);
  granted = [] ++ volume;
}

-- process 0 has put the first byte
abbrev begun : System (List ℕ)
begun = record locked {
  driver = entered listed false locked.driver 15;
  pc = update locked.pc 0 (holding (0x18 ∷ 0x20 ∷ 0x4e ∷ []));
}

begun_reached : Reach (Step listed false) at_rest begun
begun_reached =
    later (later (later here (call 0 volume refl some_volume)) (lock 0 volume refl refl))
      (put 0 15 (0x18 ∷ 0x20 ∷ 0x4e ∷ []) refl refl)

-- and process 1 waits
abbrev waited : System (List ℕ)
waited = record begun { driver = counted begun.driver 4; pc = update begun.pc 1 (queued volume) }

waited_reached : Reach (Step listed false) at_rest waited
waited_reached = later begun_reached (call 1 volume refl some_volume)

one_writer_example :
    (◌≡◌ {A = ℕ} 0 0)
    × (history listed listed-Behaves false waited.driver ++ (0x18 ∷ 0x20 ∷ 0x4e ∷ [])
        ≡ history listed listed-Behaves false (driver []) ++ volume)
one_writer_example =
    one_writer listed listed-Behaves false (driver []) 0 0 (0x18 ∷ 0x20 ∷ 0x4e ∷ [])
      (0x18 ∷ 0x20 ∷ 0x4e ∷ []) waited_reached refl refl

writer_served_example :
    (t : System (List ℕ)) × Reach (Step listed false) waited t
    × (t.pc 1 ≡ idle)
    × (history listed listed-Behaves false t.driver
        ≡ history listed listed-Behaves false (driver []) ++ (volume ++ volume))
writer_served_example =
    writer_served listed listed-Behaves false (driver []) 1 volume waited_reached refl

delay_tears_example :
    (t : System (List ℕ)) × Reach (DelayStep listed false) begun t
    × (t.pc 0 ≡ holding [])
    × (t.pc 1 ≡ idle)
    × (history listed listed-Behaves false t.driver
        ≡ history listed listed-Behaves false begun.driver
          ++ (delay_bytes 70000 ++ (0x18 ∷ 0x20 ∷ 0x4e ∷ [])))
delay_tears_example =
    delay_tears listed listed-Behaves false begun 0 1 70000 (0x18 ∷ 0x20 ∷ 0x4e ∷ []) refl refl
      (omega arith) (omega arith)

device_write-Lands_example :
    Lands listed listed-Behaves false 0 volume at_rest
      (device_write listed false good volume 3 (driver []))
device_write-Lands_example =
    device_write-Lands listed listed-Behaves false 0 good volume 3 at_rest good-IsGranted tt
      some_volume refl refl
