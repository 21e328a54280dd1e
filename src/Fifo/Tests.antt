-- ===== src/Fifo/Tests.antt =====
-- Runs of the FIFO, and its theorems at concrete inputs.
use sid_pi.Base.{◌≤◌, ◌≡◌, refl, arith, true, some, List, [], ◌∷◌, ◌↔◌, pos, negsuc, replicate}
use sid_pi.Bits.Power.{IsPowerOfTwo}
use sid_pi.Fifo.{
  Fifo, Malloc, fifo_max, init_fifo, call, run, read_fifo, write_fifo, fifo_count_of, reset_fifo,
  is_fifo_full,
}
use sid_pi.Fifo.Spec
use sid_pi.Fifo.Spec.{Op}
use sid_pi.Fifo.Inv.{IsValid}
use sid_pi.Fifo.Refine.{run_refines}
use sid_pi.Fifo.Init.{init_iff_power}

-- a heap whose fresh blocks hold 0xAA
abbrev plenty : Malloc
plenty = record { struct_given = true; buffer = λ n. some (replicate n 0xaa) }

-- 3 and 4, the write index having gone round the end
abbrev wrapped : Fifo
wrapped = record {
  fifo_buf = 4 ∷ 2 ∷ 9 ∷ 3 ∷ [];
  fifo_size = 4;
  fifo_count = 2;
  fifo_first = 3;
  fifo_last = 1;
}

wrapped-IsValid : IsValid wrapped
wrapped-IsValid = record {
  power = (2, refl);
  small = omega arith;
  stored = refl;
  first_in = omega arith;
  count_in = omega arith;
  last_at = refl;
}

abbrev script : List Op
script =
    Op.write 0x105
    ∷ Op.read
    ∷ Op.write 6
    ∷ Op.write 7
    ∷ Op.write 8
    ∷ Op.ask_full
    ∷ Op.read
    ∷ Op.ask_count
    ∷ Op.reset
    ∷ Op.read
    ∷ []

run-wrapped :
    run wrapped script
    ≡ pos 3 ∷ pos 3 ∷ pos 3 ∷ pos 4 ∷ negsuc 0 ∷ pos 1 ∷ pos 4 ∷ pos 3 ∷ pos 0 ∷ negsuc 0 ∷ []
unfolding run call read_fifo write_fifo fifo_count_of reset_fifo is_fifo_full
run-wrapped = refl

run_refines_example : run wrapped script ≡ Spec.run 4 (3 ∷ 4 ∷ []) script
run_refines_example = run_refines script wrapped-IsValid

init_iff_power_example :
    ((f : Fifo) × (init_fifo plenty (pos 12) 0 ≡ (some f, 2))) ↔ (IsPowerOfTwo 12 × (12 ≤ fifo_max))
init_iff_power_example = init_iff_power plenty 12 0 (replicate 12 0xaa) refl refl
