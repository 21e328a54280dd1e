-- ===== src/Kernel/Sample.antt =====
-- A list as the kernel FIFO, with its laws, and values that the tests share.
use sid_pi.Base.{ℕ, refl, true, List, [], ◌∷◌, ◌++◌, length, take, drop, ◌==◌}
use sid_pi.Kernel.{Kfifo, Behaves, Driver, Wake, rounds}
use sid_pi.Kernel.Calls.{Fortune}
use sid_pi.Kernel.Drift.{IsGranted}

abbrev pub listed : Kfifo (List ℕ)
listed = record {
  is_full = λ f. length f == 8192;
  is_empty = λ f. length f == 0;
  enter = λ b f. f ++ (b ∷ []);
  leave = λ n f. (take n f, drop n f);
  clear = λ f. [];
}

abbrev pub listed-Behaves : Behaves listed
listed-Behaves = record {
  contents = λ f. f;
  full_law = λ f. refl;
  empty_law = λ f. refl;
  enter_law = λ b f h. refl;
  leave_law = λ n f. (refl, refl);
  clear_law = λ f. refl;
}

-- volume 15 after 20000 cycles, as the device file takes it
abbrev pub volume : List ℕ
volume = 15 ∷ 0x18 ∷ 0x20 ∷ 0x4e ∷ []

abbrev pub driver : List ℕ → Driver (List ℕ)
driver f = record { msg_fifo = f; unprocessed = 0; consumed = [] }

abbrev pub stack : List ℕ
stack = 0xde ∷ 0xad ∷ 0xbe ∷ 0xef ∷ []

abbrev pub wakes : List Wake
wakes = rounds (stack ∷ []) ∷ []

abbrev pub good : Fortune
good = record { has_device = true; allocated = true; copied = true; locked = true; wakes = wakes }

pub good-IsGranted : IsGranted good
good-IsGranted = record { device = refl; buffer = refl; whole = refl; lock = refl }
