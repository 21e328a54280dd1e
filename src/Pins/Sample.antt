-- ===== src/Pins/Sample.antt =====
-- Registers that are words and levels, which keep the laws of the pins.
use sid_pi.Base.{ℕ, ◌%◌, ◌<◌, ◌^◌, ◌≡◌, refl, arith, Bool, true, false, ◌==◌, if◌then◌else◌}
use sid_pi.Bits.Digits.{bit}
use sid_pi.Pins.{Gpio, Drives}
use sid_pi.Pins.Select.Modes.{Keeps}

pub record Board : Type 0 where
  pub words : ℕ → ℕ
  pub levels : ℕ → ℕ

abbrev pub board : Gpio Board
board = record {
  store = λ n w g. record {
    words = λ m. if m == n then w % 2 ^ 32 else g.words m;
    levels = λ p.
        if n == 7
        then (if bit p w == 1 then 1 else g.levels p)
        else if n == 10
        then (if bit p w == 1 then 0 else g.levels p)
        else g.levels p;
  };
  load = λ n g. g.words n % 2 ^ 32;
}

abbrev pub board-Drives : Drives board
board-Drives = record {
  level = λ g. g.levels;
  set_law = λ w g p h. refl;
  clear_law = λ w g p h. refl;
}

load-store :
    (b : Bool) (w old : ℕ)
    → w < 2 ^ 32
    → (if b then w % 2 ^ 32 else old) % 2 ^ 32 ≡ (if b then w else old % 2 ^ 32)
load-store true w old h = omega arith
load-store false w old h = refl

pub board-Keeps : Keeps board
board-Keeps = record {
  load_store = λ n m w g h l. load-store (n == m) w (g.words n) l;
  load_word = λ n g. omega arith;
}

-- every pin high, every word with all bits set
abbrev pub high : Board
high = record { words = λ n. 0xffffffff; levels = λ p. 1 }
