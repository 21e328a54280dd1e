-- ===== src/Clock/Tests.antt =====
-- The clock of the server, 1000000, and of the kernel module, 985248, with exact numbers for the doubles.
use sid_pi.Base.{ℕ, ◌<◌, refl, arith, List, [], ◌∷◌}
use sid_pi.Clock.{start_sid_clk}
use sid_pi.Clock.Sample.{fractions, fractions-IsPrecise}
use sid_pi.Clock.Divisor.{start_sid_clk_fast, scaled_divisor, exact_divisor}

-- busy once, then idle
abbrev reads : List ℕ
reads = 0x81 ∷ 1 ∷ []

start_sid_clk_fast_example :
    scaled_divisor (start_sid_clk fractions 1000000 reads) < exact_divisor 1000000
start_sid_clk_fast_example =
    start_sid_clk_fast fractions 1000000 reads fractions-IsPrecise (omega arith) (omega arith)
      (omega arith) refl
