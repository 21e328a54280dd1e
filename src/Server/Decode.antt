-- ===== src/Server/Decode.antt =====
-- What the data of a TRY_WRITE means: commands of four bytes, the delay first and the high byte
-- first, then the register, of which five bits count, and the value.
use sid_pi.Base.{ℕ, ◌+◌, ◌%◌, List, [], ◌∷◌}
use sid_pi.Runner.Commands.{Command, cycles_of}

abbrev pub decode : List ℕ → List Command
decode (high ∷ low ∷ reg ∷ value ∷ rest) =
    record { reg = reg % 32; value = value; cycle_high = high; cycle_low = low } ∷ decode rest
decode [] = []
decode (a ∷ []) = []
decode (a ∷ b ∷ []) = []
decode (a ∷ b ∷ c ∷ []) = []

-- the cycles that the commands wait in all
abbrev pub total_cycles : List Command → ℕ
total_cycles [] = 0
total_cycles (c ∷ cs) = cycles_of c + total_cycles cs
