-- ===== src/Kernel/Settle.antt =====
-- What a `device_write` leaves behind, whichever way it ends.
use sid_pi.Base.{ℕ, ◌≡◌, Bool, List, ◌++◌, length}
use sid_pi.Kernel.{Kfifo, Behaves, Driver}
use sid_pi.Kernel.Queue.{history}
use sid_pi.Kernel.Calls.{size, Called, answered, blocked}

module _ {F : Type 0} (k : Kfifo F) (b : Behaves k) (speedfix : Bool) where
  -- A call that reports the size has passed all bytes on; one that reports an error has changed
  -- nothing; either has as many buffers in use as before. One that is still asleep has bytes left.
  abbrev pub Settles : Driver F → List ℕ → ℕ → Called F → Type 0
  Settles d bytes live (answered (size n) live' d') =
      (n ≡ length bytes)
      × (live' ≡ live)
      × (history k b speedfix d' ≡ history k b speedfix d ++ bytes)
  Settles d bytes live (answered error live' d') = (d' ≡ d) × (live' ≡ live)
  Settles d bytes live (blocked rest d') =
      history k b speedfix d' ++ rest ≡ history k b speedfix d ++ bytes
