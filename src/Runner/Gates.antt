-- ===== src/Runner/Gates.antt =====
-- What the tests of the network side say of the command queue: `canBufferAccept`,
-- `isBufferHalfFull`, `getBufferFull`.
use sid_pi.Base.{ℕ, ◌+◌, ◌*◌, ◌≡◌, arith, List, length, pos, ltb, ◌==◌, if◌then◌else◌}
use sid_pi.Fifo.{fifo_count_of, fifo_size_of, is_fifo_full}
use sid_pi.Runner.{Runner, can_buffer_accept, is_buffer_half_full, get_buffer_full}
use sid_pi.Runner.Commands.{Command, Holds, Holds-count, Holds-bound}

module _ (r : Runner) (cs : List Command) (h : Holds r.fifo cs) where
  count_pos : fifo_count_of r.fifo ≡ pos (4 * length cs)
  unfolding fifo_count_of
  count_pos = ground (arith, Holds-count cs h, Holds-bound cs h)

  size_pos : fifo_size_of r.fifo ≡ pos 8192
  unfolding fifo_size_of
  size_pos = ground (arith, h.has.sized)

  -- `canBufferAccept(n)` holds exactly if more than `n` bytes are free.
  pub can_buffer_accept_lem : (n : ℕ) → can_buffer_accept r (pos n) ≡ ltb (4 * length cs + n) 8192
  unfolding can_buffer_accept
  can_buffer_accept_lem n = let b = Holds-bound cs h in rw (count_pos, size_pos) (ground arith)

  -- `isBufferHalfFull` holds exactly if more than 1024 commands wait.
  pub is_buffer_half_full_lem : is_buffer_half_full r ≡ ltb 1024 (length cs)
  unfolding is_buffer_half_full
  is_buffer_half_full_lem = rw (count_pos, size_pos) (ground arith)

  -- `getBufferFull` is 1 exactly if 2048 commands wait.
  pub get_buffer_full_lem : get_buffer_full r ≡ (if length cs == 2048 then pos 1 else pos 0)
  unfolding get_buffer_full is_fifo_full
  get_buffer_full_lem = let c = Holds-count cs h in let z = h.has.sized in ground arith
