-- ===== src/Fifo/Init.antt =====
-- `initFIFO`: which sizes it accepts, what it builds, and that a failure leaves nothing allocated.
use native.Mathlib.Nat.{zero-mod, one-le-pow}
use sid_pi.Base.{
  ℕ, ◌+◌, ◌-◌, ◌≤◌, ◌<◌, ◌≡◌, refl, sym, arith, Option-cases, true, none, some, List, [], ◌↔◌, inl,
  inr, ℤ, pos, negsuc, bit_and, length,
}
use sid_pi.Bits.Power.{IsPowerOfTwo, clear_iff_power}
use sid_pi.Fifo.{Fifo, Malloc, fifo_max, init_fifo}
use sid_pi.Fifo.Inv.{IsValid}
use sid_pi.Fifo.Contents.{contents}

-- The documented behaviour of `malloc`: a block that is not NULL has the size asked for.
abbrev pub GivesSize : Malloc → Type 0
GivesSize m = (n : ℕ) (block : List ℕ) → m.buffer n ≡ some block → length block ≡ n

abbrev fresh : ℕ → List ℕ → Fifo
fresh n block = record {
  fifo_buf = block;
  fifo_size = n;
  fifo_count = 0;
  fifo_first = 0;
  fifo_last = 0;
}

power-pos : {n : ℕ} → IsPowerOfTwo n → 0 < n
power-pos p = omega (arith, p.1, one-le-pow p.0 2)

init_of_power :
    (m : Malloc) (n live : ℕ) (block : List ℕ)
    → m.struct_given ≡ true
    → m.buffer n ≡ some block
    → IsPowerOfTwo n
    → n ≤ fifo_max
    → init_fifo m (pos n) live ≡ (some (fresh n block), live + 2)
unfolding init_fifo
init_of_power m n live block given found power small =
    ground (arith, power-pos power, (clear_iff_power n (power-pos power)).1 power)

record Accepted (m : Malloc) (n live : ℕ) (f : Fifo) (live' : ℕ) : Type 0 where
  block : List ℕ
  found : m.buffer n ≡ some block
  built : f ≡ fresh n block
  clear : bit_and n (n - 1) ≡ 0
  some_bytes : 0 < n
  small : n ≤ fifo_max
  taken : live' ≡ live + 2

init-Accepted :
    (m : Malloc) (n live : ℕ) {f : Fifo} {live' : ℕ}
    → init_fifo m (pos n) live ≡ (some f, live')
    → Accepted m n live f live'
unfolding init_fifo
init-Accepted m n live e = elim (Option-cases (m.buffer n)) [
  | inl none_found ↦ absurd (ground arith)
  | inr (block, found) ↦ record {
    block = block;
    found = found;
    built = ground arith;
    clear = ground arith;
    some_bytes = ground arith;
    small = ground arith;
    taken = ground arith;
  }
]

fresh-IsValid :
    (n : ℕ) (block : List ℕ)
    → length block ≡ n
    → IsPowerOfTwo n
    → n ≤ fifo_max
    → IsValid (fresh n block)
fresh-IsValid n block len power small = record {
  power = power;
  small = small;
  stored = len;
  first_in = power-pos power;
  count_in = omega arith;
  last_at = sym (zero-mod n);
}

-- If both calls of `malloc` succeed, `initFIFO` succeeds exactly for the powers of two up to `FIFO_MAX`.
pub init_iff_power :
    (m : Malloc) (n live : ℕ) (block : List ℕ)
    → m.struct_given ≡ true
    → m.buffer n ≡ some block
    → ((f : Fifo) × (init_fifo m (pos n) live ≡ (some f, live + 2)))
      ↔ (IsPowerOfTwo n × (n ≤ fifo_max))
init_iff_power m n live block given found = (
  λ p. let a = init-Accepted m n live p.1 in ((clear_iff_power n a.some_bytes).0 a.clear, a.small),
  λ p. (fresh n block, init_of_power m n live block given found p.0 p.1),
)

-- If `malloc` gives blocks of the size asked for, a FIFO that `initFIFO` returns is valid, empty and
-- of the size asked for.
pub init-IsValid :
    (m : Malloc) (size : ℤ) (live : ℕ) {f : Fifo} {live' : ℕ}
    → GivesSize m
    → init_fifo m size live ≡ (some f, live')
    → IsValid f × (pos f.fifo_size ≡ size) × (contents f ≡ [])
unfolding init_fifo
init-IsValid m (negsuc n) live law e = cc
init-IsValid m (pos n) live {f} law e =
    let a = init-Accepted m n live e in
    let power = (clear_iff_power n a.some_bytes).0 a.clear in
    rw a.built (fresh-IsValid n a.block (law n a.block a.found) power a.small, refl, refl)

-- A failed `initFIFO` leaves as many heap blocks in use as before.
pub init_failure_frees :
    (m : Malloc) (size : ℤ) (live : ℕ) {live' : ℕ}
    → init_fifo m size live ≡ (none, live')
    → live' ≡ live
unfolding init_fifo
init_failure_frees m (negsuc n) live e = ground arith
init_failure_frees m (pos n) live e = ground arith
