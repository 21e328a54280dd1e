-- ===== src/Fifo/Inv.antt =====
-- The representation invariant of a FIFO, and that every operation keeps it.
use native.Mathlib.Nat.{mod-lt, mod-add-mod, mod-eq_of_lt}
use sid_pi.Base.{
  ℕ, ◌+◌, ◌-◌, ◌%◌, ◌≤◌, ◌<◌, bit_and, ◌≡◌, sym, ap, ap₂, ◌∙◌, arith, length, length-set, u8, add32,
  sub32, to_int, pos, Bool-cases, inl, inr, ◌==◌,
}
use sid_pi.Bits.Fields.{bit_and_mask}
use sid_pi.Bits.Power.{IsPowerOfTwo}
use sid_pi.Fifo.Spec.{Op, read, write, ask_count, ask_empty, ask_full, ask_size, reset}
use sid_pi.Fifo.{Fifo, fifo_max, next_index, read_fifo, write_fifo, reset_fifo, call}

pub record IsValid (f : Fifo) : Type 0 where
  pub power : IsPowerOfTwo f.fifo_size
  pub small : f.fifo_size ≤ fifo_max
  pub stored : length f.fifo_buf ≡ f.fifo_size
  pub first_in : f.fifo_first < f.fifo_size
  pub count_in : f.fifo_count ≤ f.fifo_size
  pub last_at : f.fifo_last ≡ (f.fifo_first + f.fifo_count) % f.fifo_size

wrap_mask : {n : ℕ} (a : ℕ) → IsPowerOfTwo n → bit_and a (n - 1) ≡ a % n
wrap_mask a p = rw p.1 (bit_and_mask p.0 a)

-- The `&` trick: the index after one in range is the next one round the ring.
pub next_index_lem :
    {f : Fifo} (i : ℕ) → IsValid f → i < f.fifo_size → next_index f i ≡ (i + 1) % f.fifo_size
next_index_lem {f} i v h =
    let e : add32 i 1 ≡ i + 1 = omega arith in
    let m : sub32 f.fifo_size 1 ≡ f.fifo_size - 1 = omega arith in
    ap₂ bit_and e m ∙ wrap_mask (i + 1) v.power

pub size-pos : {f : Fifo} → IsValid f → 0 < f.fifo_size
size-pos v = omega arith

pub last_in : {f : Fifo} → IsValid f → f.fifo_last < f.fifo_size
last_in {f} v = omega (arith, mod-lt (f.fifo_first + f.fifo_count) {m = f.fifo_size})

-- one place further on from either end of the window
first_step : (a b n : ℕ) → 0 < b → (a + b) % n ≡ ((a + 1) % n + (b - 1)) % n
first_step a b n h = rw (mod-add-mod (a + 1) n (b - 1)) (ap (λ t. t % n) (omega arith))

last_step : (a b n : ℕ) → ((a + b) % n + 1) % n ≡ (a + (b + 1)) % n
last_step a b n = rw (mod-add-mod (a + b) n 1) (ap (λ t. t % n) (omega arith))

-- No count or index of a valid FIFO wraps: each fits far below the range of `unsigned int`.
pub no_wrap :
    {f : Fifo}
    → IsValid f
    → (add32 f.fifo_count 1 ≡ f.fifo_count + 1)
      × (to_int f.fifo_count ≡ pos f.fifo_count)
      × (to_int f.fifo_size ≡ pos f.fifo_size)
no_wrap v = ground arith

pub read_fifo-IsValid : {f : Fifo} → IsValid f → IsValid (read_fifo f).1
unfolding read_fifo
read_fifo-IsValid {f} v = elim (Bool-cases (f.fifo_count == 0)) [
  | inl e ↦ rw e v
  | inr e ↦ rw e (record {
    power = v.power;
    small = v.small;
    stored = v.stored;
    first_in =
        rw (next_index_lem f.fifo_first v v.first_in) (mod-lt (f.fifo_first + 1) (size-pos v));
    count_in = ground arith;
    last_at =
        v.last_at
        ∙ first_step f.fifo_first f.fifo_count f.fifo_size (ground arith)
        ∙ ap₂ (λ a b. (a + b) % f.fifo_size) (sym (next_index_lem f.fifo_first v v.first_in))
            (ground arith);
  })
]

pub write_fifo-IsValid : {f : Fifo} (byte : ℕ) → IsValid f → IsValid (write_fifo f byte).1
unfolding write_fifo
write_fifo-IsValid {f} byte v = elim (Bool-cases (f.fifo_count == f.fifo_size)) [
  | inl e ↦ rw e v
  | inr e ↦ rw e (record {
    power = v.power;
    small = v.small;
    stored = length-set f.fifo_buf f.fifo_last (u8 byte) ∙ v.stored;
    first_in = v.first_in;
    count_in = ground arith;
    last_at =
        next_index_lem f.fifo_last v (last_in v)
        ∙ ap (λ t. (t + 1) % f.fifo_size) v.last_at
        ∙ last_step f.fifo_first f.fifo_count f.fifo_size
        ∙ ap (λ t. (f.fifo_first + t) % f.fifo_size) (sym (no_wrap v).0);
  })
]

pub reset_fifo-IsValid : {f : Fifo} → IsValid f → IsValid (reset_fifo f)
unfolding reset_fifo
reset_fifo-IsValid {f} v = record {
  power = v.power;
  small = v.small;
  stored = v.stored;
  first_in = size-pos v;
  count_in = omega arith;
  last_at = omega (arith, mod-eq_of_lt (size-pos v));
}

-- Every call of fifo.h keeps the representation invariant.
pub call-IsValid : {f : Fifo} (op : Op) → IsValid f → IsValid (call f op).1
unfolding call
call-IsValid read v = read_fifo-IsValid v
call-IsValid (write byte) v = write_fifo-IsValid byte v
call-IsValid ask_count v = v
call-IsValid ask_empty v = v
call-IsValid ask_full v = v
call-IsValid ask_size v = v
call-IsValid reset v = reset_fifo-IsValid v
