-- ===== src/Fifo.antt =====
-- sidpiserver/src/fifo.c: the byte FIFO between the network side and the SID thread, a ring buffer
-- with `& (size - 1)` indices. A function that updates `*fifo` returns the new FIFO after its result.
pub mod Spec
pub mod Inv
pub mod Init
pub mod Contents
pub mod Refine
pub mod Ends
mod Tests
use sid_pi.Base.{
  ℕ, ◌+◌, ◌-◌, ◌*◌, ◌%◌, ◌^◌, bit_and, Bool, true, false, not, ◌||◌, Option, none, some, List, [],
  ◌∷◌, ℤ, pos, negsuc, to_int, ltb, ◌==◌, if◌then◌else◌, get_or, set, u8, add32, sub32,
}
use Spec.{Op, Reply}
use Spec

-- `struct FIFO`, with `fifo_buf` as the bytes that it points to
pub record Fifo : Type 0 where
  pub fifo_buf : List ℕ
  pub fifo_size : ℕ
  pub fifo_count : ℕ
  pub fifo_first : ℕ
  pub fifo_last : ℕ

-- `FIFO_MAX`, in `size > 65536 *512`
abbrev pub fifo_max : ℕ
fifo_max = 65536 * 512

-- What the two calls of `malloc` return: the struct or NULL, and the bytes of the buffer or NULL.
pub record Malloc : Type 0 where
  pub struct_given : Bool
  pub buffer : ℕ → Option (List ℕ)

-- The second part of the result, as the argument `live`, counts the heap blocks in use.
unfoldable pub init_fifo : Malloc → ℤ → ℕ → Option Fifo × ℕ
init_fifo m (negsuc n) live = (none, live)
init_fifo m (pos size) live =
    if ltb fifo_max size || size == 0
    then (none, live)
    else if not (bit_and size (size - 1) == 0)
    then (none, live)
    else if not m.struct_given
    then (none, live)
    else elim (m.buffer size) [
      | none ↦ (none, live + 1 - 1)
      | some block ↦ (
        some (record {
          fifo_buf = block;
          fifo_size = size;
          fifo_count = 0;
          fifo_first = 0;
          fifo_last = 0;
        }),
        live + 2,
      )
    ]

-- The index after `i`: `(i + 1) & (size - 1)` in `unsigned int`.
abbrev pub next_index : Fifo → ℕ → ℕ
next_index f i = bit_and (add32 i 1) (sub32 f.fifo_size 1)

unfoldable pub read_fifo : Fifo → ℤ × Fifo
read_fifo f = if f.fifo_count == 0 then (negsuc 0, f) else (
  pos (get_or f.fifo_buf f.fifo_first 0),
  record f { fifo_count = sub32 f.fifo_count 1; fifo_first = next_index f f.fifo_first },
)

-- The parameter is a `UINT8`: the call converts its argument.
unfoldable pub write_fifo : Fifo → ℕ → ℤ × Fifo
write_fifo f arg = if f.fifo_count == f.fifo_size then (negsuc 0, f) else (
  to_int (add32 f.fifo_count 1),
  record f {
    fifo_buf = set f.fifo_buf f.fifo_last (u8 arg);
    fifo_count = add32 f.fifo_count 1;
    fifo_last = next_index f f.fifo_last;
  },
)

unfoldable pub fifo_count_of : Fifo → ℤ
fifo_count_of f = to_int f.fifo_count

unfoldable pub reset_fifo : Fifo → Fifo
reset_fifo f = record f { fifo_count = 0; fifo_first = 0; fifo_last = 0 }

unfoldable pub is_fifo_empty : Fifo → ℕ
is_fifo_empty f = if f.fifo_count == 0 then 1 else 0

unfoldable pub is_fifo_full : Fifo → ℤ
is_fifo_full f = if f.fifo_count == f.fifo_size then pos 1 else pos 0

unfoldable pub fifo_size_of : Fifo → ℤ
fifo_size_of f = to_int f.fifo_size

-- one call of the interface of fifo.h
pub call : Fifo → Op → Reply × Fifo
call f Op.read = read_fifo f
call f (Op.write byte) = write_fifo f byte
call f Op.ask_count = (fifo_count_of f, f)
call f Op.ask_empty = (pos (is_fifo_empty f), f)
call f Op.ask_full = (is_fifo_full f, f)
call f Op.ask_size = (fifo_size_of f, f)
call f Op.reset = (pos 0, reset_fifo f)

-- a client's calls in order, with what each returns
pub run : Fifo → List Op → List Reply
run f [] = []
run f (op ∷ ops) = let (reply, f') = call f op in reply ∷ run f' ops
