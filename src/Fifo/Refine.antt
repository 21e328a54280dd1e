-- ===== src/Fifo/Refine.antt =====
-- A valid FIFO behaves as the bounded queue of the bytes that it holds.
use sid_pi.Base.{
  ℕ, zero, suc, ◌+◌, ◌-◌, ◌%◌, ◌≡◌, ◌≢◌, refl, sym, ap, ap₂, ◌∙◌, arith, List, [], ◌∷◌, get_or, ℤ,
  ◌==◌, Bool-cases, inl, inr, u8, sub32,
}
use native.Mathlib.Nat.{mod-eq_of_lt, mod-mod}
use native.Mathlib.Numerals.{add-one}
use sid_pi.Fifo.{
  Fifo, next_index, read_fifo, write_fifo, reset_fifo, fifo_count_of, is_fifo_empty, is_fifo_full,
  fifo_size_of, call, run,
}
use sid_pi.Fifo.Spec
use sid_pi.Fifo.Spec.{Op, Reply, read, write, ask_count, ask_empty, ask_full, ask_size, reset}
use sid_pi.Fifo.Inv.{IsValid, no_wrap, next_index_lem, call-IsValid}
use sid_pi.Fifo.Contents.{span, contents, length-contents, span_mod, span-set}

-- `span` matches on `suc`, the code tests `count == 0`.
span_nonempty :
    (buf : List ℕ) (size i n : ℕ)
    → n ≢ 0
    → span buf size i n ≡ get_or buf (i % size) 0 ∷ span buf size (i + 1) (n - 1)
span_nonempty buf size i zero h = absurd (h refl)
span_nonempty buf size i (suc n) h = ap (λ k. span buf size i (suc k)) (omega arith)

contents-nonempty :
    {f : Fifo}
    → IsValid f
    → f.fifo_count ≢ 0
    → contents f
      ≡ get_or f.fifo_buf f.fifo_first 0
        ∷ span f.fifo_buf f.fifo_size (next_index f f.fifo_first) (f.fifo_count - 1)
contents-nonempty {f} v h =
    span_nonempty f.fifo_buf f.fifo_size f.fifo_first f.fifo_count h
    ∙ ap₂ ◌∷◌ (ap (λ t. get_or f.fifo_buf t 0) (mod-eq_of_lt v.first_in)) (
        span_mod f.fifo_buf f.fifo_size (f.fifo_first + 1) (next_index f f.fifo_first)
          (f.fifo_count - 1)
          (sym (mod-mod (f.fifo_first + 1) f.fifo_size)
            ∙ ap (λ t. t % f.fifo_size) (sym (next_index_lem f.fifo_first v v.first_in))))

-- `readFIFO` returns the oldest byte, or -1 on an empty FIFO, and leaves the rest.
pub read_refines :
    {f : Fifo}
    → IsValid f
    → let (r, f') = read_fifo f in (r, contents f') ≡ Spec.read_byte (contents f)
unfolding read_fifo Spec.read_byte
read_refines {f} v = elim (Bool-cases (f.fifo_count == 0)) [
  | inl e ↦ let z : f.fifo_count ≡ 0 = ground arith in rw (e, z)
  | inr e ↦
      let less : sub32 f.fifo_count 1 ≡ f.fifo_count - 1 = ground arith in
      rw (e, contents-nonempty v (ground arith), less)
]

-- `writeFIFO` appends the byte and returns the new count, or returns -1 on a full FIFO.
pub write_refines :
    {f : Fifo} (byte : ℕ)
    → IsValid f
    → let (r, f') = write_fifo f byte in
      (r, contents f') ≡ Spec.write_byte f.fifo_size (contents f) byte
unfolding write_fifo Spec.write_byte
write_refines {f} byte v = elim (Bool-cases (f.fifo_count == f.fifo_size)) [
  | inl e ↦ rw (length-contents f, e)
  | inr e ↦
      rw (length-contents f, e, (no_wrap v).0)
        (ap₂ {C = ℤ × List ℕ} (λ a b. (a, b)) (ground arith)
          (rw add-one (
            span-set f.fifo_buf f.fifo_size (u8 byte) f.fifo_count f.fifo_first f.fifo_last v.stored
              (ground arith) v.last_at)))
]

pub fifo_size-call : (f : Fifo) (op : Op) → (call f op).1.fifo_size ≡ f.fifo_size
unfolding call read_fifo write_fifo reset_fifo
fifo_size-call f read = ground arith
fifo_size-call f (write byte) = ground arith
fifo_size-call f op = refl

-- Each call returns what the queue returns, and leaves the queue's bytes.
pub call_refines :
    {f : Fifo} (op : Op)
    → IsValid f
    → let (r, f') = call f op in (r, contents f') ≡ Spec.call f.fifo_size (contents f) op
unfolding call Spec.call fifo_count_of is_fifo_empty is_fifo_full fifo_size_of reset_fifo
call_refines read v = read_refines v
call_refines (write byte) v = write_refines byte v
call_refines {f} ask_count v = ground (arith, no_wrap v, length-contents f)
call_refines {f} ask_empty v = ground (arith, no_wrap v, length-contents f)
call_refines {f} ask_full v = ground (arith, no_wrap v, length-contents f)
call_refines {f} ask_size v = ground (arith, no_wrap v, length-contents f)
call_refines {f} reset v = refl

-- No sequence of calls tells a valid FIFO from the bounded queue of its contents.
pub run_refines :
    (ops : List Op) {f : Fifo} → IsValid f → run f ops ≡ Spec.run f.fifo_size (contents f) ops
unfolding run Spec.run
run_refines [] v = refl
run_refines (op ∷ ops) {f} v =
    rw (run_refines ops (call-IsValid op v), ← call_refines op v, fifo_size-call f op)
