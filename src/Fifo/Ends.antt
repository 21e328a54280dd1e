-- ===== src/Fifo/Ends.antt =====
-- One `writeFIFO` or `readFIFO` as its caller sees it, case by case.
use sid_pi.Base.{ℕ, ◌<◌, ◌≡◌, ◌≢◌, sym, ap, ap₂, ◌∙◌, arith, List, [], ◌∷◌, ◌++◌, length, pos, u8}
use sid_pi.Fifo.{Fifo, read_fifo, write_fifo}
use sid_pi.Fifo.Spec
use sid_pi.Fifo.Spec.{Op}
use sid_pi.Fifo.Inv.{IsValid, read_fifo-IsValid, write_fifo-IsValid}
use sid_pi.Fifo.Contents.{contents, length-contents}
use sid_pi.Fifo.Refine.{read_refines, write_refines}

-- The FIFO is valid, of size `cap`, and holds the bytes `q`.
pub record Has (f : Fifo) (cap : ℕ) (q : List ℕ) : Type 0 where
  pub valid : IsValid f
  pub sized : f.fifo_size ≡ cap
  pub bytes : contents f ≡ q

pub fifo_size-write : (f : Fifo) (byte : ℕ) → (write_fifo f byte).1.fifo_size ≡ f.fifo_size
unfolding write_fifo
fifo_size-write f byte = ground arith

pub fifo_size-read : (f : Fifo) → (read_fifo f).1.fifo_size ≡ f.fifo_size
unfolding read_fifo
fifo_size-read f = ground arith

write_byte_room :
    (cap : ℕ) (q : List ℕ) (byte : ℕ)
    → length q ≢ cap
    → (Spec.write_byte cap q byte).1 ≡ q ++ (u8 byte ∷ [])
unfolding Spec.write_byte
write_byte_room cap q byte room = ground arith

-- A write with room: the byte goes to the end.
pub write_room :
    {f : Fifo} (cap : ℕ) (q : List ℕ) (byte : ℕ)
    → Has f cap q
    → length q < cap
    → Has (write_fifo f byte).1 cap (q ++ (u8 byte ∷ []))
write_room {f} cap q byte h room = record {
  valid = write_fifo-IsValid byte h.valid;
  sized = fifo_size-write f byte ∙ h.sized;
  bytes =
      ap (λ t. t.1) (write_refines byte h.valid)
      ∙ ap₂ (λ m t. (Spec.write_byte m t byte).1) h.sized h.bytes
      ∙ write_byte_room cap q byte (omega arith);
}

-- A write to a full FIFO changes nothing.
pub write_full :
    {f : Fifo} (cap : ℕ) (q : List ℕ) (byte : ℕ)
    → Has f cap q
    → length q ≡ cap
    → (write_fifo f byte).1 ≡ f
unfolding write_fifo
write_full {f} cap q byte h full =
    let e : f.fifo_count ≡ f.fifo_size =
      sym (length-contents f) ∙ ap length h.bytes ∙ full ∙ sym h.sized in
    ground arith

-- A read of a FIFO that holds something: the oldest byte comes out.
pub read_some :
    {f : Fifo} (cap x : ℕ) (q : List ℕ)
    → Has f cap (x ∷ q)
    → ((read_fifo f).0 ≡ pos x) × Has (read_fifo f).1 cap q
unfolding Spec.read_byte
read_some {f} cap x q h = (
  ap (λ t. t.0) (read_refines h.valid) ∙ ap (λ t. (Spec.read_byte t).0) h.bytes,
  record {
    valid = read_fifo-IsValid h.valid;
    sized = fifo_size-read f ∙ h.sized;
    bytes = ap (λ t. t.1) (read_refines h.valid) ∙ ap (λ t. (Spec.read_byte t).1) h.bytes;
  },
)
