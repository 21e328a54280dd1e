-- ===== src/Kernel/Lost.antt =====
-- What a signal costs a writer that waits for room.
use sid_pi.Base.{
  ℕ, ◌+◌, ◌-◌, ◌≤◌, ◌<◌, ◌≡◌, ◌≢◌, refl, ap, ◌∙◌, arith, Bool, false, List, [], ◌∷◌, ◌++◌, length,
  length-append, ◌==◌, Bool-cases, inl, inr, add32, sub32,
}
use sid_pi.Kernel.{
  Kfifo, Behaves, Driver, Wake, Written, or_done, interrupted, returned, fill, write_data,
}
use sid_pi.Kernel.Queue.{fill-contents, fill-full}
use sid_pi.Kernel.Calls.{Fortune, answered, size, device_write}
use sid_pi.Kernel.Drift.{IsGranted}

module _ {F : Type 0} (k : Kfifo F) (b : Behaves k) (speedfix : Bool) where
  open b use {contents}

  fill-fits :
      (bs : List ℕ) (f : F)
      → length (contents f) ≤ 8192
      → length (contents (fill k speedfix bs f).1) ≤ 8192
  unfolding fill
  fill-fits [] f h = h
  fill-fits (x ∷ bs) f h = elim (Bool-cases (k.is_full f)) [
    | inl e ↦ rw e h
    | inr e ↦
        let room : length (contents f) ≢ 8192 = (let law = b.full_law f in ground arith) in
        let one_more = ap length (b.enter_law x f e) ∙ length-append (contents f) (x ∷ []) in
        rw e (fill-fits bs (k.enter x f) (omega arith))
  ]

  -- What `fill` leaves, and the driver that an interrupted `writeData` leaves.
  abbrev rest_of : List ℕ → Driver F → List ℕ
  rest_of bytes d = (fill k speedfix bytes d.msg_fifo).0

  abbrev cut_short : List ℕ → Driver F → Driver F
  cut_short bytes d = record d {
    msg_fifo = (fill k speedfix bytes d.msg_fifo).1;
    unprocessed = sub32 d.unprocessed (length (rest_of bytes d));
  }

  some_left :
      (bytes : List ℕ) (d : Driver F)
      → length (contents d.msg_fifo) ≤ 8192
      → 8192 < length (contents d.msg_fifo) + length bytes
      → rest_of bytes d ≢ []
  some_left bytes d fits over e =
      let all = fill-contents k b speedfix bytes d.msg_fifo in
      let kept = fill-fits bytes d.msg_fifo fits in
      absurd (
        omega (
          arith,
          ap length all,
          ap length e,
          length-append (contents (fill k speedfix bytes d.msg_fifo).1) (rest_of bytes d),
          length-append (contents d.msg_fifo) bytes,
        ))

  write_data_interrupted :
      (ws : List Wake) (bytes : List ℕ) (d : Driver F)
      → rest_of bytes d ≢ []
      → write_data k speedfix (interrupted ∷ ws) bytes d ≡ returned (cut_short bytes d)
  unfolding write_data
  write_data_interrupted ws bytes d left = more (rest_of bytes d) _ _ left
    where
      more : (rest : List ℕ) (finished w : Written F) → rest ≢ [] → or_done rest finished w ≡ w
      more [] finished w h = absurd (h refl)
      more (x ∷ xs) finished w h = refl

  -- A signal loses data that the writer believes written: where the bytes have no room and a signal ends the wait for it,
  -- `device_write` returns the number of all its bytes, but the FIFO is full and the last of them, one at least, are
  -- dropped.
  pub interrupted_write_lost :
      (w : Fortune) (ws : List Wake) (bytes : List ℕ) (live : ℕ) (d : Driver F)
      → IsGranted w
      → w.wakes ≡ interrupted ∷ ws
      → length (contents d.msg_fifo) ≤ 8192
      → 8192 < length (contents d.msg_fifo) + length bytes
      → (d' : Driver F) × (lost : List ℕ) × (device_write k speedfix w bytes live d
          ≡ answered (size (length bytes)) live d')
        × (length (contents d'.msg_fifo) ≡ 8192)
        × (contents d'.msg_fifo ++ lost ≡ contents d.msg_fifo ++ bytes)
        × (lost ≢ [])
  unfolding device_write
  interrupted_write_lost w ws bytes live d g woken fits over =
      let d1 : Driver F = record d { unprocessed = add32 d.unprocessed (length bytes) } in
      let left = some_left bytes d1 fits over in
      let cut = write_data_interrupted ws bytes d1 left in
      let more : (length bytes == 0) ≡ false = ground arith in
      let freed : live + 1 - 1 ≡ live = omega arith in
      let full : length (contents (fill k speedfix bytes d.msg_fifo).1) ≡ 8192 =
        (let f' = (fill k speedfix bytes d.msg_fifo).1 in
          let law = b.full_law f' in
          let at = fill-full k b speedfix bytes d.msg_fifo left in ground arith) in
      (
        cut_short bytes d1,
        rest_of bytes d,
        rw (g.device, more, g.buffer, g.whole, g.lock, freed, woken, cut) refl,
        full,
        fill-contents k b speedfix bytes d.msg_fifo,
        left,
      )
