-- ===== src/Kernel/Done.antt =====
-- A writer that sleeps for want of room gets done, because each round of the kernel thread makes room.
use sid_pi.Base.{
  ℕ, ◌+◌, ◌-◌, ◌*◌, ◌≤◌, ◌≡◌, ◌≢◌, refl, ap, arith, Bool, true, false, List, [], ◌∷◌, length,
  length-append, length-drop, Bool-cases, inl, inr,
}
use sid_pi.Kernel.{
  Kfifo, Behaves, Driver, thread_round, thread_rounds, fill, Wake, rounds, interrupted, Written,
  returned, waiting, write_data, or_done,
}
use sid_pi.Kernel.Queue.{Served, fill-contents, fill-full}

abbrev pub Returns : {F : Type 0} → Written F → Type 0
Returns (returned d) = Unit {0}
Returns (waiting rest d) = ⊥

module _ {F : Type 0} (k : Kfifo F) (b : Behaves k) (speedfix : Bool) where
  open b use {contents}

  abbrev pub queued : Driver F → ℕ
  queued d = length (contents d.msg_fifo)

  -- A round of the kernel thread takes four bytes, or what there is.
  queued-thread_round :
      (stale : List ℕ) (d : Driver F)
      → queued (thread_round k speedfix false stale d).1 ≡ queued d - 4
  unfolding thread_round
  queued-thread_round stale d = elim (Bool-cases (k.is_empty d.msg_fifo)) [
    | inl e ↦ rw e (let law = b.empty_law d.msg_fifo in ground arith)
    | inr e ↦ rw (e, (b.leave_law 4 d.msg_fifo).1) (length-drop 4 (contents d.msg_fifo))
  ]

  queued-thread_rounds :
      (ss : List (List ℕ)) (d : Driver F) → queued (thread_rounds k speedfix ss d) ≤ queued d
  unfolding thread_rounds
  queued-thread_rounds [] d = omega arith
  queued-thread_rounds (s ∷ ss) d = omega (
    arith,
    queued-thread_rounds ss (thread_round k speedfix false s d).1,
    queued-thread_round s d,
  )

  Returns-or_done :
      (rest : List ℕ) (d : Driver F) (more : Written F)
      → (rest ≢ [] → Returns more)
      → Returns (or_done rest (returned d) more)
  Returns-or_done [] d more h = tt
  Returns-or_done (x ∷ xs) d more h = h (λ e. absurd (omega (arith, ap length e)))

  -- Where bytes are left over, the FIFO has its 8192 bytes and the rest is left.
  left_over :
      (bytes : List ℕ) (f : F)
      → let (rest, f') = fill k speedfix bytes f in
        rest ≢ []
        → (length (contents f') ≡ 8192) × (8192 + length rest ≡ length (contents f) + length bytes)
  left_over bytes f = λ h.
      let (rest, f') = fill k speedfix bytes f in
      let full : k.is_full f' ≡ true = fill-full k b speedfix bytes f h in
      let same = ap length (fill-contents k b speedfix bytes f) in
      let at : length (contents f') ≡ 8192 = (let law = b.full_law f' in ground arith) in
      (at, omega (arith, length-append (contents f') rest, length-append (contents f) bytes))

  -- If the kernel thread makes a round in each wait, `writeData` returns within one wait for each four
  -- bytes for which there was no room, undisturbed or not.
  pub write_data-Returns :
      (ws : List Wake) (bytes : List ℕ) (d : Driver F)
      → Served ws
      → queued d + length bytes ≤ 8192 + 4 * length ws
      → Returns (write_data k speedfix ws bytes d)
  unfolding write_data
  write_data-Returns [] bytes d served enough =
      Returns-or_done (fill k speedfix bytes d.msg_fifo).0 _ _
        (λ h. let l = left_over bytes d.msg_fifo h in absurd (some_left _ h (omega arith)))
    where
      some_left : (rest : List ℕ) → rest ≢ [] → length rest ≢ 0
      some_left [] h e = h refl
      some_left (x ∷ xs) h e = omega arith
  write_data-Returns (rounds [] ∷ ws) bytes d served enough = absurd served
  write_data-Returns (rounds (s ∷ ss) ∷ ws) bytes d served enough =
      let (rest, f) = fill k speedfix bytes d.msg_fifo in
      let d' : Driver F = record d { msg_fifo = f } in
      Returns-or_done rest _ _ (λ h.
        let l = left_over bytes d.msg_fifo h in
        write_data-Returns ws rest (thread_rounds k speedfix (s ∷ ss) d') served (
          let one = queued-thread_round s d' in
          let more = queued-thread_rounds ss (thread_round k speedfix false s d').1 in
          unfold thread_rounds in omega arith))
  write_data-Returns (interrupted ∷ ws) bytes d served enough =
      Returns-or_done (fill k speedfix bytes d.msg_fifo).0 _ _ (λ h. tt)
