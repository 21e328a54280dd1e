-- ===== src/Kernel/Delay.antt =====
-- A command through the kernel FIFO: what a write puts in, the kernel thread acts on.
use sid_pi.Base.{
  ℕ, ◌+◌, ◌*◌, ◌/◌, ◌%◌, ◌^◌, ◌≤◌, ◌<◌, ◌≡◌, ◌≢◌, refl, sym, ap, ◌∙◌, arith, Bool, true, false,
  none, List, [], ◌∷◌, ◌++◌, append-nil, length, length-append, take, drop, ◌==◌, bit_and, bit_or,
}
use sid_pi.Bits.Fields.{bit_or_field, bit_and_mask, bit_and-div}
use sid_pi.Kernel.{
  Kfifo, Behaves, Driver, acts, told, thread_round, fill, Wake, rounds, interrupted, returned,
  write_data, slowed,
}
use sid_pi.Kernel.Queue.{fill-contents, fill-full}
use sid_pi.Kernel.Calls.{Request, answered, ok_returned, sid_ioctl, delay_bytes}

module _ {F : Type 0} (k : Kfifo F) (b : Behaves k) (speedfix : Bool) where
  open b use {contents}

  abbrev pub filled : List ℕ → Driver F → Driver F
  filled bytes d = record d { msg_fifo = (fill k speedfix bytes d.msg_fifo).1 }

  nothing_left :
      (bytes : List ℕ) (d : Driver F)
      → length (contents d.msg_fifo) + length bytes ≤ 8192
      → (fill k speedfix bytes d.msg_fifo).0 ≡ []
  nothing_left bytes d room =
      by_rest (fill k speedfix bytes d.msg_fifo).0 (fill-contents k b speedfix bytes d.msg_fifo)
        (fill-full k b speedfix bytes d.msg_fifo)
    where
      f' : F
      f' = (fill k speedfix bytes d.msg_fifo).1

      by_rest :
          (rest : List ℕ)
          → contents f' ++ rest ≡ contents d.msg_fifo ++ bytes
          → (rest ≢ [] → k.is_full f' ≡ true)
          → rest ≡ []
      by_rest [] e h = refl
      by_rest (x ∷ xs) e h =
          let full = h (λ e. absurd (omega (arith, ap length e))) in
          let at : length (contents f') ≡ 8192 = (let law = b.full_law f' in ground arith) in
          absurd (
            omega (
              arith,
              ap length e,
              length-append (contents f') (x ∷ xs),
              length-append (contents d.msg_fifo) bytes,
            ))

  -- With room for all its bytes, `writeData` returns without a wait, the bytes at the end of the FIFO.
  pub write_data_room :
      (ws : List Wake) (bytes : List ℕ) (d : Driver F)
      → length (contents d.msg_fifo) + length bytes ≤ 8192
      → (write_data k speedfix ws bytes d ≡ returned (filled bytes d))
        × (contents (filled bytes d).msg_fifo ≡ contents d.msg_fifo ++ bytes)
  unfolding write_data
  write_data_room ws bytes d room = (
    by_wakes ws,
    sym (append-nil (contents (filled bytes d).msg_fifo))
        ∙ ap (λ t. contents (filled bytes d).msg_fifo ++ t) (sym (nothing_left bytes d room))
        ∙ fill-contents k b speedfix bytes d.msg_fifo,
  )
    where
      by_wakes : (ws : List Wake) → write_data k speedfix ws bytes d ≡ returned (filled bytes d)
      by_wakes [] = rw (nothing_left bytes d room)
      by_wakes (rounds ss ∷ ws) = rw (nothing_left bytes d room)
      by_wakes (interrupted ∷ ws) = rw (nothing_left bytes d room)

  -- With a whole command at the front of the FIFO, a round of `sidThread2` waits the cycles of its
  -- third and fourth byte, low byte first, and writes the first byte to the register of the second
  -- if there is such a register; whatever the stack held.
  pub thread_round_lem :
      (stop : Bool) (stale : List ℕ) (d : Driver F) (val reg low high : ℕ) (rest : List ℕ)
      → contents d.msg_fifo ≡ val ∷ reg ∷ low ∷ high ∷ rest
      → low < 256
      → high < 256
      → let (deed, d') = thread_round k speedfix stop stale d in
        (deed ≡ acts (slowed speedfix (high * 256 + low)) (told reg val))
        × (contents d'.msg_fifo ≡ rest)
  unfolding thread_round
  thread_round_lem stop stale d val reg low high rest e l h =
      let law = b.leave_law 4 d.msg_fifo in
      let some_in : k.is_empty d.msg_fifo ≡ false =
        (let law = b.empty_law d.msg_fifo in let n = ap length e in ground arith) in
      let got : (k.leave 4 d.msg_fifo).0 ≡ val ∷ reg ∷ low ∷ high ∷ [] = law.0 ∙ ap (take 4) e in
      let left : contents (k.leave 4 d.msg_fifo).1 ≡ rest = law.1 ∙ ap (drop 4) e in
      rw (some_in, got)
        (
          ap (λ t. acts (slowed speedfix t) (told reg val))
              (ap (λ t. bit_or t low) (omega arith) ∙ bit_or_field 8 high low l),
          left,
        )

  -- A delay of the request SID_IOCTL_DELAY comes out at the kernel thread: the request, not 0, on an empty
  -- FIFO returns OK, and the next round waits the low 16 bits of it, writes no register, and leaves
  -- the FIFO empty.
  pub delay_round_trip :
      (ws : List Wake) (arg : ℕ) (stale : List ℕ) (d : Driver F)
      → arg ≢ 0
      → contents d.msg_fifo ≡ []
      → (d' : Driver F) × (sid_ioctl k speedfix true ws (Request.delay arg) d
          ≡ answered ok_returned 0 d')
        × ((thread_round k speedfix false stale d').0 ≡ acts (slowed speedfix (arg % 2 ^ 16)) none)
        × (contents (thread_round k speedfix false stale d').1.msg_fifo ≡ [])
  unfolding sid_ioctl
  delay_round_trip ws arg stale d some_cycles empty =
      let (at_once, inside) =
        write_data_room ws (delay_bytes arg) d (omega (arith, ap length empty)) in
      let low : bit_and arg 0xff ≡ arg % 256 = bit_and_mask 8 arg in
      let high : bit_and arg 0xff00 / 2 ^ 8 ≡ arg / 256 % 256 =
        bit_and-div 8 arg 0xff00 ∙ bit_and_mask 8 (arg / 256) in
      let asked : (arg == 0) ≡ false = ground arith in
      let (deed, left) =
        thread_round_lem false stale (filled (delay_bytes arg) d) 0 255 (bit_and arg 0xff)
          (bit_and arg 0xff00 / 2 ^ 8) [] (inside ∙ ap (λ t. t ++ delay_bytes arg) empty)
          (omega (arith, low)) (omega (arith, high)) in
      (
        filled (delay_bytes arg) d,
        rw (asked, at_once),
        deed ∙ ap (λ t. acts (slowed speedfix t) none) (omega (arith, low, high)),
        left,
      )
