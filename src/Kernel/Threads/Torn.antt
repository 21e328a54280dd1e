-- ===== src/Kernel/Threads/Torn.antt =====
-- SID_IOCTL_DELAY beside a writer.
use sid_pi.Base.{
  ℕ, ◌+◌, ◌≤◌, ◌≡◌, ◌≢◌, refl, sym, ap, ◌∙◌, arith, Bool, false, List, [], ◌∷◌, ◌++◌, append-nil,
  append_assoc, length, length-append,
}
use sid_pi.Kernel.{Kfifo, Behaves}
use sid_pi.Kernel.Queue.{history}
use sid_pi.Kernel.Calls.{delay_bytes}
use sid_pi.Kernel.Threads.{
  Pc, idle, holding, delaying, update, System, entered, DelayStep, step, delay, finish, Reach, here,
  later,
}
use sid_pi.Kernel.Threads
use sid_pi.Kernel.Threads.Inv.{entered-history}
use sid_pi.Kernel.Threads.Serve.{Reach-trans}

module _ {F : Type 0} (k : Kfifo F) (b : Behaves k) (speedfix : Bool) where
  open b use {contents}

  -- The steps from `s` have put the bytes behind the history, and the process is at `p`.
  record Behind (i : ℕ) (p : Pc) (bytes : List ℕ) (s : System F) : Type 0 where
    last : System F
    reach : Reach (DelayStep k speedfix) s last
    at : last.pc i ≡ p
    behind : history k b speedfix last.driver ≡ history k b speedfix s.driver ++ bytes
    filled :
        length (contents last.driver.msg_fifo) ≡ length (contents s.driver.msg_fifo) + length bytes
    others : (j : ℕ) → i ≢ j → last.pc j ≡ s.pc j

  -- A process of which a step puts the next byte puts all that there is room for.
  put_room :
      (i : ℕ) (stand : List ℕ → Pc)
      → ((s : System F) (x : ℕ) (bs : List ℕ)
          → s.pc i ≡ stand (x ∷ bs)
          → k.is_full s.driver.msg_fifo ≡ false
          → DelayStep k speedfix s
              (record s { driver = entered k speedfix s.driver x; pc = update s.pc i (stand bs) }))
      → (bytes : List ℕ) (s : System F) → s.pc i ≡ stand bytes
      → length (contents s.driver.msg_fifo) + length bytes ≤ 8192
      → Behind i (stand []) bytes s
  put_room i stand by [] s e room = record {
    last = s;
    reach = here;
    at = e;
    behind = sym (append-nil (history k b speedfix s.driver));
    filled = omega arith;
    others = λ j n. refl;
  }
  put_room i stand by (x ∷ bs) s e room =
      let not_full : k.is_full s.driver.msg_fifo ≡ false =
        (let law = b.full_law s.driver.msg_fifo in ground arith) in
      let t : System F = record s {
        driver = entered k speedfix s.driver x;
        pc = update s.pc i (stand bs);
      } in
      let one =
        ap length (b.enter_law x s.driver.msg_fifo not_full)
        ∙ length-append (contents s.driver.msg_fifo) (x ∷ []) in
      let p = put_room i stand by bs t (ground arith) (omega (arith, one)) in
      record {
        last = p.last;
        reach = Reach-trans (later here (by s x bs e not_full)) p.reach;
        at = p.at;
        behind =
            p.behind
            ∙ ap (λ t. t ++ bs) (entered-history k b speedfix s.driver x not_full)
            ∙ append_assoc (history k b speedfix s.driver) (x ∷ []) bs;
        filled = (let f = p.filled in omega (arith, one, f));
        others = λ j n. p.others j n ∙ ground arith;
      }

  -- SID_IOCTL_DELAY can come between the bytes of a write: in whatever state a writer has bytes still to put and another
  -- process is idle, with room for the bytes and four more, steps can follow after which a delay stands in the FIFO
  -- before those bytes, behind the ones of the same write that had been put.
  pub delay_tears :
      (s : System F) (i j arg : ℕ) (rest : List ℕ)
      → s.pc i ≡ holding rest
      → s.pc j ≡ idle
      → arg ≢ 0
      → length (contents s.driver.msg_fifo) + (4 + length rest) ≤ 8192
      → (t : System F) × Reach (DelayStep k speedfix) s t
        × (t.pc i ≡ holding [])
        × (t.pc j ≡ idle)
        × (history k b speedfix t.driver
            ≡ history k b speedfix s.driver ++ (delay_bytes arg ++ rest))
  delay_tears s i j arg rest e free some_delay room =
      let apart : j ≢ i = λ same. (let p = ap s.pc same in cc) in
      let s1 : System F = record s { pc = update s.pc j (delaying (delay_bytes arg)) } in
      let p =
        put_room j delaying (λ u x bs e h. DelayStep.put j x bs e h) (delay_bytes arg) s1
          (ground arith) (omega arith) in
      let s2 : System F = record p.last { pc = update p.last.pc j idle } in
      let q =
        put_room i holding (λ u x bs e h. step (Threads.put i x bs e h)) rest s2
          (ground (arith, p.others i apart)) (let f = p.filled in omega arith) in
      (
        q.last,
        Reach-trans
            (later (Reach-trans (later here (delay j arg free some_delay)) p.reach) (finish j p.at))
            q.reach,
        q.at,
        q.others j (λ same. apart (sym same)) ∙ ground arith,
        q.behind
            ∙ ap (λ t. t ++ rest) p.behind
            ∙ append_assoc (history k b speedfix s.driver) (delay_bytes arg) rest,
      )
