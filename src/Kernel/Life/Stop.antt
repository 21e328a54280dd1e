-- ===== src/Kernel/Life/Stop.antt =====
-- `kthread_stop`: how the thread ends.
use sid_pi.Base.{
  not, ◌||◌, sub32, ℕ, ◌+◌, ◌*◌, ◌^◌, ◌<◌, ◌≡◌, refl, sym, subst, ap, ◌∙◌, arith, Bool, true, List,
  [], ◌∷◌, ◌++◌, take, drop, bit_or, ◌<<<◌,
}
use sid_pi.Bits.Fields.{bit_or_field}
use sid_pi.Kernel.{Kfifo, Behaves, Driver, Deed, acts, told, slowed, ac_buffer, thread_round}
use sid_pi.Kernel.Life.{Place, at_while, in_wait, returned, Pass, Life, advance, sid_thread2}

-- `kthread_stop` has been called: it waits until the thread has returned.
abbrev pub AllStop : List Pass → Type 0
AllStop [] = Unit {0}
AllStop (p ∷ ps) = (p.stop ≡ true) × AllStop ps

module _ {F : Type 0} (k : Kfifo F) (b : Behaves k) (speedfix : Bool) where
  open b use {contents}

  stays_returned :
      (ps : List Pass) (l : Life F) → l.place ≡ returned → sid_thread2 k speedfix ps l ≡ l
  unfolding sid_thread2 advance
  stays_returned [] l at = refl
  stays_returned (p ∷ ps) l at =
      let same : advance k speedfix l.place p l ≡ l =
        subst (λ w. advance k speedfix w p l ≡ l) (sym at) refl in
      ap (sid_thread2 k speedfix ps) same ∙ stays_returned ps l at

  -- A thread at its loop returns at once.
  return_at_once :
      (p : Pass) (ps : List Pass) (l : Life F)
      → p.stop ≡ true
      → l.place ≡ at_while
      → sid_thread2 k speedfix (p ∷ ps) l ≡ record l { place = returned }
  unfolding sid_thread2 advance
  return_at_once p ps l stop at =
      let passed : advance k speedfix l.place p l ≡ record l { place = returned } =
        rw (at, stop) refl in
      ap (sid_thread2 k speedfix ps) passed ∙ stays_returned ps (record l { place = returned }) refl

  -- A round with the stop asked for: what it does by what it reads of the FIFO, empty or not.
  abbrev last_deed : List ℕ → Driver F → Deed
  last_deed stale d =
      let at = ac_buffer (k.leave 4 d.msg_fifo).0 stale in
      acts (slowed speedfix (bit_or (at 3 <<< 8) (at 2))) (told (at 1) (at 0))

  abbrev drained : Driver F → Driver F
  drained d = record {
    msg_fifo = (k.leave 4 d.msg_fifo).1;
    unprocessed = sub32 d.unprocessed 1;
    consumed = d.consumed ++ (k.leave 4 d.msg_fifo).0;
  }

  stopping_round :
      (stale : List ℕ) (d : Driver F)
      → thread_round k speedfix true stale d ≡ (last_deed stale d, drained d)
  unfolding thread_round
  stopping_round stale d =
      let wakes : (not (k.is_empty d.msg_fifo) || true) ≡ true = ground arith in rw wakes refl

  -- A thread that is waiting makes one round and returns.
  return_after_round :
      (p q : Pass) (ps : List Pass) (l : Life F)
      → p.stop ≡ true
      → q.stop ≡ true
      → l.place ≡ in_wait
      → sid_thread2 k speedfix (p ∷ q ∷ ps) l ≡ record {
        place = returned;
        driver = drained l.driver;
        deeds = l.deeds ++ (last_deed p.stale l.driver ∷ []);
      }
  unfolding sid_thread2 advance
  return_after_round p q ps l stop stop' at =
      let l1 : Life F = record {
        place = at_while;
        driver = drained l.driver;
        deeds = l.deeds ++ (last_deed p.stale l.driver ∷ []);
      } in
      let passed : advance k speedfix l.place p l ≡ l1 =
        rw (at, stop, stopping_round p.stale l.driver) refl in
      ap (sid_thread2 k speedfix (q ∷ ps)) passed ∙ return_at_once q ps l1 stop' refl

  -- Unloading does not hang: from the call of `kthread_stop` on, two passes of the thread bring it to its return. A thread
  -- that is at its loop does nothing more, and one that is in its wait makes one more round, which takes at most one
  -- command off the FIFO; what else is queued is never played.
  pub kthread_stop_ends :
      (p q : Pass) (ps : List Pass) (l : Life F)
      → AllStop (p ∷ q ∷ ps)
      → let l' = sid_thread2 k speedfix (p ∷ q ∷ ps) l in
        (l'.place ≡ returned)
        × (l.place ≡ at_while → (l'.deeds ≡ l.deeds) × (l'.driver ≡ l.driver))
        × (l.place ≡ in_wait
            → (deed : Deed) × (l'.deeds ≡ l.deeds ++ (deed ∷ []))
              × (contents l'.driver.msg_fifo ≡ drop 4 (contents l.driver.msg_fifo)))
  kthread_stop_ends p q ps l (stop, (stop', all)) = by_place l.place refl
    where
      last : Life F
      last = sid_thread2 k speedfix (p ∷ q ∷ ps) l

      by_place :
          (w : Place)
          → l.place ≡ w
          → (last.place ≡ returned)
            × (l.place ≡ at_while → (last.deeds ≡ l.deeds) × (last.driver ≡ l.driver))
            × (l.place ≡ in_wait
                → (deed : Deed) × (last.deeds ≡ l.deeds ++ (deed ∷ []))
                  × (contents last.driver.msg_fifo ≡ drop 4 (contents l.driver.msg_fifo)))
      by_place at_while at =
          let e = return_at_once p (q ∷ ps) l stop at in
          (
            ap (λ (x : Life F). x.place) e,
            λ h. (ap (λ (x : Life F). x.deeds) e, ap (λ (x : Life F). x.driver) e),
            λ h. absurd (cc),
          )
      by_place in_wait at =
          let e = return_after_round p q ps l stop stop' at in
          (
            ap (λ (x : Life F). x.place) e,
            λ h. absurd (cc),
            λ h. (
              last_deed p.stale l.driver,
              ap (λ (x : Life F). x.deeds) e,
              ap (λ (x : Life F). contents x.driver.msg_fifo) e
                  ∙ (b.leave_law 4 l.driver.msg_fifo).1,
            ),
          )
      by_place returned at = (
        ap (λ (x : Life F). x.place) (stays_returned (p ∷ q ∷ ps) l at) ∙ at,
        λ h. absurd (cc),
        λ h. absurd (cc),
      )

  -- A stop that finds the FIFO empty has the thread play what the stack held: in its wait it goes on to read nothing,
  -- waits and writes by the four stale bytes of its buffer, and then returns.
  pub stop_plays_stale :
      (p q : Pass) (ps : List Pass) (l : Life F) (val reg low high : ℕ)
      → AllStop (p ∷ q ∷ ps)
      → p.stale ≡ val ∷ reg ∷ low ∷ high ∷ []
      → low < 256
      → high < 256
      → l.place ≡ in_wait
      → contents l.driver.msg_fifo ≡ []
      → let l' = sid_thread2 k speedfix (p ∷ q ∷ ps) l in
        (l'.place ≡ returned)
        × (l'.deeds ≡ l.deeds ++ (acts (slowed speedfix (high * 256 + low)) (told reg val) ∷ []))
  stop_plays_stale p q ps l val reg low high (stop, (stop', all)) held h h' at e =
      let same = return_after_round p q ps l stop stop' at in
      let none_read : (k.leave 4 l.driver.msg_fifo).0 ≡ [] =
        (b.leave_law 4 l.driver.msg_fifo).0 ∙ ap (take 4) e in
      let deed : last_deed p.stale l.driver
          ≡ acts (slowed speedfix (high * 256 + low)) (told reg val) =
        rw (none_read, held)
          (ap (λ t. acts (slowed speedfix t) (told reg val))
            (ap (λ t. bit_or t low) (let e : high <<< 8 ≡ high * 2 ^ 8 = omega arith in e)
              ∙ bit_or_field 8 high low h
              ∙ omega arith)) in
      (
        ap (λ (x : Life F). x.place) same,
        ap (λ (x : Life F). x.deeds) same ∙ ap (λ x. l.deeds ++ (x ∷ [])) deed,
      )
