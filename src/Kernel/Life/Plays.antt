-- ===== src/Kernel/Life/Plays.antt =====
-- What the thread makes of whole commands.
use sid_pi.Base.{
  ℕ, ◌*◌, ◌≤◌, ◌<◌, ◌≡◌, ◌≢◌, refl, sym, ◌∙◌, arith, Bool, false, List, [], ◌∷◌, ◌++◌, append-nil,
  append_assoc, length, map,
}
use sid_pi.Kernel.{Kfifo, Behaves, Driver, thread_round}
use sid_pi.Kernel.Calls.{Fortune, answered, size, device_write}
use sid_pi.Kernel.Delay.{thread_round_lem}
use sid_pi.Kernel.Drift.{IsGranted}
use sid_pi.Kernel.Play.{Order, carried_out, orders_bytes, orders_written, CyclesFit}
use sid_pi.Kernel.Life.{at_while, Pass, Life, advance, sid_thread2}
use sid_pi.Kernel.Life.Rounds.{AllOn}

module _ {F : Type 0} (k : Kfifo F) (b : Behaves k) (speedfix : Bool) where
  open b use {contents}

  -- Two passes over a command: the test and the wait, which does not sleep.
  record Played (p q : Pass) (c : Order) (cs : List Order) (l : Life F) : Type 0 where
    next : Driver F
    passed :
        advance k speedfix (advance k speedfix l.place p l).place q (advance k speedfix l.place p l)
        ≡ record {
          place = at_while;
          driver = next;
          deeds = l.deeds ++ (carried_out speedfix c ∷ []);
        }
    left : contents next.msg_fifo ≡ orders_bytes cs

  play_one :
      (p q : Pass) (c : Order) (cs : List Order) (l : Life F)
      → l.place ≡ at_while
      → p.stop ≡ false
      → c.low < 256
      → c.high < 256
      → contents l.driver.msg_fifo ≡ orders_bytes (c ∷ cs)
      → Played p q c cs l
  unfolding advance
  play_one p q c cs l at go low high e =
      let (deed, left) =
        thread_round_lem k b speedfix q.stop q.stale l.driver c.val c.reg c.low c.high
          (orders_bytes cs) e low high in
      record {
        next = (thread_round k speedfix q.stop q.stale l.driver).1;
        passed = rw (at, go, deed) refl;
        left = left;
      }

  play_all :
      (cs : List Order) (ps : List Pass) (l : Life F)
      → AllOn ps
      → length ps ≡ 2 * length cs
      → CyclesFit cs
      → l.place ≡ at_while
      → contents l.driver.msg_fifo ≡ orders_bytes cs
      → let l' = sid_thread2 k speedfix ps l in
        (l'.deeds ≡ l.deeds ++ map (carried_out speedfix) cs)
        × (contents l'.driver.msg_fifo ≡ [])
        × (l'.place ≡ at_while)
  unfolding sid_thread2
  play_all [] [] l on n fit at e = (sym (append-nil l.deeds), e, at)
  play_all [] (p ∷ ps) l on n fit at e = absurd (omega (arith, n))
  play_all (c ∷ cs) [] l on n fit at e = absurd (omega (arith, n))
  play_all (c ∷ cs) (p ∷ []) l on n fit at e = absurd (omega (arith, n))
  play_all (c ∷ cs) (p ∷ q ∷ ps) l on n fit at e =
      let one = play_one p q c cs l at on.0 fit.0.0 fit.0.1 e in
      let l' : Life F = record {
        place = at_while;
        driver = one.next;
        deeds = l.deeds ++ (carried_out speedfix c ∷ []);
      } in
      let (done, empty, back) = play_all cs ps l' on.1.1 (omega (arith, n)) fit.1 refl one.left in
      let passed = one.passed in
      rw (passed, sid_thread2)
        (
          done ∙ append_assoc l.deeds (carried_out speedfix c ∷ []) (map (carried_out speedfix) cs),
          empty,
          back,
        )

  -- Commands that one `device_write` takes are carried out in order, each once, if the thread makes no pass between
  -- their bytes: with the FIFO empty and the thread at its loop, room for them all and no call going wrong, the write,
  -- of the value of each, its register and its cycles, low byte first, returns the number of the bytes at once. Then the
  -- thread, with two passes for each command and not asked to stop, waits the cycles of each and writes its value to
  -- its register, if there is one, and is back at its loop with the FIFO empty, whatever signals it gets.
  pub write_played :
      (w : Fortune) (cs : List Order) (live : ℕ) (l : Life F) (ps : List Pass)
      → IsGranted w
      → cs ≢ []
      → length cs ≤ 2048
      → CyclesFit cs
      → l.place ≡ at_while
      → contents l.driver.msg_fifo ≡ []
      → AllOn ps
      → length ps ≡ 2 * length cs
      → (d' : Driver F) × (device_write k speedfix w (orders_bytes cs) live l.driver
          ≡ answered (size (4 * length cs)) live d')
        × (let l' = sid_thread2 k speedfix ps (record l { driver = d' }) in
            (l'.deeds ≡ l.deeds ++ map (carried_out speedfix) cs)
            × (contents l'.driver.msg_fifo ≡ [])
            × (l'.place ≡ at_while))
  write_played w cs live l ps granted some_of few fit at empty on n =
      let (d', done, inside) =
        orders_written k b speedfix w cs live l.driver granted some_of few empty in
      (d', done, play_all cs ps (record l { driver = d' }) on n fit at inside)
