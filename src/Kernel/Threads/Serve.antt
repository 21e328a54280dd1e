-- ===== src/Kernel/Threads/Serve.antt =====
-- A writer that waits can be served.
use sid_pi.Base.{
  ℕ, ◌≡◌, ◌≢◌, refl, ap, ◌∙◌, arith, Bool, true, false, List, [], ◌∷◌, ◌++◌, length, length-drop,
  Bool-cases, inl, inr,
}
use sid_pi.Kernel.{Kfifo, Behaves, Driver, thread_round}
use sid_pi.Kernel.Queue.{history}
use sid_pi.Kernel.Drift.{thread_round_counts}
use sid_pi.Kernel.Threads.{
  idle, queued, holding, update, System, start, Step, entered, lock, put, unlock, thread, Reach,
  here, later,
}
use sid_pi.Kernel.Threads.Inv.{Reach-Inv, writes_whole}

pub Reach-trans :
    {F : Type 0} {R : System F → System F → Type 0} {s t u : System F}
    → Reach R s t
    → Reach R t u
    → Reach R s u
Reach-trans r here = r
Reach-trans r (later q st) = later (Reach-trans r q) st

module _ {F : Type 0} (k : Kfifo F) (b : Behaves k) (speedfix : Bool) where
  open b use {contents}

  -- After a round of the kernel thread a full FIFO has room.
  room_after_round :
      (d : Driver F)
      → k.is_full d.msg_fifo ≡ true
      → k.is_full (thread_round k speedfix false [] d).1.msg_fifo ≡ false
  room_after_round d full =
      let n : length (contents d.msg_fifo) ≡ 8192 =
        (let law = b.full_law d.msg_fifo in ground arith) in
      let (counts, left) = thread_round_counts k b speedfix [] d (omega arith) in
      let m = ap length left ∙ length-drop 4 (contents d.msg_fifo) in
      let law = b.full_law (thread_round k speedfix false [] d).1.msg_fifo in ground arith

  -- The steps from `s` have put the bytes of `i`, and changed nothing else but the driver.
  record Filled (i : ℕ) (s : System F) : Type 0 where
    last : System F
    reach : Reach (Step k speedfix) s last
    all_put : last.pc i ≡ holding []
    same_lock : last.lock_writer ≡ s.lock_writer
    same_grants : last.granted ≡ s.granted
    others : (j : ℕ) → i ≢ j → last.pc j ≡ s.pc j

  -- Steps that lead to a state with the lock, the grants and the other processes as they were, and on from there.
  on_from :
      {i : ℕ} {s : System F} (t : System F)
      → Reach (Step k speedfix) s t
      → t.lock_writer ≡ s.lock_writer
      → t.granted ≡ s.granted
      → ((j : ℕ) → i ≢ j → t.pc j ≡ s.pc j)
      → Filled i t
      → Filled i s
  on_from t r e e' o p = record {
    last = p.last;
    reach = Reach-trans r p.reach;
    all_put = p.all_put;
    same_lock = p.same_lock ∙ e;
    same_grants = p.same_grants ∙ e';
    others = λ j n. p.others j n ∙ o j n;
  }

  put_one :
      (i x : ℕ) (bs : List ℕ) (s : System F)
      → ((t : System F) → t.pc i ≡ holding bs → Filled i t)
      → s.pc i ≡ holding (x ∷ bs)
      → k.is_full s.driver.msg_fifo ≡ false
      → Filled i s
  put_one i x bs s rest e room =
      let t : System F = record s {
        driver = entered k speedfix s.driver x;
        pc = update s.pc i (holding bs);
      } in
      on_from t (later here (put i x bs e room)) refl refl (λ j n. ground arith)
        (rest t (ground arith))

  put_all : (i : ℕ) (bytes : List ℕ) (s : System F) → s.pc i ≡ holding bytes → Filled i s
  put_all i [] s e = record {
    last = s;
    reach = here;
    all_put = e;
    same_lock = refl;
    same_grants = refl;
    others = λ j n. refl;
  }
  put_all i (x ∷ bs) s e = elim (Bool-cases (k.is_full s.driver.msg_fifo)) [
    | inr room ↦ put_one i x bs s (put_all i bs) e room
    | inl full ↦
        let t : System F = record s { driver = (thread_round k speedfix false [] s.driver).1 } in
        on_from t (later here (thread [])) refl refl (λ j n. refl)
          (put_one i x bs t (put_all i bs) e (room_after_round s.driver full))
  ]

  -- The steps from `s` have freed the semaphore.
  record Freed (i : ℕ) (s : System F) : Type 0 where
    last : System F
    reach : Reach (Step k speedfix) s last
    done : last.pc i ≡ idle
    free : last.lock_writer ≡ false
    same_grants : last.granted ≡ s.granted
    others : (j : ℕ) → i ≢ j → last.pc j ≡ s.pc j

  finish : (i : ℕ) (bytes : List ℕ) (s : System F) → s.pc i ≡ holding bytes → Freed i s
  finish i bytes s e =
      let p = put_all i bytes s e in
      record {
        last = record p.last { lock_writer = false; pc = update p.last.pc i idle };
        reach = later p.reach (unlock i p.all_put);
        done = ground arith;
        free = refl;
        same_grants = p.same_grants;
        others = λ j n. ground (arith, p.others j n);
      }

  -- A waiting writer, with the semaphore free, gets through.
  through :
      (i : ℕ) (bytes : List ℕ) (s : System F)
      → s.pc i ≡ queued bytes
      → s.lock_writer ≡ false
      → (t : System F) × Reach (Step k speedfix) s t
        × (t.pc i ≡ idle)
        × (t.lock_writer ≡ false)
        × (t.granted ≡ s.granted ++ bytes)
  through i bytes s e free =
      let t : System F = record s {
        lock_writer = true;
        pc = update s.pc i (holding bytes);
        granted = s.granted ++ bytes;
      } in
      let f = finish i bytes t (ground arith) in
      (
        f.last,
        Reach-trans (later here (lock i bytes e free)) f.reach,
        f.done,
        f.free,
        f.same_grants,
      )

  -- No deadlock and no writer shut out: in every state that writers and the kernel thread reach, steps can follow after
  -- which the `device_write` of a waiting process has returned, and its bytes have gone behind all those of the
  -- writes that had the semaphore before it.
  pub writer_served :
      (d : Driver F) {s : System F} (i : ℕ) (bytes : List ℕ)
      → Reach (Step k speedfix) (start d) s
      → s.pc i ≡ queued bytes
      → (t : System F) × Reach (Step k speedfix) s t
        × (t.pc i ≡ idle)
        × (history k b speedfix t.driver ≡ history k b speedfix d ++ (s.granted ++ bytes))
  writer_served d {s} i bytes r e = elim (Bool-cases s.lock_writer) [
    | inr free ↦ served s here refl e free
    | inl taken ↦
        let inv = Reach-Inv k b speedfix d r in
        let f = finish inv.owner inv.rest s (inv.owned taken) in
        let apart : inv.owner ≢ i = λ same. (let o = inv.owned taken in cc) in
        served f.last f.reach f.same_grants (f.others i apart ∙ e) f.free
  ]
    where
      served :
          (u : System F)
          → Reach (Step k speedfix) s u
          → u.granted ≡ s.granted
          → u.pc i ≡ queued bytes
          → u.lock_writer ≡ false
          → (t : System F) × Reach (Step k speedfix) s t
            × (t.pc i ≡ idle)
            × (history k b speedfix t.driver ≡ history k b speedfix d ++ (s.granted ++ bytes))
      served u q same e free =
          let (t, q', done, free', grants) = through i bytes u e free in
          let all = Reach-trans q q' in
          (
            t,
            all,
            done,
            writes_whole k b speedfix d (Reach-trans r all) free'
                ∙ ap (λ x. history k b speedfix d ++ x) (grants ∙ ap (λ x. x ++ bytes) same),
          )
