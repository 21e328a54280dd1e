-- ===== src/Kernel/Threads/Schedule.antt =====
-- `device_write` as a function of the driver, and as steps of a process.
use sid_pi.Base.{
  ℕ, ◌+◌, ◌-◌, ◌≡◌, ◌≢◌, refl, ap, ◌∙◌, subst, arith, Bool, true, false, List, [], ◌∷◌, ◌++◌,
  length, ◌==◌, Bool-cases, inl, inr,
}
use sid_pi.Kernel.{
  Kfifo, Behaves, Driver, thread_round, thread_rounds, fill, Wake, rounds, interrupted, Written,
  returned, waiting, or_done, write_data,
}
use sid_pi.Kernel.Queue.{Undisturbed, Keeps, history, fill-full, cons-not_nil, write_data-Keeps}
use sid_pi.Kernel.Calls.{Fortune, Called, answered, blocked, size, after_write, device_write}
use sid_pi.Kernel.Drift.{IsGranted}
use sid_pi.Kernel.Threads.{
  Pc, idle, queued, holding, update, System, counted, entered, Step, call, lock, put, unlock,
  thread, Reach, here, later,
}
use sid_pi.Kernel.Threads.Serve.{Reach-trans}

module _ {F : Type 0} (k : Kfifo F) (b : Behaves k) (speedfix : Bool) where
  -- Steps lead from `s` to the driver `d` with the process at `p`, and leave all else.
  pub record Run (i : ℕ) (s : System F) (d : Driver F) (p : Pc) : Type 0 where
    pub last : System F
    pub reach : Reach (Step k speedfix) s last
    pub driver_at : last.driver ≡ d
    pub pc_at : last.pc i ≡ p
    pub same_lock : last.lock_writer ≡ s.lock_writer
    pub same_grants : last.granted ≡ s.granted
    pub others : (j : ℕ) → i ≢ j → last.pc j ≡ s.pc j

  Run-trans :
      {i : ℕ} {s : System F} {d d' : Driver F} {p p' : Pc}
      → (r : Run i s d p) → Run i r.last d' p'
      → Run i s d' p'
  Run-trans r q = record {
    last = q.last;
    reach = Reach-trans r.reach q.reach;
    driver_at = q.driver_at;
    pc_at = q.pc_at;
    same_lock = q.same_lock ∙ r.same_lock;
    same_grants = q.same_grants ∙ r.same_grants;
    others = λ j n. q.others j n ∙ r.others j n;
  }

  stay : {i : ℕ} {p : Pc} (s : System F) → s.pc i ≡ p → Run i s s.driver p
  stay s e = record {
    last = s;
    reach = here;
    driver_at = refl;
    pc_at = e;
    same_lock = refl;
    same_grants = refl;
    others = λ j n. refl;
  }

  fill-Run :
      (i : ℕ) (bytes : List ℕ) (s : System F)
      → s.pc i ≡ holding bytes
      → let (rest, f) = fill k speedfix bytes s.driver.msg_fifo in
        Run i s (record s.driver { msg_fifo = f }) (holding rest)
  unfolding fill
  fill-Run i [] s e = stay s e
  fill-Run i (x ∷ bs) s e = elim (Bool-cases (k.is_full s.driver.msg_fifo)) [
    | inl full ↦ rw full (stay s e)
    | inr room ↦
        let t : System F = record s {
          driver = entered k speedfix s.driver x;
          pc = update s.pc i (holding bs);
        } in
        let one : Run i s t.driver (holding bs) = record {
          last = t;
          reach = later here (put i x bs e room);
          driver_at = refl;
          pc_at = ground arith;
          same_lock = refl;
          same_grants = refl;
          others = λ j n. ground arith;
        } in
        rw room (Run-trans one (fill-Run i bs t (ground arith)))
  ]

  thread_rounds-Run :
      {i : ℕ} {p : Pc} (ss : List (List ℕ)) (s : System F)
      → s.pc i ≡ p
      → Run i s (thread_rounds k speedfix ss s.driver) p
  unfolding thread_rounds
  thread_rounds-Run [] s e = stay s e
  thread_rounds-Run {i} {p} (stale ∷ ss) s e =
      let t : System F = record s { driver = (thread_round k speedfix false stale s.driver).1 } in
      let one : Run i s t.driver p = record {
        last = t;
        reach = later here (thread stale);
        driver_at = refl;
        pc_at = e;
        same_lock = refl;
        same_grants = refl;
        others = λ j n. refl;
      } in
      Run-trans one (thread_rounds-Run ss t e)

  -- Steps lead to where `writeData` is when it has returned, or still waits, with the FIFO full.
  abbrev pub Ends : ℕ → System F → Written F → Type 0
  Ends i s (returned d) = Run i s d (holding [])
  Ends i s (waiting rest d) = Run i s d (holding rest) × (k.is_full d.msg_fifo ≡ true)

  Ends-or_done :
      (i : ℕ) (s : System F) (rest : List ℕ) (d : Driver F) (w : Written F)
      → Run i s d (holding rest)
      → (rest ≢ [] → Ends i s w)
      → Ends i s (or_done rest (returned d) w)
  Ends-or_done i s [] d w r more = r
  Ends-or_done i s (x ∷ xs) d w r more = more (cons-not_nil x xs)

  Ends-from :
      {i : ℕ} {s : System F} {d : Driver F} {p : Pc} (r : Run i s d p) (w : Written F)
      → Ends i r.last w
      → Ends i s w
  Ends-from r (returned d) q = Run-trans r q
  Ends-from r (waiting rest d) q = (Run-trans r q.0, q.1)

  write_data-Ends :
      (i : ℕ) (ws : List Wake) (bytes : List ℕ) (s : System F)
      → Undisturbed ws
      → s.pc i ≡ holding bytes
      → Ends i s (write_data k speedfix ws bytes s.driver)
  unfolding write_data
  write_data-Ends i [] bytes s calm e =
      let r = fill-Run i bytes s e in
      Ends-or_done i s _ _ _ r (λ left. (r, fill-full k b speedfix bytes s.driver.msg_fifo left))
  write_data-Ends i (rounds ss ∷ ws) bytes s calm e =
      let r = fill-Run i bytes s e in
      let q = thread_rounds-Run ss r.last r.pc_at in
      let here_driver = q.driver_at ∙ ap (thread_rounds k speedfix ss) r.driver_at in
      Ends-or_done i s _ _ _ r (λ left. Ends-from r _ (
        Ends-from q _ (
          subst
            (λ d.
              Ends i q.last
                (write_data k speedfix ws (fill k speedfix bytes s.driver.msg_fifo).0 d))
            here_driver
            (write_data-Ends i ws (fill k speedfix bytes s.driver.msg_fifo).0 q.last calm
              q.pc_at))))
  write_data-Ends i (interrupted ∷ ws) bytes s calm e = absurd calm

  -- Where a process is when its call has been answered, or still sleeps, and what has become of its bytes.
  abbrev pub Lands : ℕ → List ℕ → System F → Called F → Type 0
  Lands i bytes s (answered status live d) =
      ((t : System F) × Reach (Step k speedfix) s t
        × (t.driver ≡ d)
        × (t.pc i ≡ idle)
        × (t.lock_writer ≡ false))
      × (history k b speedfix d ≡ history k b speedfix s.driver ++ bytes)
  Lands i bytes s (blocked rest d) =
      ((t : System F) × Reach (Step k speedfix) s t
        × (t.driver ≡ d)
        × (t.pc i ≡ holding rest)
        × (t.lock_writer ≡ true))
      × (history k b speedfix d ++ rest ≡ history k b speedfix s.driver ++ bytes)
      × (length (b.contents d.msg_fifo) ≡ 8192)

  after_write-Lands :
      (i n live : ℕ) (bytes : List ℕ) (s u : System F) (w : Written F)
      → Reach (Step k speedfix) s u
      → u.lock_writer ≡ true
      → Ends i u w
      → Keeps k b speedfix s.driver bytes w
      → Lands i bytes s (after_write (size n) live w)
  after_write-Lands i n live bytes s u (returned d) r taken q kept = (
    (
      record q.last { lock_writer = false; pc = update q.last.pc i idle },
      later (Reach-trans r q.reach) (unlock i q.pc_at),
      q.driver_at,
      ground arith,
      refl,
    ),
    kept,
  )
  after_write-Lands i n live bytes s u (waiting rest d) r taken (q, full) kept =
      let law = b.full_law d.msg_fifo in
      (
        (q.last, Reach-trans r q.reach, q.driver_at, q.pc_at, q.same_lock ∙ taken),
        kept,
        ground arith,
      )

  -- `device_write` as one function is a run of the steps, and passes its bytes on: for an idle process, with the
  -- semaphore free, no call going wrong and no signal in its waits, steps of that process and of the kernel thread lead
  -- to the driver that the function leaves, with the process returned and the semaphore free if the function answers,
  -- and with the same bytes still to put if it still sleeps. In the first case what the FIFO has had is what it had
  -- before and then all the bytes; in the second it is full, and the bytes still to put are those that are missing.
  pub device_write-Lands :
      (i : ℕ) (w : Fortune) (bytes : List ℕ) (live : ℕ) (s : System F)
      → IsGranted w
      → Undisturbed w.wakes
      → bytes ≢ []
      → s.pc i ≡ idle
      → s.lock_writer ≡ false
      → Lands i bytes s (device_write k speedfix w bytes live s.driver)
  unfolding device_write
  device_write-Lands i w [] live s g calm some_of e free = absurd (some_of refl)
  device_write-Lands i w (x ∷ xs) live s g calm some_of e free =
      let bytes = x ∷ xs in
      let more : (length bytes == 0) ≡ false = ground arith in
      let s1 : System F = record s {
        driver = counted s.driver (length bytes);
        pc = update s.pc i (queued bytes);
      } in
      let s2 : System F = record s1 {
        lock_writer = true;
        pc = update s1.pc i (holding bytes);
        granted = s.granted ++ bytes;
      } in
      let in_queue : s1.pc i ≡ queued bytes = ground arith in
      let in_write : s2.pc i ≡ holding bytes = ground arith in
      let so_far : Reach (Step k speedfix) s s2 =
        later (later here (call i bytes e some_of)) (lock i bytes in_queue free) in
      rw (g.device, more, g.buffer, g.whole, g.lock)
        (after_write-Lands i (length bytes) (live + 1 - 1) bytes s s2 _ so_far refl
          (write_data-Ends i w.wakes bytes s2 calm in_write)
          (write_data-Keeps k b speedfix w.wakes bytes s1.driver calm))
