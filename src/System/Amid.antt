-- ===== src/System/Amid.antt =====
-- `canBufferAccept` and `isBufferHalfFull` read the FIFO without the mutex, so they may see it while `sidThread` is
-- amid the four reads of a round.
use sid_pi.Base.{
  ℕ, zero, suc, ◌+◌, ◌-◌, ◌*◌, ◌^◌, ◌≤◌, ◌<◌, ◌≡◌, ◌≢◌, refl, sym, ap, ◌∙◌, subst, arith, true,
  Bool-cases, List, [], ◌∷◌, ◌++◌, length, inl, inr, pos, ltb, if◌then◌else◌, ◌⊎◌,
}
use sid_pi.Fifo.{Fifo, read_fifo, fifo_count_of, fifo_size_of}
use sid_pi.Runner.{
  Runner, Timeval, thread_round, can_play, playback_ready, can_buffer_accept, is_buffer_half_full,
  start_playback,
}
use sid_pi.Runner.Commands.{Command, AllBytes, Holds, Holds-count, Holds-bound, cycles_of}
use sid_pi.Runner.Queue.{thread_round_plays, advanced, can_play_iff}
use sid_pi.Runner.Gates.{can_buffer_accept_lem}
use sid_pi.System.{System, woken, round, wake, accept, thread, Reach, later}
use sid_pi.System.Inv.{Reach-Inv}

-- The FIFO after so many of the reads.
abbrev pub after_reads : ℕ → Fifo → Fifo
after_reads zero f = f
after_reads (suc n) f = after_reads n (read_fifo f).1

-- What the network side sees after so many of the reads of a round that plays.
abbrev pub amid : ℕ → Runner → Runner
amid n r = record r { fifo = after_reads n r.fifo }

read_counts :
    (f : Fifo)
    → 0 < f.fifo_count
    → f.fifo_count < 2 ^ 32
    → ((read_fifo f).1.fifo_count ≡ f.fifo_count - 1) × ((read_fifo f).1.fifo_size ≡ f.fifo_size)
unfolding read_fifo
read_counts f h l = ground arith

after_reads_counts :
    (n : ℕ) (f : Fifo)
    → n ≤ f.fifo_count
    → f.fifo_count < 2 ^ 32
    → ((after_reads n f).fifo_count ≡ f.fifo_count - n)
      × ((after_reads n f).fifo_size ≡ f.fifo_size)
after_reads_counts zero f h l = (omega arith, refl)
after_reads_counts (suc n) f h l =
    let (one, size) = read_counts f (omega arith) l in
    let (rest, same) = after_reads_counts n (read_fifo f).1 (omega arith) (omega arith) in
    (omega arith, same ∙ size)

-- The tests by the count of the FIFO alone.
accepts_by_count :
    (r : Runner) (n : ℕ)
    → r.fifo.fifo_size ≡ 8192
    → r.fifo.fifo_count ≤ 8192
    → can_buffer_accept r (pos n) ≡ ltb (r.fifo.fifo_count + n) 8192
unfolding can_buffer_accept fifo_count_of fifo_size_of
accepts_by_count r n size small =
    let count : fifo_count_of r.fifo ≡ pos r.fifo.fifo_count = ground arith in
    let all : fifo_size_of r.fifo ≡ pos 8192 = ground arith in rw (count, all) (ground arith)

half_by_count :
    (r : Runner)
    → r.fifo.fifo_size ≡ 8192
    → r.fifo.fifo_count ≤ 8192
    → is_buffer_half_full r ≡ ltb 4096 r.fifo.fifo_count
unfolding is_buffer_half_full fifo_count_of fifo_size_of
half_by_count r size small =
    let count : fifo_count_of r.fifo ≡ pos r.fifo.fifo_count = ground arith in
    let all : fifo_size_of r.fifo ≡ pos 8192 = ground arith in rw (count, all) (ground arith)

module _ (r : Runner) (cs : List Command) (h : Holds r.fifo cs) where
  amid_counts :
      (n : ℕ)
      → n ≤ 4 * length cs
      → ((amid n r).fifo.fifo_count ≡ 4 * length cs - n) × ((amid n r).fifo.fifo_size ≡ 8192)
  amid_counts n l =
      let c = Holds-count cs h in
      let b = Holds-bound cs h in
      let (count, size) = after_reads_counts n r.fifo (omega arith) (omega arith) in
      (omega arith, size ∙ h.has.sized)

  -- `canBufferAccept` amid a round, by the commands before it.
  pub can_buffer_accept-amid :
      (n bytes : ℕ)
      → n ≤ 4 * length cs
      → can_buffer_accept (amid n r) (pos bytes) ≡ ltb (4 * length cs - n + bytes) 8192
  can_buffer_accept-amid n bytes l =
      let b = Holds-bound cs h in
      let (count, size) = amid_counts n l in
      accepts_by_count (amid n r) bytes size (omega arith) ∙ ap (λ t. ltb (t + bytes) 8192) count

  -- What looks half full amid a round looked so before it.
  half_before :
      (n : ℕ)
      → n ≤ 4 * length cs
      → is_buffer_half_full (amid n r) ≡ true
      → is_buffer_half_full r ≡ true
  half_before n l e =
      let c = Holds-count cs h in
      let b = Holds-bound cs h in
      let (count, size) = amid_counts n l in
      let seen = sym (half_by_count (amid n r) size (omega arith)) ∙ e in
      half_by_count r h.has.sized (omega arith)
      ∙ (let p : ltb 4096 r.fifo.fifo_count ≡ true = ground arith in p)

  -- What finds room amid a round finds it after the round.
  accepted_after :
      (n bytes : ℕ) (t1 t2 : Timeval)
      → n < 4
      → can_play r ≡ true
      → can_buffer_accept (amid n r) (pos bytes) ≡ true
      → can_buffer_accept (thread_round t1 t2 r).1 (pos bytes) ≡ true
  accepted_after n bytes t1 t2 l plays fits =
      let (some_left, on) = (can_play_iff r cs h).0 plays in by_queue cs refl some_left on
    where
      by_queue :
          (q : List Command)
          → cs ≡ q
          → 0 < length q
          → r.is_playback_ready ≢ 0
          → can_buffer_accept (thread_round t1 t2 r).1 (pos bytes) ≡ true
      by_queue [] e left on = absurd (omega arith)
      by_queue (c ∷ q) e left on =
          let (f, held, step) = thread_round_plays t1 t2 r c q (subst (Holds r.fifo) e h) on in
          let len = ap length e in
          let seen = sym (can_buffer_accept-amid n bytes (omega (arith, len))) ∙ fits in
          let room : ltb (4 * length q + bytes) 8192 ≡ true = ground (arith, len) in
          ap (λ (p : Runner). can_buffer_accept p (pos bytes)) (ap (λ p. p.1) step)
          ∙ can_buffer_accept_lem (advanced r f (cycles_of c)) q held bytes
          ∙ room

-- The runner after a test of `isBufferHalfFull` amid a round.
abbrev pub woken_amid : ℕ → Runner → Runner
woken_amid n r = if is_buffer_half_full (amid n r) then start_playback r else r

pub Holds-woken_amid :
    (n : ℕ) (r : Runner) (cs : List Command) → Holds r.fifo cs → Holds (woken_amid n r).fifo cs
unfolding start_playback
Holds-woken_amid n r cs h =
    let same : (woken_amid n r).fifo ≡ r.fifo = ground arith in subst (λ f. Holds f cs) (sym same) h

can_play-woken_amid : (n : ℕ) (r : Runner) → can_play r ≡ true → can_play (woken_amid n r) ≡ true
unfolding can_play playback_ready start_playback
can_play-woken_amid n r e = ground arith

woken_amid_same :
    (n : ℕ) (r : Runner) (cs : List Command)
    → Holds r.fifo cs
    → n ≤ 4 * length cs
    → (woken r ≡ woken_amid n r) ⊎ (r ≡ woken_amid n r)
woken_amid_same n r cs h l = elim (Bool-cases (is_buffer_half_full (amid n r))) [
  | inl e ↦ inl (rw (e, half_before r cs h n l e) refl)
  | inr e ↦ inr (rw e refl)
]

module _ {r0 : Runner} (empty : Holds r0.fifo []) (small : r0.current_clock < 2 ^ 32) where
  wake_amid :
      (s : System) (n : ℕ)
      → Reach r0 s
      → s.todo ≡ []
      → n < 4
      → can_play s.runner ≡ true
      → Reach r0 (record s { runner = woken_amid n s.runner })
  wake_amid s n r none_left few plays =
      let inv = Reach-Inv empty small r in
      let left = ((can_play_iff s.runner inv.queue inv.holds).0 plays).0 in
      let reached = λ (p : Runner). Reach r0 (record s { runner = p }) in
      elim (woken_amid_same n s.runner inv.queue inv.holds (omega arith)) [
        | inl e ↦ subst reached e (later r (wake none_left))
        | inr e ↦ subst reached e r
      ]

  accept_amid :
      (s : System) (cs : List Command) (n : ℕ) (t1 t2 : Timeval)
      → Reach r0 s
      → s.todo ≡ []
      → AllBytes cs
      → n < 4
      → can_play s.runner ≡ true
      → can_buffer_accept (amid n s.runner) (pos (4 * length cs)) ≡ true
      → Reach r0 (record (round t1 t2 s) { todo = cs; accepted = s.accepted ++ cs })
  accept_amid s cs n t1 t2 r none_left b few plays fits =
      let inv = Reach-Inv empty small r in
      later (later r (thread t1 t2)) (
        accept cs none_left b
          (accepted_after s.runner inv.queue inv.holds n (4 * length cs) t1 t2 few plays fits))

-- The tests of the network side need no mutex: where the state has been reached and `sidThread` is amid a round that
-- plays, a TRY_WRITE that makes its two tests after `i` and after `j` of the four reads, and passes the second, leads
-- with the end of the round to a state that is reached by steps that test between two rounds.
pub amid-Reach :
    {r0 : Runner} (s : System) (cs : List Command) (i j : ℕ) (t1 t2 : Timeval)
    → Holds r0.fifo []
    → r0.current_clock < 2 ^ 32
    → Reach r0 s
    → s.todo ≡ []
    → AllBytes cs
    → i ≤ j
    → j < 4
    → can_play s.runner ≡ true
    → can_buffer_accept (amid j (woken_amid i s.runner)) (pos (4 * length cs)) ≡ true
    → Reach r0 (record (round t1 t2 (record s { runner = woken_amid i s.runner })) {
      todo = cs;
      accepted = s.accepted ++ cs;
    })
amid-Reach {r0} s cs i j t1 t2 empty small r none_left b order few plays fits =
    accept_amid empty small (record s { runner = woken_amid i s.runner }) cs j t1 t2
      (wake_amid empty small s i r none_left (omega arith) plays) none_left b few
      (can_play-woken_amid i s.runner plays) fits
