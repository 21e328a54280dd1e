-- ===== src/Kernel/Queue.antt =====
-- `writeData` and `sidThread2` between them lose no byte, and a writer gets done.
use sid_pi.Base.{
  ℕ, zero, suc, ◌≡◌, ◌≢◌, refl, sym, ap, ◌∙◌, arith, Bool, true, false, not, List, [], ◌∷◌, ◌++◌,
  append-nil, append_assoc, length, take, drop, Bool-cases, inl, inr, ◌||◌,
}
use sid_pi.Kernel.{
  Kfifo, Behaves, Driver, thread_round, thread_rounds, fill, Wake, rounds, interrupted, Written,
  returned, waiting, write_data, or_done,
}

take-drop : {A : Type 0} (n : ℕ) (xs : List A) → take n xs ++ drop n xs ≡ xs
take-drop zero xs = refl
take-drop (suc n) [] = refl
take-drop (suc n) (x ∷ xs) = ap (λ t. x ∷ t) (take-drop n xs)

pub cons-not_nil : (x : ℕ) (xs : List ℕ) → x ∷ xs ≢ []
cons-not_nil x xs e = absurd (omega (arith, ap length e))

-- No wait of the writer is cut short by a signal.
abbrev pub Undisturbed : List Wake → Type 0
Undisturbed [] = Unit {0}
Undisturbed (rounds ss ∷ ws) = Undisturbed ws
Undisturbed (interrupted ∷ ws) = ⊥

-- In each wait of the writer the kernel thread makes a round or more.
abbrev pub Served : List Wake → Type 0
Served [] = Unit {0}
Served (rounds [] ∷ ws) = ⊥
Served (rounds (s ∷ ss) ∷ ws) = Served ws
Served (interrupted ∷ ws) = Served ws

module _ {F : Type 0} (k : Kfifo F) (b : Behaves k) (speedfix : Bool) where
  open b use {contents}

  -- All bytes that have ever been in the FIFO, in order.
  abbrev pub history : Driver F → List ℕ
  history d = d.consumed ++ contents d.msg_fifo

  pub thread_round-history :
      (stop : Bool) (stale : List ℕ) (d : Driver F)
      → history (thread_round k speedfix stop stale d).1 ≡ history d
  unfolding thread_round
  thread_round-history stop stale d = elim (Bool-cases (not (k.is_empty d.msg_fifo) || stop)) [
    | inl e ↦
        let law = b.leave_law 4 d.msg_fifo in
        rw
          (
            e,
            law.0,
            law.1,
            append_assoc d.consumed (take 4 (contents d.msg_fifo)) (drop 4 (contents d.msg_fifo)),
          )
          (ap (λ t. d.consumed ++ t) (take-drop 4 (contents d.msg_fifo)))
    | inr e ↦ rw e
  ]

  pub thread_rounds-history :
      (ss : List (List ℕ)) (d : Driver F) → history (thread_rounds k speedfix ss d) ≡ history d
  unfolding thread_rounds
  thread_rounds-history [] d = refl
  thread_rounds-history (s ∷ ss) d =
      thread_rounds-history ss (thread_round k speedfix false s d).1
      ∙ thread_round-history false s d

  pub fill-contents :
      (bs : List ℕ) (f : F)
      → let (rest, f') = fill k speedfix bs f in contents f' ++ rest ≡ contents f ++ bs
  unfolding fill
  fill-contents [] f = refl
  fill-contents (x ∷ bs) f = elim (Bool-cases (k.is_full f)) [
    | inl e ↦ rw e
    | inr e ↦ rw e (
        fill-contents bs (k.enter x f)
        ∙ ap (λ t. t ++ bs) (b.enter_law x f e)
        ∙ append_assoc (contents f) (x ∷ []) bs)
  ]

  -- It stops short only when the FIFO is full.
  pub fill-full :
      (bs : List ℕ) (f : F)
      → let (rest, f') = fill k speedfix bs f in rest ≢ [] → k.is_full f' ≡ true
  unfolding fill
  fill-full [] f = λ h. absurd (h refl)
  fill-full (x ∷ bs) f = elim (Bool-cases (k.is_full f)) [
    | inl e ↦ rw e (λ h. e)
    | inr e ↦ rw e (fill-full bs (k.enter x f))
  ]

  -- What a writer has left to write goes behind what the FIFO has had.
  abbrev pub Keeps : Driver F → List ℕ → Written F → Type 0
  Keeps d bytes (returned d') = history d' ≡ history d ++ bytes
  Keeps d bytes (waiting rest d') = history d' ++ rest ≡ history d ++ bytes

  pub fill-history :
      (bytes : List ℕ) (d : Driver F)
      → let (rest, f) = fill k speedfix bytes d.msg_fifo in
        history (record d { msg_fifo = f }) ++ rest ≡ history d ++ bytes
  fill-history bytes d =
      let (rest, f) = fill k speedfix bytes d.msg_fifo in
      append_assoc d.consumed (contents f) rest
      ∙ ap (λ t. d.consumed ++ t) (fill-contents bytes d.msg_fifo)
      ∙ sym (append_assoc d.consumed (contents d.msg_fifo) bytes)

  Keeps-or_done :
      (bytes : List ℕ) (d : Driver F) (more : Written F)
      → let (rest, f) = fill k speedfix bytes d.msg_fifo in
        let d' = record d { msg_fifo = f } in
        (rest ≢ [] → Keeps d' rest more) → Keeps d bytes (or_done rest (returned d') more)
  Keeps-or_done bytes d more =
      by_rest (fill k speedfix bytes d.msg_fifo).0 (fill-history bytes d) more
    where
      d' : Driver F
      d' = record d { msg_fifo = (fill k speedfix bytes d.msg_fifo).1 }

      by_rest :
          (rest : List ℕ)
          → history d' ++ rest ≡ history d ++ bytes
          → (more : Written F) → (rest ≢ [] → Keeps d' rest more)
          → Keeps d bytes (or_done rest (returned d') more)
      by_rest [] e more h = sym (append-nil (history d')) ∙ e
      by_rest (x ∷ xs) e (returned d2) h = h (cons-not_nil x xs) ∙ e
      by_rest (x ∷ xs) e (waiting rest d2) h = h (cons-not_nil x xs) ∙ e

  Keeps-from :
      (d d2 : Driver F) (bytes : List ℕ)
      → history d2 ≡ history d
      → (w : Written F) → Keeps d2 bytes w
      → Keeps d bytes w
  Keeps-from d d2 bytes e (returned d3) h = h ∙ ap (λ t. t ++ bytes) e
  Keeps-from d d2 bytes e (waiting rest d3) h = h ∙ ap (λ t. t ++ bytes) e

  -- If no signal cuts a wait short, `writeData` loses and reorders nothing: after it has returned, the
  -- bytes taken by the kernel thread and those in the FIFO are the ones before and then all that were
  -- written; while it still waits, they and what is left to write are.
  pub write_data-Keeps :
      (ws : List Wake) (bytes : List ℕ) (d : Driver F)
      → Undisturbed ws
      → Keeps d bytes (write_data k speedfix ws bytes d)
  unfolding write_data
  write_data-Keeps [] bytes d calm = Keeps-or_done bytes d (waiting _ _) (λ h. refl)
  write_data-Keeps (rounds ss ∷ ws) bytes d calm =
      let (rest, f) = fill k speedfix bytes d.msg_fifo in
      let d' : Driver F = record d { msg_fifo = f } in
      Keeps-or_done bytes d _ (λ h.
        Keeps-from d' (thread_rounds k speedfix ss d') rest (thread_rounds-history ss d') _
          (write_data-Keeps ws rest (thread_rounds k speedfix ss d') calm))
  write_data-Keeps (interrupted ∷ ws) bytes d calm = absurd calm
