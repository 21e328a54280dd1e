-- ===== src/Kernel/Threads/Inv.antt =====
-- The writes that have had the semaphore, one after the other.
use sid_pi.Base.{
  ℕ, ◌≡◌, ◌≢◌, refl, sym, ap, ◌∙◌, arith, Bool, true, false, List, [], ◌∷◌, ◌++◌, append-nil,
  append_assoc, length, length-append, take, take-append, take-length, ◌-◌,
}
use sid_pi.Kernel.{Kfifo, Behaves, Driver}
use sid_pi.Kernel.Queue.{history, thread_round-history}
use sid_pi.Kernel.Threads.{
  Pc, idle, queued, holding, update, System, start, counted, uncounted, entered, Step, call, lock,
  give_up, put, interrupt, unlock, thread, Reach, here, later,
}

module _ {F : Type 0} (k : Kfifo F) (b : Behaves k) (speedfix : Bool) where
  open b use {contents}

  -- `rest` is what the owner of the semaphore has still to put, if there is one, and `written` what the others have put
  -- and it so far.
  pub record Inv (before : List ℕ) (s : System F) : Type 0 where
    pub owner : ℕ
    pub written : List ℕ
    pub rest : List ℕ
    pub order : history k b speedfix s.driver ≡ before ++ written
    pub cut : s.granted ≡ written ++ rest
    pub free : s.lock_writer ≡ false → rest ≡ []
    pub owned : s.lock_writer ≡ true → s.pc owner ≡ holding rest
    pub only :
        (i : ℕ) (bytes : List ℕ) → s.pc i ≡ holding bytes → (s.lock_writer ≡ true) × (i ≡ owner)

  start-Inv : (d : Driver F) → Inv (history k b speedfix d) (start d)
  start-Inv d = record {
    owner = 0;
    written = [];
    rest = [];
    order = sym (append-nil (history k b speedfix d));
    cut = refl;
    free = λ e. refl;
    owned = λ e. cc;
    only = λ i bytes e. absurd (cc);
  }

  pub entered-history :
      (d : Driver F) (x : ℕ)
      → k.is_full d.msg_fifo ≡ false
      → history k b speedfix (entered k speedfix d x) ≡ history k b speedfix d ++ (x ∷ [])
  entered-history d x room =
      ap (λ t. d.consumed ++ t) (b.enter_law x d.msg_fifo room)
      ∙ sym (append_assoc d.consumed (contents d.msg_fifo) (x ∷ []))

  -- A process that does not hold the semaphore does something else that leaves the history.
  aside :
      {before : List ℕ} {s : System F} (i : ℕ) (p : Pc) (d : Driver F)
      → history k b speedfix d ≡ history k b speedfix s.driver
      → ((bytes : List ℕ) → s.pc i ≢ holding bytes)
      → ((bytes : List ℕ) → p ≢ holding bytes)
      → Inv before s
      → Inv before (record s { driver = d; pc = update s.pc i p })
  aside {before} {s} i p d same out still_out inv = record {
    owner = inv.owner;
    written = inv.written;
    rest = inv.rest;
    order = same ∙ inv.order;
    cut = inv.cut;
    free = inv.free;
    owned = λ h. ground (arith, inv.owned h, out inv.rest);
    only = λ j bytes h. ground (arith, inv.only j bytes, still_out bytes);
  }

  -- The owner has to put what its counter says.
  left_to_put :
      {before : List ℕ} {s : System F} (inv : Inv before s) (i : ℕ) (bytes : List ℕ)
      → s.pc i ≡ holding bytes
      → inv.rest ≡ bytes
  left_to_put inv i bytes e = let (taken, at) = inv.only i bytes e in let o = inv.owned taken in cc

  all_written :
      {before : List ℕ} {s : System F} (inv : Inv before s)
      → s.lock_writer ≡ false
      → s.granted ≡ inv.written
  all_written inv free =
      inv.cut ∙ ap (λ t. inv.written ++ t) (inv.free free) ∙ append-nil inv.written

  cut_off :
      (written rest bytes granted : List ℕ)
      → rest ≡ bytes
      → granted ≡ written ++ rest
      → take (length granted - length bytes) granted ≡ written ++ []
  cut_off written rest bytes granted left cut =
      let n = ap length cut ∙ length-append written rest in
      let m = ap length left in
      let at : length granted - length bytes ≡ length written = omega (arith, n, m) in
      ap (λ t. take t granted) at
      ∙ ap (take (length written)) cut
      ∙ take-append (length written) written rest (omega arith)
      ∙ take-length written
      ∙ sym (append-nil written)

  Step-Inv : {before : List ℕ} {s t : System F} → Step k speedfix s t → Inv before s → Inv before t
  Step-Inv {before} {s} (call i bytes e some_of) inv =
      aside i (queued bytes) (counted s.driver (length bytes)) refl (λ bs h. cc) (λ bs h. cc) inv
  Step-Inv {before} {s} (lock i bytes e free) inv = record {
    owner = i;
    written = s.granted;
    rest = bytes;
    order = inv.order ∙ ap (λ t. before ++ t) (sym (all_written inv free));
    cut = refl;
    free = λ h. absurd (cc);
    owned = λ h. ground arith;
    only = λ j bs h. ground (arith, inv.only j bs);
  }
  Step-Inv {before} {s} (give_up i bytes e) inv =
      aside i idle (uncounted s.driver (length bytes)) refl (λ bs h. cc) (λ bs h. cc) inv
  Step-Inv {before} {s} (put i x bs e room) inv =
      let left = left_to_put inv i (x ∷ bs) e in
      record {
        owner = i;
        written = inv.written ++ (x ∷ []);
        rest = bs;
        order =
            entered-history s.driver x room
            ∙ ap (λ t. t ++ (x ∷ [])) inv.order
            ∙ append_assoc before inv.written (x ∷ []);
        cut =
            inv.cut ∙ ap (λ t. inv.written ++ t) left ∙ sym (append_assoc inv.written (x ∷ []) bs);
        free = λ h. (let taken = (inv.only i (x ∷ bs) e).0 in absurd (cc));
        owned = λ h. ground arith;
        only = λ j bytes h. ground (arith, inv.only j bytes, inv.only i (x ∷ bs) e);
      }
  Step-Inv {before} {s} (interrupt i bytes e some_left full) inv =
      let left = left_to_put inv i bytes e in
      record {
        owner = i;
        written = inv.written;
        rest = [];
        order = inv.order;
        cut = cut_off inv.written inv.rest bytes s.granted left inv.cut;
        free = λ h. refl;
        owned = λ h. ground arith;
        only = λ j bs h. ground (arith, inv.only j bs, inv.only i bytes e);
      }
  Step-Inv {before} {s} (unlock i e) inv =
      let left = left_to_put inv i [] e in
      record {
        owner = i;
        written = inv.written;
        rest = [];
        order = inv.order;
        cut = inv.cut ∙ ap (λ t. inv.written ++ t) left;
        free = λ h. refl;
        owned = λ h. absurd (cc);
        only = λ j bytes h. absurd (ground (arith, inv.only j bytes, inv.only i [] e));
      }
  Step-Inv {before} {s} (thread stale) inv = record {
    owner = inv.owner;
    written = inv.written;
    rest = inv.rest;
    order = thread_round-history k b speedfix false stale s.driver ∙ inv.order;
    cut = inv.cut;
    free = inv.free;
    owned = inv.owned;
    only = inv.only;
  }

  pub Reach-Inv :
      (d : Driver F) {t : System F}
      → Reach (Step k speedfix) (start d) t
      → Inv (history k b speedfix d) t
  Reach-Inv d here = start-Inv d
  Reach-Inv d (later r st) = Step-Inv st (Reach-Inv d r)

  -- Writers do not mix: however many processes call `device_write`, and whatever the order of their steps, of the
  -- signals that end their waits, and of the rounds of the kernel thread between any two bytes, two never put bytes at
  -- the same time; while one does, the bytes that the kernel thread has taken and those in the FIFO are, after what
  -- was there at the start, all writes that have had the semaphore, one behind the other, but for what a signal has
  -- cut off the end of one, and less what that one has still to put.
  pub one_writer :
      (d : Driver F) {t : System F} (i j : ℕ) (rest left : List ℕ)
      → Reach (Step k speedfix) (start d) t
      → t.pc i ≡ holding rest
      → t.pc j ≡ holding left
      → (i ≡ j) × (history k b speedfix t.driver ++ rest ≡ history k b speedfix d ++ t.granted)
  one_writer d {t} i j rest left r e e' =
      let inv = Reach-Inv d r in
      let (taken, at) = inv.only i rest e in
      let (taken', at') = inv.only j left e' in
      (
        at ∙ sym at',
        ap (λ x. x ++ rest) inv.order
            ∙ append_assoc (history k b speedfix d) inv.written rest
            ∙ ap (λ x. history k b speedfix d ++ x)
                (ap (λ x. inv.written ++ x) (sym (left_to_put inv i rest e)) ∙ sym inv.cut),
      )

  -- While no process puts bytes, they are all writes that have had the semaphore, but for what signals have cut off.
  pub writes_whole :
      (d : Driver F) {t : System F}
      → Reach (Step k speedfix) (start d) t
      → t.lock_writer ≡ false
      → history k b speedfix t.driver ≡ history k b speedfix d ++ t.granted
  writes_whole d {t} r free =
      let inv = Reach-Inv d r in
      inv.order ∙ ap (λ x. history k b speedfix d ++ x) (sym (all_written inv free))
