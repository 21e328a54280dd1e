-- ===== src/Kernel/Life/Rounds.antt =====
-- Until it is asked to stop the thread makes rounds, one after the other.
use sid_pi.Base.{
  ℕ, ◌≡◌, ◌≢◌, refl, sym, ap, ap₂, ◌∙◌, subst, arith, Bool, false, List, [], ◌∷◌, ◌++◌, append-nil,
  append_assoc, if◌then◌else◌,
}
use sid_pi.Kernel.{Kfifo, Behaves, Driver, Deed, asleep, acts, thread_round, thread_rounds}
use sid_pi.Kernel.Play.{deeds}
use sid_pi.Kernel.Life.{Place, at_while, in_wait, returned, Pass, Life, advance, sid_thread2}

-- `kthread_stop` has not been called.
abbrev pub AllOn : List Pass → Type 0
AllOn [] = Unit {0}
AllOn (p ∷ ps) = (p.stop ≡ false) × AllOn ps

module _ {F : Type 0} (k : Kfifo F) (b : Behaves k) (speedfix : Bool) where
  -- The rounds that these passes make.
  pub record Made (ps : List Pass) (l : Life F) : Type 0 where
    pub stales : List (List ℕ)
    pub driver_at : (sid_thread2 k speedfix ps l).driver ≡ thread_rounds k speedfix stales l.driver
    pub done :
        (sid_thread2 k speedfix ps l).deeds ≡ l.deeds ++ (deeds k b speedfix stales l.driver).0
    pub lives : (sid_thread2 k speedfix ps l).place ≢ returned

  pass_by :
      (p : Pass) (ps : List Pass) (l l' : Life F)
      → advance k speedfix l.place p l ≡ l'
      → l'.driver ≡ l.driver
      → l'.deeds ≡ l.deeds
      → Made ps l'
      → Made (p ∷ ps) l
  unfolding sid_thread2
  pass_by p ps l l' e same_driver same_deeds m = record {
    stales = m.stales;
    driver_at =
        ap (λ (x : Life F). (sid_thread2 k speedfix ps x).driver) e
        ∙ m.driver_at
        ∙ ap (thread_rounds k speedfix m.stales) same_driver;
    done =
        ap (λ (x : Life F). (sid_thread2 k speedfix ps x).deeds) e
        ∙ m.done
        ∙ ap₂ (λ a d. a ++ (deeds k b speedfix m.stales d).0) same_deeds same_driver;
    lives = subst (λ (x : Life F). (sid_thread2 k speedfix ps x).place ≢ returned) (sym e) m.lives;
  }

  pass_round :
      (p : Pass) (ps : List Pass) (l l' : Life F) (deed : Deed)
      → advance k speedfix l.place p l ≡ l'
      → l'.deeds ≡ l.deeds ++ (deed ∷ [])
      → thread_round k speedfix false p.stale l.driver ≡ (deed, l'.driver)
      → Made ps l'
      → Made (p ∷ ps) l
  unfolding sid_thread2 thread_rounds
  pass_round p ps l l' deed e more round m = record {
    stales = p.stale ∷ m.stales;
    driver_at =
        ap (λ (x : Life F). (sid_thread2 k speedfix ps x).driver) e
        ∙ m.driver_at
        ∙ ap (λ (r : Deed × Driver F). thread_rounds k speedfix m.stales r.1) (sym round);
    done =
        ap (λ (x : Life F). (sid_thread2 k speedfix ps x).deeds) e
        ∙ m.done
        ∙ ap (λ t. t ++ (deeds k b speedfix m.stales l'.driver).0) more
        ∙ append_assoc l.deeds (deed ∷ []) (deeds k b speedfix m.stales l'.driver).0
        ∙ ap (λ (r : Deed × Driver F). l.deeds ++ (r.0 ∷ (deeds k b speedfix m.stales r.1).0))
            (sym round);
    lives = subst (λ (x : Life F). (sid_thread2 k speedfix ps x).place ≢ returned) (sym e) m.lives;
  }

  through_wait :
      (p : Pass) (ps : List Pass) (l : Life F) (deed : Deed) (d : Driver F)
      → p.stop ≡ false
      → l.place ≡ in_wait
      → thread_round k speedfix false p.stale l.driver ≡ (deed, d)
      → ((l' : Life F) → l'.place ≢ returned → Made ps l')
      → Made (p ∷ ps) l
  unfolding advance
  through_wait p ps l asleep d go at e rest =
      let l' : Life F = record l { place = if p.signal then at_while else in_wait } in
      pass_by p ps l l' (rw (at, go, e) refl) refl refl (rest l' (ground arith))
  through_wait p ps l (acts cycles written) d go at e rest =
      let l' : Life F = record {
        place = at_while;
        driver = d;
        deeds = l.deeds ++ (acts cycles written ∷ []);
      } in
      pass_round p ps l l' (acts cycles written) (rw (at, go, e) refl) refl e (rest l' (λ h. cc))

  through_pass :
      (p : Pass) (ps : List Pass) (l : Life F) (w : Place)
      → p.stop ≡ false
      → l.place ≡ w
      → l.place ≢ returned
      → ((l' : Life F) → l'.place ≢ returned → Made ps l')
      → Made (p ∷ ps) l
  unfolding advance
  through_pass p ps l at_while go at lives rest =
      let l' : Life F = record l { place = in_wait } in
      pass_by p ps l l' (rw (at, go) refl) refl refl (rest l' (λ h. cc))
  through_pass p ps l in_wait go at lives rest =
      let (deed, d) = thread_round k speedfix false p.stale l.driver in
      through_wait p ps l deed d go at refl rest
  through_pass p ps l returned go at lives rest = absurd (lives at)

  -- Until `kthread_stop` is called `sidThread2` does not return, and what it has done through its waits, and any signals in
  -- them, is rounds on what is in the FIFO, one after the other.
  pub sid_thread2-Made : (ps : List Pass) (l : Life F) → AllOn ps → l.place ≢ returned → Made ps l
  unfolding sid_thread2 thread_rounds
  sid_thread2-Made [] l on lives = record {
    stales = [];
    driver_at = refl;
    done = sym (append-nil l.deeds);
    lives = lives;
  }
  sid_thread2-Made (p ∷ ps) l (go, on) lives =
      through_pass p ps l l.place go refl lives (λ l' h. sid_thread2-Made ps l' on h)
