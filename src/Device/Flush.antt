-- ===== src/Device/Flush.antt =====
-- A FLUSH and a TRY_RESET packet, through the server and the driver.
use sid_pi.Base.{ℕ, ◌<◌, ◌≡◌, refl, ap, ◌∙◌, arith, Bool, true, some, List, [], ◌∷◌, ◌++◌, length}
use sid_pi.Kernel.{Kfifo, Behaves, Driver}
use sid_pi.Kernel.Calls.{sid_ioctl}
use sid_pi.Server.{
  Server, Outcome, Effect, done, exited, ioctl_flush, ioctl_reset, process_read_buffer,
}
use sid_pi.Server.Request
use sid_pi.Server.Answer
use sid_pi.Server.Reply.{reply}
use sid_pi.Server.Protocol.{View, Response}
use sid_pi.Server.Refine.Relation.{Shows, Agrees, Answered}
use sid_pi.Session.{receive}
use sid_pi.Session.Refine.{received-Agrees}
use sid_pi.Device.{Ioc, Numbers, flush, reset, perform}
use sid_pi.Device.Codes.{case_of-server_code}

answers :
    (s : Server) (o : Outcome) (r : Response)
    → Agrees s o (some r)
    → (s' : Server) × (o ≡ done s') × Answered s s' r
answers s (done s') r a = (s', refl, a)
answers s (exited c) r a = absurd a

-- The server answers the packet OK, asks the driver for `e`, and then shows `v`.
abbrev pub OnlyAsks : Server → List ℕ → Effect → View → Type 0
OnlyAsks s packet e v =
    (s' : Server) × (process_read_buffer (length packet) (receive packet s) ≡ done s')
    × (reply s' ≡ Answer.ok ∷ [])
    × (s'.effects ≡ s.effects ++ (e ∷ []))
    × Shows s' v

module _ (c : Ioc) (law : Numbers c) {F : Type 0} (k : Kfifo F) (b : Behaves k)
    (speedfix : Bool) where
  open b use {contents}

  perform-flush : (d : Driver F) → perform c k speedfix true ioctl_flush d ≡ d
  unfolding perform sid_ioctl
  perform-flush d = rw (case_of-server_code c law flush)

  perform-reset :
      (d : Driver F)
      → perform c k speedfix true ioctl_reset d ≡ record d { msg_fifo = k.clear d.msg_fifo }
  unfolding perform sid_ioctl
  perform-reset d = rw (case_of-server_code c law reset)

  -- FLUSH and TRY_RESET stop nothing: a server that shows a view answers either OK and asks the driver for it, but
  -- shows the same commands queued as before, and played if they were, with only the input clock at 0 after FLUSH, and
  -- whatever volume TRY_RESET gives; the driver is as it was after the first, and has emptied its own FIFO after the
  -- second.
  pub queue_plays_on :
      (s : Server) (v : View) (sid volume : ℕ) (d : Driver F)
      → Shows s v
      → sid < 256
      → volume < 256
      → OnlyAsks s (Request.flush ∷ sid ∷ 0 ∷ 0 ∷ []) ioctl_flush (record v { clock = 0 })
        × OnlyAsks s (Request.try_reset ∷ sid ∷ 0 ∷ 1 ∷ volume ∷ []) ioctl_reset v
        × (perform c k speedfix true ioctl_flush d ≡ d)
        × (contents (perform c k speedfix true ioctl_reset d).msg_fifo ≡ [])
  queue_plays_on s v sid volume d shown small loud =
      let flushing = Request.flush ∷ sid ∷ 0 ∷ 0 ∷ [] in
      let resetting = Request.try_reset ∷ sid ∷ 0 ∷ 1 ∷ volume ∷ [] in
      let (s1, finished1, a1) =
        answers (receive flushing s) (process_read_buffer 4 (receive flushing s)) _ (
          received-Agrees s v flushing shown
            (omega arith, (small, (omega arith, (omega arith, tt))))) in
      let (s2, finished2, a2) =
        answers (receive resetting s) (process_read_buffer 5 (receive resetting s)) _ (
          received-Agrees s v resetting shown
            (omega arith, (small, (omega arith, (omega arith, (loud, tt)))))) in
      (
        (s1, finished1, a1.replied, a1.effected, a1.shows),
        (s2, finished2, a2.replied, a2.effected, a2.shows),
        perform-flush d,
        ap (λ (t : Driver F). contents t.msg_fifo) (perform-reset d) ∙ b.clear_law d.msg_fifo,
      )
