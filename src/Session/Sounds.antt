-- ===== src/Session/Sounds.antt =====
-- A packet on its way through the server, from the socket to the pins.
use sid_pi.Base.{
  ℕ, ◌+◌, ◌*◌, ◌%◌, ◌<◌, ◌≡◌, ◌≢◌, refl, ap, ◌∙◌, arith, true, ◌^◌, some, List, [], ◌∷◌,
}
use sid_pi.Bits.Digits.{bit}
use sid_pi.Pins.{Gpio, Drives, cs, present}
use sid_pi.Pins.Shows.{data_pin, addr_pin, write_sid_lem}
use sid_pi.Runner.{Timeval, thread_round}
use sid_pi.Runner.Commands.{Command}
use sid_pi.Runner.Queue.{thread_round_plays}
use sid_pi.Runner.Sounds.{latched}
use sid_pi.Server.{Server}
use sid_pi.Server.Request
use sid_pi.Server.Answer
use sid_pi.Server.Protocol.{View}
use sid_pi.Server.Refine.Relation.{Shows}
use sid_pi.Session.{bytes, Connection, connection}
use sid_pi.Session
use sid_pi.Session.Spec
use sid_pi.Session.Refine.{Follows, connection-Follows}

reading_on :
    (c : Connection) (v : View) (answers : List (List ℕ))
    → Follows c (Spec.reading v answers)
    → (s : Server) × (c ≡ Session.reading s answers) × Shows s v
reading_on (Session.reading s sent) v answers f = (s, ap (Session.reading s) f.1, f.0)
reading_on (Session.closed s sent) v answers f = absurd f
reading_on (Session.ended c sent) v answers f = absurd f

-- nothing queued, playback on
abbrev pub awake : ℕ → View
awake clock = record { queue = []; playing = true; clock = clock }

module _ {G : Type 0} (io : Gpio G) (law : Drives io) where
  open law use {level}

  -- A command that a client writes comes out on the pins: from a server that shows no command queued and playback on, a
  -- TRY_WRITE of one command is answered OK, and the next round of the SID thread takes CS low with each line of the
  -- data bus at its bit of the value and each of the address bus at its bit of the register.
  pub packet_sounds :
      (s : Server) (clock sid high low reg value : ℕ) (t1 t2 : Timeval) (g : G) (j i : ℕ)
      → Shows s (awake clock)
      → sid < 256
      → high < 256
      → low < 256
      → reg < 256
      → value < 256
      → j < 8
      → i < 5
      → (s' : Server) × (g' : G) × (connection
            (bytes (Request.try_write ∷ sid ∷ 0 ∷ 4 ∷ high ∷ low ∷ reg ∷ value ∷ []) ∷ [])
            s
            []
          ≡ Session.reading s' ((Answer.ok ∷ []) ∷ []))
        × (latched io (thread_round t1 t2 s'.runner).0 g ≡ some g')
        × (level g' (data_pin j) ≡ bit j value)
        × (level g' (addr_pin i) ≡ bit i (reg % 32))
        × (level g' cs ≡ 0)
  packet_sounds s clock sid high low reg value t1 t2 g j i shown a h l r v hj hi =
      let data_cut : value % 256 ≡ value = omega arith in
      let reg_cut : reg % 32 % 32 ≡ reg % 32 = omega arith in
      let packet = Request.try_write ∷ sid ∷ 0 ∷ 4 ∷ high ∷ low ∷ reg ∷ value ∷ [] in
      let c : Command = record {
        reg = reg % 32;
        value = value;
        cycle_high = high;
        cycle_low = low;
      } in
      let after : View = record {
        queue = c ∷ [];
        playing = true;
        clock = (clock + (high * 256 + low + 0)) % 2 ^ 32;
      } in
      let (s', answered, shows) = reading_on _ after ((Answer.ok ∷ []) ∷ []) (
        connection-Follows (bytes packet ∷ []) s (awake clock) [] []
          ((omega arith, (a, (omega arith, (omega arith, (h, (l, (r, (v, tt)))))))), tt) shown
          refl) in
      let on : s'.runner.is_playback_ready ≢ 0 = (let p = shows.plays in ground arith) in
      let (f, none_left, step) = thread_round_plays t1 t2 s'.runner c [] shows.holds on in
      let (on_data, on_addr, on_cs, done_high) = write_sid_lem io law c.reg value g j i hj hi in
      (
        s',
        present io c.reg value g,
        answered,
        ap (λ x. latched io x.0 g) step,
        on_data ∙ ap (bit j) data_cut,
        on_addr ∙ ap (bit i) reg_cut,
        on_cs,
      )
