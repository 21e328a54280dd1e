-- ===== src/Server/Refine/Packet.antt =====
-- `processReadBuffer` on the bytes that one `read` returned.
use sid_pi.Base.{
  ℕ, ◌+◌, ◌*◌, ◌≤◌, ◌≡◌, refl, ap, ◌∙◌, subst, arith, true, false, ◌&&◌, Option, none, some, List,
  [], ◌∷◌, ◌++◌, length, take, drop, ltb, leb, if◌then◌else◌, AreBytes, take-append, length-append,
  Bool-cases, inl, inr,
}
use sid_pi.Bits.Fields.{bit_or_field}
use sid_pi.Server.{
  Server, Outcome, done, exited, length_field, byte_at, dispatch, finish, process_read_buffer,
}
use sid_pi.Server.Protocol.{View, Response, need, fits, respond, serve}
use sid_pi.Server.Refine.Relation.{Shows, Agrees}
use sid_pi.Server.Refine.Playback.{payload}
use sid_pi.Server.Refine.Cases.{dispatch-Handles}

-- `dataReadPos = 0` at the end changes nothing that counts.
finish-Agrees :
    (s : Server) (o : Outcome) (r : Option Response) → Agrees s o r → Agrees s (finish o) r
unfolding finish
finish-Agrees s (done s') (some r) a = record {
  shows = record {
    holds = a.shows.holds;
    plays = a.shows.plays;
    clocks = a.shows.clocks;
    clock_fits = a.shows.clock_fits;
    room = a.shows.room;
    read_at = refl;
    input = a.shows.input;
  };
  replied = a.replied;
  effected = a.effected;
}
finish-Agrees s (done s') none a = a
finish-Agrees s (exited c) r a = a

-- The server has `received` at the front of its input buffer.
pub record Received (s : Server) (received : List ℕ) : Type 0 where
  pub old : List ℕ
  pub input : s.data_read ≡ received ++ old

Agrees-same :
    (s s0 : Server) (o : Outcome) (r : Option Response)
    → s0.effects ≡ s.effects
    → Agrees s0 o r
    → Agrees s o r
Agrees-same s s0 (done s') (some r) e a = record {
  shows = a.shows;
  replied = a.replied;
  effected = a.effected ∙ ap (λ t. t ++ r.effects) e;
}
Agrees-same s s0 (done s') none e a = a
Agrees-same s s0 (exited c) r e a = a

module _ (s : Server) (v : View) (h : Shows s v) where
  -- The handler starts with the reply empty.
  handled :
      (command n : ℕ)
      → n + 4 ≤ length s.data_read
      → Agrees s
          (finish (dispatch command n (record s { data_write_pos = 0 })))
          (if fits (need command) n then some (respond command (payload s n) v) else none)
  handled command n len =
      let s0 : Server = record s { data_write_pos = 0 } in
      finish-Agrees s _ _ (
        Agrees-same s s0 _ _ refl (
          dispatch-Handles s0 v n
            (record {
              shows = record {
                holds = h.holds;
                plays = h.plays;
                clocks = h.clocks;
                clock_fits = h.clock_fits;
                room = h.room;
                read_at = h.read_at;
                input = h.input;
              };
              start = refl;
              received = len;
            })
            command))

  checked :
      (len command n : ℕ)
      → byte_at s s.data_read_pos ≡ command
      → length_field s ≡ n
      → 4 ≤ len
      → len ≤ length s.data_read
      → Agrees s (process_read_buffer len s) (
          if leb (n + 4) len && fits (need command) n
          then some (respond command (payload s n) v)
          else none)
  unfolding process_read_buffer
  checked len command n e0 e1 four le =
      let long : ltb len 4 ≡ false = ground arith in
      elim (Bool-cases (leb (n + 4) len)) [
        | inl fit ↦
            let not_over : ltb len (n + 4) ≡ false = ground arith in
            rw (e0, e1, long, fit, not_over) (handled command n (ground arith))
        | inr over ↦
            let is_over : ltb len (n + 4) ≡ true = ground arith in
            rw (e0, e1, long, over, is_over) tt
      ]

-- For a server that shows a view and has received the bytes, `processReadBuffer` does what the
-- protocol asks of that view: it ends the program exactly on bytes that are not a well-formed packet,
-- and else composes the answer, has the effects, and shows the view that the protocol gives.
pub process_read_buffer_refines :
    (s : Server) (v : View) (received : List ℕ)
    → Shows s v
    → Received s received
    → Agrees s (process_read_buffer (length received) s) (serve received v)
process_read_buffer_refines s v [] h i = unfold process_read_buffer in tt
process_read_buffer_refines s v (a ∷ []) h i = unfold process_read_buffer in tt
process_read_buffer_refines s v (a ∷ b ∷ []) h i = unfold process_read_buffer in tt
process_read_buffer_refines s v (a ∷ b ∷ c ∷ []) h i = unfold process_read_buffer in tt
process_read_buffer_refines s v (a ∷ b ∷ c ∷ d ∷ rest) h i =
    let n = c * 256 + d in
    let len = length (a ∷ b ∷ c ∷ d ∷ rest) in
    let e0 : byte_at s s.data_read_pos ≡ a = rw (h.read_at, i.input) in
    let e1 : length_field s ≡ n =
      rw (h.read_at, i.input) (bit_or_field 8 c d (subst AreBytes i.input h.input).1.1.1.0) in
    let all : len ≤ length s.data_read =
      omega (arith, ap length i.input, length-append rest i.old) in
    let go = checked s v h len a n e0 e1 (omega arith) all in
    let same : leb (n + 4) len ≡ leb n (length rest) = ground arith in
    elim (Bool-cases (leb n (length rest))) [
      | inl fit ↦
          let same_data : payload s n ≡ take n rest =
            ap (λ t. take n (drop 4 t)) i.input ∙ take-append n rest i.old (ground arith) in
          rw fit (rw (same, fit, same_data) at go)
      | inr over ↦ rw over (rw (same, over) at go)
    ]
