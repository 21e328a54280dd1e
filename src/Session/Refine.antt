-- ===== src/Session/Refine.antt =====
-- The connection loop against the conversation.
use sid_pi.Base.{
  ℕ, ◌≡◌, ◌≢◌, refl, sym, ap, ap₂, ◌∙◌, subst, arith, Bool, true, Option, none, some, List, [], ◌∷◌,
  ◌++◌, length, drop, AreBytes, AreBytes-drop, if◌then◌else◌, Bool-cases, inl, inr,
}
use sid_pi.Runner.{Timeval, thread_round, pause}
use sid_pi.Runner.Commands.{Command, Holds}
use sid_pi.Runner.Queue.{thread_round_plays, thread_round_pauses}
use sid_pi.Server.{Server, Outcome, done, exited, process_read_buffer}
use sid_pi.Server.Protocol.{View, Response, serve}
use sid_pi.Server.Refine.Relation.{Shows, Agrees}
use sid_pi.Server.Refine.Packet.{process_read_buffer_refines}
use sid_pi.Session.{Event, bytes, end_of_file, read_failed, thread, Connection, receive, connection}
use sid_pi.Session
use sid_pi.Session.Spec.{Ending, conversation, played_one}
use sid_pi.Session.Spec

-- The loop is where the conversation is, has sent the same answers, and its server shows the view.
abbrev pub Follows : Connection → Ending → Type 0
Follows (Session.reading s sent) (Spec.reading v answers) = Shows s v × (sent ≡ answers)
Follows (Session.closed s sent) (Spec.closed v answers) = Shows s v × (sent ≡ answers)
Follows (Session.ended c sent) (Spec.ended answers) = sent ≡ answers
Follows _ _ = ⊥

-- What `read` delivers is bytes.
abbrev pub DeliversBytes : List Event → Type 0
DeliversBytes [] = Unit {0}
DeliversBytes (bytes bs ∷ es) = AreBytes bs × DeliversBytes es
DeliversBytes (_ ∷ es) = DeliversBytes es

AreBytes-append : (xs ys : List ℕ) → AreBytes xs → AreBytes ys → AreBytes (xs ++ ys)
AreBytes-append [] ys h k = k
AreBytes-append (x ∷ xs) ys h k = (h.0, AreBytes-append xs ys h.1 k)

paused-Shows :
    (t1 t2 : Timeval) (s : Server) (v : View)
    → Shows s v
    → thread_round t1 t2 s.runner ≡ (pause, s.runner)
    → Shows (record s { runner = (thread_round t1 t2 s.runner).1 }) v
paused-Shows t1 t2 s v h e =
    subst (λ r. Shows (record s { runner = r }) v) (sym (ap (λ p. p.1) e)) h

played-Shows :
    (t1 t2 : Timeval) (s : Server) (v : View) (c : Command) (cs : List Command)
    → Shows s v
    → v.queue ≡ c ∷ cs
    → s.runner.is_playback_ready ≢ 0
    → Shows (record s { runner = (thread_round t1 t2 s.runner).1 }) (record v { queue = cs })
played-Shows t1 t2 s v c cs h e on =
    let (f, left, step) =
      thread_round_plays t1 t2 s.runner c cs (subst (Holds s.runner.fifo) e h.holds) on in
    subst (λ r. Shows (record s { runner = r }) (record v { queue = cs }))
      (sym (ap (λ p. p.1) step))
      (record {
        holds = left;
        plays = h.plays;
        clocks = h.clocks;
        clock_fits = h.clock_fits;
        room = h.room;
        read_at = h.read_at;
        input = h.input;
      })

-- A round of the SID thread takes the first command off the view, if playback is on.
thread-Shows :
    (t1 t2 : Timeval) (s : Server) (v : View)
    → Shows s v
    → Shows (record s { runner = (thread_round t1 t2 s.runner).1 }) (played_one v)
thread-Shows t1 t2 s v h = elim (Bool-cases v.playing) [
  | inl e ↦
      subst (λ (b : Bool). Shows after (if b then next else v)) (sym e) (by_queue e v.queue refl)
  | inr e ↦
      subst (λ (b : Bool). Shows after (if b then next else v)) (sym e)
        (paused-Shows t1 t2 s v h (
          thread_round_pauses t1 t2 s.runner v.queue h.holds
            (inl (let p = h.plays in ground arith))))
]
  where
    after : Server
    after = record s { runner = (thread_round t1 t2 s.runner).1 }

    next : View
    next = record v { queue = Spec.behind_first v.queue }

    by_queue :
        v.playing ≡ true
        → (q : List Command) → v.queue ≡ q
        → Shows
            (record s { runner = (thread_round t1 t2 s.runner).1 })
            (record v { queue = Spec.behind_first v.queue })
    by_queue on [] e =
        subst
          (λ q.
            Shows (record s { runner = (thread_round t1 t2 s.runner).1 }) (record v { queue = q }))
          (e ∙ sym (ap Spec.behind_first e))
          (paused-Shows t1 t2 s v h (thread_round_pauses t1 t2 s.runner v.queue h.holds (inr e)))
    by_queue on (c ∷ cs) e =
        subst
          (λ q.
            Shows (record s { runner = (thread_round t1 t2 s.runner).1 }) (record v { queue = q }))
          (sym (ap Spec.behind_first e))
          (played-Shows t1 t2 s v c cs h e (let p = h.plays in ground arith))

-- What `processReadBuffer` makes of the bytes of a `read`.
pub received-Agrees :
    (s : Server) (v : View) (bs : List ℕ)
    → Shows s v
    → AreBytes bs
    → Agrees (receive bs s) (process_read_buffer (length bs) (receive bs s)) (serve bs v)
received-Agrees s v bs h d =
    let shown : Shows (receive bs s) v = record {
      holds = h.holds;
      plays = h.plays;
      clocks = h.clocks;
      clock_fits = h.clock_fits;
      room = h.room;
      read_at = h.read_at;
      input =
          AreBytes-append bs (drop (length bs) s.data_read) d
            (AreBytes-drop (length bs) s.data_read h.input);
    } in
    process_read_buffer_refines (receive bs s) v bs shown
      (record { old = drop (length bs) s.data_read; input = refl })

-- One packet, and then the rest of the loop.
after_packet :
    (es : List Event) (s : Server) (sent answers : List (List ℕ)) (o : Outcome)
    (r : Option Response)
    → Agrees s o r
    → sent ≡ answers
    → ((s' : Server) (v' : View) (sent' answers' : List (List ℕ))
        → Shows s' v'
        → sent' ≡ answers'
        → Follows (connection es s' sent') (conversation es v' answers'))
    → Follows
        (elim o [
          | done s' ↦ connection es s' (sent ++ (Session.to_send s' ∷ []))
          | exited c ↦ Session.ended c sent
        ])
        (elim r [
          | some r ↦ conversation es r.view (answers ++ (r.answer ∷ []))
          | none ↦ Spec.ended answers
        ])
after_packet es s sent answers (done s') (some r) a e rest =
    rest s' r.view _ _ a.shows (ap₂ (λ l x. l ++ (x ∷ [])) e a.replied)
after_packet es s sent answers (done s') none a e rest = absurd a
after_packet es s sent answers (exited c) (some r) a e rest = absurd a
after_packet es s sent answers (exited c) none a e rest = e

-- From a server that shows a view, whatever bytes a client sends and rounds the SID thread makes in
-- between, the loop of `main` follows the conversation: it sends the same answers, in order, ends
-- where the conversation ends, and shows its view.
pub connection-Follows :
    (es : List Event) (s : Server) (v : View) (sent answers : List (List ℕ))
    → DeliversBytes es
    → Shows s v
    → sent ≡ answers
    → Follows (connection es s sent) (conversation es v answers)
unfolding connection
connection-Follows [] s v sent answers d h e = (h, e)
connection-Follows (bytes bs ∷ es) s v sent answers d h e =
    after_packet es (receive bs s) sent answers _ _ (received-Agrees s v bs h d.0) e
      (λ s' v' sent' answers' h' e'. connection-Follows es s' v' sent' answers' d.1 h' e')
connection-Follows (end_of_file ∷ es) s v sent answers d h e =
    connection-Follows es s v sent answers d h e
connection-Follows (read_failed ∷ es) s v sent answers d h e = (h, e)
connection-Follows (thread t1 t2 ∷ es) s v sent answers d h e =
    connection-Follows es _ (played_one v) sent answers d (thread-Shows t1 t2 s v h) e
