-- ===== src/Server/Refine/Playback.antt =====
-- The two requests that go through the queue: TRY_DELAY and TRY_WRITE.
use sid_pi.Base.{
  ℕ, ◌+◌, ◌*◌, ◌%◌, ◌≤◌, ◌<◌, ◌^◌, ◌≡◌, refl, sym, ap, ap₂, ◌∙◌, subst, arith, Bool, true, false,
  not, none, some, List, [], ◌∷◌, ◌++◌, append-nil, length, take, drop, ltb, leb, ◌==◌, ◌&&◌, ◌||◌,
  length-take, length-drop, if◌then◌else◌, AreBytes, AreBytes-get_or, get_or-take, get_or-drop,
  get_or, pos,
}
use sid_pi.Runner.Gates.{can_buffer_accept_lem, is_buffer_half_full_lem, get_buffer_full_lem}
use sid_pi.Runner.{start_playback, get_buffer_full, can_buffer_accept}
use sid_pi.Server.{
  Server, non_zero, waited, byte_at, pair_at, done, put, start_if_half_full, try_delay, try_write,
  handle_delay_packet, handle_write_packet,
}
use sid_pi.Server.Request
use sid_pi.Server.Answer
use sid_pi.Server.Decode.{decode, total_cycles}
use sid_pi.Server.Protocol.{View, Response, wake, advance, respond, need, fits}
use sid_pi.Runner.Delay.{sid_delay}
use sid_pi.Server.Write.{pair_bytes, handle_write_packet_lem}
use sid_pi.Server.Refine.Relation.{Shows, Answered, Agrees, check_length, puts-Answered}

-- `if (isBufferHalfFull()) startPlayback();`
pub start_if_half_full-Shows :
    (s : Server) (v : View) → Shows s v → Shows (start_if_half_full s) (wake v)
unfolding start_if_half_full start_playback
start_if_half_full-Shows s v h =
    rw (is_buffer_half_full_lem s.runner v.queue h.holds) (go (ltb 1024 (length v.queue)))
  where
    go :
        (b : Bool)
        → Shows
            (record s {
              runner = if b then record s.runner { is_playback_ready = 1 } else s.runner;
            })
            (record v { playing = if b then true else v.playing })
    go true = record {
      holds = h.holds;
      plays = refl;
      clocks = h.clocks;
      clock_fits = h.clock_fits;
      room = h.room;
      read_at = h.read_at;
      input = h.input;
    }
    go false = h

-- The handler of a request with `n` data bytes starts here.
pub record Ready (s : Server) (v : View) (n : ℕ) : Type 0 where
  pub shows : Shows s v
  pub start : s.data_write_pos ≡ 0
  pub received : n + 4 ≤ length s.data_read

start-Ready :
    (s : Server) (v : View) (n : ℕ) → Ready s v n → Ready (start_if_half_full s) (wake v) n
unfolding start_if_half_full
start-Ready s v n r = record {
  shows = start_if_half_full-Shows s v r.shows;
  start = r.start;
  received = r.received;
}

effects-start : (s : Server) → (start_if_half_full s).effects ≡ s.effects
unfolding start_if_half_full
effects-start s = refl

data_read-start : (s : Server) → (start_if_half_full s).data_read ≡ s.data_read
unfolding start_if_half_full
data_read-start s = refl

abbrev pub payload : Server → ℕ → List ℕ
payload s n = take n (drop 4 s.data_read)

-- A request that is answered BUSY.
busy-Answered :
    (s s1 : Server) (v : View) (n : ℕ)
    → Ready s1 v n
    → s1.effects ≡ s.effects
    → Answered s (put Answer.busy s1) (record { answer = Answer.busy ∷ []; view = v; effects = [] })
busy-Answered s s1 v n r e =
    puts-Answered s s1 v [] (Answer.busy ∷ []) r.shows (e ∙ sym (append-nil s.effects)) r.start
      (omega arith)

abbrev cycles_in : List ℕ → ℕ
cycles_in p = get_or p 0 0 * 256 + get_or p 1 0

delay_pair : (s : Server) → AreBytes s.data_read → pair_at s 4 ≡ cycles_in (payload s 2)
delay_pair s b =
    let at = λ (k : ℕ) (h : k < 2).
      get_or-take (drop 4 s.data_read) 2 k 0 h ∙ get_or-drop s.data_read 4 k 0 in
    pair_bytes (byte_at s 4) (byte_at s 5) (AreBytes-get_or s.data_read 4 b)
      (AreBytes-get_or s.data_read 5 b)
    ∙ ap₂ (λ h l. h * 256 + l) (sym (at 0 (omega arith))) (sym (at 1 (omega arith)))

-- A TRY_DELAY that is answered OK.
delay_Answered :
    (s s1 : Server) (v : View) (cycles : ℕ)
    → Ready s1 v 2
    → s1.effects ≡ s.effects
    → Answered s (put Answer.ok (handle_delay_packet cycles s1)) (record {
      answer = Answer.ok ∷ [];
      view = record v { clock = (v.clock + cycles) % 2 ^ 32 };
      effects = waited (sid_delay cycles) ∷ [];
    })
unfolding handle_delay_packet
delay_Answered s s1 v cycles r e =
    puts-Answered s (handle_delay_packet cycles s1) _ (waited (sid_delay cycles) ∷ [])
      (Answer.ok ∷ [])
      (record {
        holds = r.shows.holds;
        plays = r.shows.plays;
        clocks = ap (λ c. (c + cycles) % 2 ^ 32) r.shows.clocks;
        clock_fits = omega arith;
        room = r.shows.room;
        read_at = r.shows.read_at;
        input = r.shows.input;
      })
      (ap (λ t. t ++ (waited (sid_delay cycles) ∷ [])) e) r.start (omega arith)

abbrev delay_response : Bool → List ℕ → View → Response
delay_response full p v =
    if full then record { answer = Answer.busy ∷ []; view = v; effects = [] } else record {
      answer = Answer.ok ∷ [];
      view = advance (cycles_in p) v;
      effects = waited (sid_delay (cycles_in p)) ∷ [];
    }

full_test :
    (s : Server) (v : View)
    → Shows s v
    → non_zero (get_buffer_full s.runner) ≡ (length v.queue == 2048)
full_test s v h = rw (get_buffer_full_lem s.runner v.queue h.holds) (ground arith)

delay_branches :
    (s s1 : Server) (v : View) (full : Bool)
    → Ready s1 v 2
    → s1.effects ≡ s.effects
    → Agrees s
        (if full
          then done (put Answer.busy s1)
          else done (put Answer.ok (handle_delay_packet (pair_at s1 4) s1)))
        (some (delay_response full (payload s1 2) v))
delay_branches s s1 v true r e = busy-Answered s s1 v 2 r e
delay_branches s s1 v false r e =
    rw (delay_pair s1 r.shows.input) (delay_Answered s s1 v (cycles_in (payload s1 2)) r e)

delay_body :
    (s s1 : Server) (v : View)
    → Ready s1 v 2
    → s1.effects ≡ s.effects
    → Agrees s
        (if non_zero (get_buffer_full s1.runner)
          then done (put Answer.busy s1)
          else done (put Answer.ok (handle_delay_packet (pair_at s1 4) s1)))
        (some (delay_response (length v.queue == 2048) (payload s1 2) v))
delay_body s s1 v r e =
    rw (full_test s1 v r.shows) (delay_branches s s1 v (length v.queue == 2048) r e)

-- `case TRY_DELAY` answers as the protocol asks.
pub try_delay-Agrees :
    (s : Server) (v : View) (n : ℕ)
    → Ready s v n
    → Agrees s (try_delay n s) (
        if fits (need Request.try_delay) n
        then some (respond Request.try_delay (payload s n) v)
        else none)
unfolding try_delay
try_delay-Agrees s v n r = check_length s (n == 2) _ _ _ λ two.
    let e : n ≡ 2 = ground arith in
    rw e (
      delay_body s (start_if_half_full s) (wake v) (start-Ready s v 2 (subst (Ready s v) e r)) refl)

abbrev write_response : Bool → List ℕ → View → Response
write_response room p v =
    if room
    then record {
      answer = Answer.ok ∷ [];
      view = advance (total_cycles (decode p)) (record v { queue = v.queue ++ decode p });
      effects = [];
    }
    else record { answer = Answer.busy ∷ []; view = v; effects = [] }

-- A TRY_WRITE that is answered OK.
write_Answered :
    (s s1 : Server) (v : View) (n : ℕ)
    → Ready s1 v n
    → s1.effects ≡ s.effects
    → n % 4 ≡ 0
    → 4 * length v.queue + n < 8192
    → Answered s (put Answer.ok (handle_write_packet n s1)) (write_response true (payload s1 n) v)
write_Answered s s1 v n r e whole room =
    let q =
      handle_write_packet_lem s1 n v.queue whole r.received r.shows.input r.shows.holds
        (omega arith) (omega (arith, r.shows.clocks, r.shows.clock_fits)) in
    puts-Answered s (handle_write_packet n s1) _ [] (Answer.ok ∷ [])
      (record {
        holds = q.queue;
        plays = ap (λ t. not (t == 0)) q.playback_kept ∙ r.shows.plays;
        clocks =
            q.clock ∙ ap (λ c. (c + total_cycles (decode (payload s1 n))) % 2 ^ 32) r.shows.clocks;
        clock_fits = omega arith;
        room = ap length q.reply_kept.0 ∙ r.shows.room;
        read_at = q.reply_kept.3 ∙ r.shows.read_at;
        input = subst AreBytes (sym q.reply_kept.4) r.shows.input;
      })
      (q.reply_kept.2 ∙ e ∙ sym (append-nil s.effects)) (q.reply_kept.1 ∙ r.start) (omega arith)

write_branches :
    (s s1 : Server) (v : View) (n : ℕ) (room : Bool)
    → Ready s1 v n
    → s1.effects ≡ s.effects
    → n % 4 ≡ 0
    → ltb (4 * length v.queue + n) 8192 ≡ room
    → Agrees s
        (if not room
          then done (put Answer.busy s1)
          else done (put Answer.ok (handle_write_packet n s1)))
        (some (write_response room (payload s1 n) v))
write_branches s s1 v n true r e whole t = write_Answered s s1 v n r e whole (ground arith)
write_branches s s1 v n false r e whole t = busy-Answered s s1 v n r e

write_body :
    (s s1 : Server) (v : View) (n : ℕ)
    → Ready s1 v n
    → s1.effects ≡ s.effects
    → n % 4 ≡ 0
    → Agrees s
        (if not (can_buffer_accept s1.runner (pos n))
          then done (put Answer.busy s1)
          else done (put Answer.ok (handle_write_packet n s1)))
        (some (write_response (ltb (4 * length v.queue + n) 8192) (payload s1 n) v))
write_body s s1 v n r e whole =
    rw (can_buffer_accept_lem s1.runner v.queue r.shows.holds n)
      (write_branches s s1 v n (ltb (4 * length v.queue + n) 8192) r e whole refl)

length_checks : (n : ℕ) → (ltb n 4 || not (n % 4 == 0)) ≡ not (leb 4 n && (n % 4 == 0))
length_checks n = ground arith

length-payload : (s : Server) (n : ℕ) → n + 4 ≤ length s.data_read → length (payload s n) ≡ n
length-payload s n h = omega (arith, length-take n (drop 4 s.data_read), length-drop 4 s.data_read)

-- `case TRY_WRITE` answers as the protocol asks.
pub try_write-Agrees :
    (s : Server) (v : View) (n : ℕ)
    → Ready s v n
    → Agrees s (try_write n s) (
        if fits (need Request.try_write) n
        then some (respond Request.try_write (payload s n) v)
        else none)
unfolding try_write
try_write-Agrees s v n r =
    rw (length_checks n, length-payload s n r.received)
      (check_length s (leb 4 n && (n % 4 == 0)) _ _ _ λ fit.
        write_body s (start_if_half_full s) (wake v) n (start-Ready s v n r) refl (ground arith))
