-- ===== src/Server/Refine/Relation.antt =====
-- When a server shows a view, and when the outcome of a handler agrees with a response.
use sid_pi.Base.{
  AreBytes, ℕ, ◌≤◌, ◌<◌, ◌^◌, ◌≡◌, refl, sym, ap, ◌∙◌, subst, arith, Bool, true, false, not, Option,
  none, some, List, ◌++◌, length, take, ◌==◌, if◌then◌else◌,
}
use sid_pi.Runner.Commands.{Holds}
use sid_pi.Server.{Server, Effect, Complaint, Outcome, done, exited}
use sid_pi.Server.Protocol.{View, Response}
use sid_pi.Server.Reply.{reply, puts, reply-puts, puts-SameState}

-- `DATA_WRITE_SIZE`
abbrev pub data_write_size : ℕ
data_write_size = 260

abbrev pub is_playing : Server → Bool
is_playing s = not (s.runner.is_playback_ready == 0)

pub record Shows (s : Server) (v : View) : Type 0 where
  pub holds : Holds s.runner.fifo v.queue
  pub plays : is_playing s ≡ v.playing
  pub clocks : s.input_clock ≡ v.clock
  pub clock_fits : v.clock < 2 ^ 32
  pub room : length s.data_write ≡ data_write_size
  pub read_at : s.data_read_pos ≡ 0
  pub input : AreBytes s.data_read

-- `s'` has answered `r`, having started from the effects of `s`.
pub record Answered (s s' : Server) (r : Response) : Type 0 where
  pub shows : Shows s' r.view
  pub replied : reply s' ≡ r.answer
  pub effected : s'.effects ≡ s.effects ++ r.effects

abbrev pub Agrees : Server → Outcome → Option Response → Type 0
Agrees s (done s') (some r) = Answered s s' r
Agrees s (done s') none = ⊥
Agrees s (exited c) (some r) = ⊥
Agrees s (exited c) none = Unit {0}

-- A case that checks the length of the data first.
pub check_length :
    (s : Server) (fit : Bool) (c : Complaint) (o : Outcome) (r : Response)
    → (fit ≡ true → Agrees s o (some r))
    → Agrees s (if not fit then exited c else o) (if fit then some r else none)
check_length s true c o r h = h refl
check_length s false c o r h = tt

-- A handler that has reached `s'` with nothing answered yet, and then answers `bs`.
pub puts-Answered :
    (s s' : Server) (v : View) (fx : List Effect) (bs : List ℕ)
    → Shows s' v
    → s'.effects ≡ s.effects ++ fx
    → s'.data_write_pos ≡ 0
    → length bs ≤ data_write_size
    → Answered s (puts bs s') (record { answer = bs; view = v; effects = fx })
puts-Answered s s' v fx bs h e start fit =
    let k = puts-SameState bs s' in
    record {
      shows = record {
        holds = subst (λ r. Holds r.fifo v.queue) (sym k.same_runner) h.holds;
        plays = ap (λ r. not (r.is_playback_ready == 0)) k.same_runner ∙ h.plays;
        clocks = k.same_clock ∙ h.clocks;
        clock_fits = h.clock_fits;
        room = k.same_room ∙ h.room;
        read_at = k.same_read_pos ∙ h.read_at;
        input = subst AreBytes (sym k.same_input) h.input;
      };
      replied =
          reply-puts bs s' (omega (arith, h.room)) ∙ ap (λ n. take n s'.data_write ++ bs) start;
      effected = k.same_effects ∙ e;
    }
