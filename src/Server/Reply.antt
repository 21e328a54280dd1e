-- ===== src/Server/Reply.antt =====
-- The reply under construction: the first `dataWritePos` bytes of `dataWrite`.
use native.Mathlib.Numerals.{add-one}
use sid_pi.Base.{
  ℕ, ◌+◌, ◌≤◌, ◌<◌, ◌≡◌, refl, sym, ap, ◌∙◌, arith, List, [], ◌∷◌, ◌++◌, append-nil, append_assoc,
  length, take, length-set, take-set_snoc,
}
use sid_pi.Server.{Server, put}

abbrev pub reply : Server → List ℕ
reply s = take s.data_write_pos s.data_write

-- bytes put one after the other
abbrev pub puts : List ℕ → Server → Server
puts [] s = s
puts (b ∷ bs) s = puts bs (put b s)

-- All but the reply is as before.
pub record SameState (s s' : Server) : Type 0 where
  pub same_input : s'.data_read ≡ s.data_read
  pub same_read_pos : s'.data_read_pos ≡ s.data_read_pos
  pub same_clock : s'.input_clock ≡ s.input_clock
  pub same_effects : s'.effects ≡ s.effects
  pub same_runner : s'.runner ≡ s.runner
  pub same_room : length s'.data_write ≡ length s.data_write

reply-put :
    (b : ℕ) (s : Server)
    → s.data_write_pos < length s.data_write
    → reply (put b s) ≡ reply s ++ (b ∷ [])
unfolding put
reply-put b s h = rw add-one (take-set_snoc s.data_write s.data_write_pos b h)

length-put : (b : ℕ) (s : Server) → length (put b s).data_write ≡ length s.data_write
unfolding put
length-put b s = length-set s.data_write s.data_write_pos b

pos-put : (b : ℕ) (s : Server) → (put b s).data_write_pos ≡ s.data_write_pos + 1
unfolding put
pos-put b s = refl

pub reply-puts :
    (bs : List ℕ) (s : Server)
    → s.data_write_pos + length bs ≤ length s.data_write
    → reply (puts bs s) ≡ reply s ++ bs
reply-puts [] s h = sym (append-nil (reply s))
reply-puts (b ∷ bs) s h =
    reply-puts bs (put b s) (omega (arith, pos-put b s, length-put b s))
    ∙ ap (λ t. t ++ bs) (reply-put b s (omega arith))
    ∙ append_assoc (reply s) (b ∷ []) bs

pub puts-SameState : (bs : List ℕ) (s : Server) → SameState s (puts bs s)
unfolding put
puts-SameState [] s = record {
  same_input = refl;
  same_read_pos = refl;
  same_clock = refl;
  same_effects = refl;
  same_runner = refl;
  same_room = refl;
}
puts-SameState (b ∷ bs) s =
    let k = puts-SameState bs (put b s) in
    record {
      same_input = k.same_input;
      same_read_pos = k.same_read_pos;
      same_clock = k.same_clock;
      same_effects = k.same_effects;
      same_runner = k.same_runner;
      same_room = k.same_room ∙ length-set s.data_write s.data_write_pos b;
    }
