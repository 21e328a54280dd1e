-- ===== src/Runner/Queue.antt =====
-- The FIFO of the SID thread as a queue of whole commands: what `sidWrite` and one round of
-- `sidThread` do to it.
use sid_pi.Base.{
  ℕ, ◌+◌, ◌-◌, ◌*◌, ◌^◌, ◌≤◌, ◌<◌, ◌≡◌, ◌≢◌, sym, ap₂, ◌∙◌, arith, List, [], ◌∷◌, ◌++◌,
  append_assoc, length, length-append, pos, if◌then◌else◌, ◌↔◌, true, Bool-cases, inl, inr, u8, u32,
  add32, bit_or, subst, to_word, ltb, ◌<<<◌, ◌⊎◌,
}
use native.Mathlib.Nat.{mod-eq_of_lt}
use sid_pi.Bits.Fields.{bit_or_field}
use sid_pi.Fifo.{Fifo, read_fifo, write_fifo, fifo_count_of}
use sid_pi.Fifo.Ends.{Has, write_room, write_full, read_some}
use sid_pi.Runner.Commands.{
  Command, cycles_of, encode, Holds, length-encode, encode-append, AllBytes-append, Holds-count,
  Holds-bound, command, command-IsBytes,
}
use sid_pi.Runner.{
  Runner, play, pause, Timeval, elapsed, buffer_size, sid_write, thread_round, can_play,
  play_command,
}

snoc4 :
    (q : List ℕ) (a b c d : ℕ)
    → (((q ++ (a ∷ [])) ++ (b ∷ [])) ++ (c ∷ [])) ++ (d ∷ []) ≡ q ++ (a ∷ b ∷ c ∷ d ∷ [])
snoc4 q a b c d = simp append_assoc

length-snoc : (q : List ℕ) (x : ℕ) → length (q ++ (x ∷ [])) ≡ length q + 1
length-snoc q x = length-append q (x ∷ [])

-- Four writes with room for four.
write_four :
    {f : Fifo} (cap : ℕ) (q : List ℕ) (a b c d : ℕ)
    → Has f cap q
    → length q + 4 ≤ cap
    → Has
        (write_fifo (write_fifo (write_fifo (write_fifo f a).1 b).1 c).1 d).1
        cap
        (q ++ (u8 a ∷ u8 b ∷ u8 c ∷ u8 d ∷ []))
write_four {f} cap q a b c d h room =
    let q1 = q ++ (u8 a ∷ []) in
    let q2 = q1 ++ (u8 b ∷ []) in
    let q3 = q2 ++ (u8 c ∷ []) in
    let l1 = length-snoc q (u8 a) in
    let l2 = length-snoc q1 (u8 b) in
    let l3 = length-snoc q2 (u8 c) in
    let h1 = write_room cap q a h (omega arith) in
    let h2 = write_room cap q1 b h1 (omega arith) in
    let h3 = write_room cap q2 c h2 (omega arith) in
    subst (Has _ cap) (snoc4 q (u8 a) (u8 b) (u8 c) (u8 d)) (write_room cap q3 d h3 (omega arith))

-- `sidWrite` to a FIFO that holds less than 2048 commands puts the whole command at the end, each of
-- its four arguments cut to a byte.
pub sid_write_room :
    (r : Runner) (cs : List Command) (a b c d : ℕ)
    → Holds r.fifo cs
    → length cs < 2048
    → Holds (sid_write r a b c d).fifo (cs ++ (command a b c d ∷ []))
unfolding sid_write
sid_write_room r cs a b c d h room = record {
  has =
      subst (Has _ buffer_size) (sym (encode-append cs (command a b c d ∷ [])))
        (write_four buffer_size (encode cs) a b c d h.has (omega (arith, length-encode cs)));
  byte_sized = AllBytes-append cs (command a b c d ∷ []) h.byte_sized (command-IsBytes a b c d, tt);
}

-- `sidWrite` to a FIFO that holds 2048 commands drops the whole command: no part of it is written.
pub sid_write_full :
    (r : Runner) (cs : List Command) (a b c d : ℕ)
    → Holds r.fifo cs
    → length cs ≡ 2048
    → sid_write r a b c d ≡ r
unfolding sid_write
sid_write_full r cs a b c d h full =
    let len : length (encode cs) ≡ buffer_size = length-encode cs ∙ omega arith in
    let same = λ (byte : ℕ). write_full buffer_size (encode cs) byte h.has len in
    rw (same a, same b, same c, same d)

-- The cycle count that `sidThread` puts together from two bytes.
cycles_word :
    (high low : ℕ)
    → high < 256
    → low < 256
    → bit_or (u32 (to_word (pos high) <<< 8)) (to_word (pos low)) ≡ high * 256 + low
cycles_word high low h l =
    let e1 : u32 (to_word (pos high) <<< 8) ≡ high * 2 ^ 8 = omega arith in
    let e2 : to_word (pos low) ≡ low = omega arith in ap₂ bit_or e1 e2 ∙ bit_or_field 8 high low l

-- Four reads of a FIFO that holds a command give its bytes and leave the others.
record Popped (f : Fifo) (c : Command) (cs : List Command) : Type 0 where
  reg_read : (read_fifo f).0 ≡ pos c.reg
  value_read : (read_fifo (read_fifo f).1).0 ≡ pos c.value
  high_read : (read_fifo (read_fifo (read_fifo f).1).1).0 ≡ pos c.cycle_high
  low_read : (read_fifo (read_fifo (read_fifo (read_fifo f).1).1).1).0 ≡ pos c.cycle_low
  rest : Has (read_fifo (read_fifo (read_fifo (read_fifo f).1).1).1).1 buffer_size (encode cs)

pop_command :
    {f : Fifo} (c : Command) (cs : List Command)
    → Has f buffer_size (encode (c ∷ cs))
    → Popped f c cs
pop_command {f} c cs h =
    let (e1, h1) = read_some buffer_size c.reg _ h in
    let (e2, h2) = read_some buffer_size c.value _ h1 in
    let (e3, h3) = read_some buffer_size c.cycle_high _ h2 in
    let (e4, h4) = read_some buffer_size c.cycle_low _ h3 in
    record { reg_read = e1; value_read = e2; high_read = e3; low_read = e4; rest = h4 }

-- `usleep(cycles - elaps)` if `cycles > elaps`
abbrev pub wait : ℕ → ℕ → ℕ
wait cycles elaps = if ltb elaps cycles then cycles - elaps else 0

pub can_play_iff :
    (r : Runner) (cs : List Command)
    → Holds r.fifo cs
    → (can_play r ≡ true) ↔ ((0 < length cs) × (r.is_playback_ready ≢ 0))
unfolding can_play fifo_count_of
can_play_iff r cs h =
    let n = Holds-count cs h in let m = Holds-bound cs h in (λ e. ground arith, λ p. ground arith)

-- The runner after a command of `cycles` has gone out, its FIFO left as `f`.
abbrev pub advanced : Runner → Fifo → ℕ → Runner
advanced r f cycles = record r {
  fifo = f;
  current_clock = add32 r.current_clock cycles;
  target_cycles = add32 r.target_cycles cycles;
}

-- With playback on and a command queued, a round of `sidThread` takes the oldest command whole,
-- leaves the others, advances the clocks by its cycles, waits what is left of them and plays it.
pub thread_round_plays :
    (t1 t2 : Timeval) (r : Runner) (c : Command) (cs : List Command)
    → Holds r.fifo (c ∷ cs)
    → r.is_playback_ready ≢ 0
    → (f : Fifo) × Holds f cs
      × (thread_round t1 t2 r
          ≡ (play (wait (cycles_of c) (elapsed t1 t2)) c.reg c.value, advanced r f (cycles_of c)))
unfolding thread_round play_command
thread_round_plays t1 t2 r c cs h on =
    let p = pop_command c cs h.has in
    let b = h.byte_sized.0 in
    (
      _,
      record { has = p.rest; byte_sized = h.byte_sized.1 },
      rw (
        (can_play_iff r (c ∷ cs) h).1 (omega arith, on),
        p.reg_read,
        p.value_read,
        p.high_read,
        p.low_read,
        cycles_word c.cycle_high c.cycle_low b.high_byte b.low_byte,
        mod-eq_of_lt b.reg_byte,
        mod-eq_of_lt b.value_byte,
      ),
    )

-- With playback off or nothing queued, a round of `sidThread` only pauses.
pub thread_round_pauses :
    (t1 t2 : Timeval) (r : Runner) (cs : List Command)
    → Holds r.fifo cs
    → (r.is_playback_ready ≡ 0) ⊎ (cs ≡ [])
    → thread_round t1 t2 r ≡ (pause, r)
unfolding thread_round
thread_round_pauses t1 t2 r cs h idle = elim (Bool-cases (can_play r)) [
  | inl e ↦ let q = (can_play_iff r cs h).0 e in absurd (ground arith)
  | inr e ↦ rw e
]
