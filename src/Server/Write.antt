-- ===== src/Server/Write.antt =====
-- `handleWritePacket`: every command of the packet goes to the queue, in order.
use native.Mathlib.Nat.{add-zero, mod-eq_of_lt, mod-add-mod}
use sid_pi.Base.{
  ℕ, zero, suc, ◌+◌, ◌*◌, ◌/◌, ◌%◌, ◌^◌, ◌≤◌, ◌<◌, ◌≡◌, refl, sym, ap, ◌∙◌, subst, arith, List, [],
  ◌∷◌, ◌++◌, append-nil, append_assoc, length, take, drop, get_or, get_or-drop, drop-drop, AreBytes,
  AreBytes-drop, length-drop, length-append, bit_and, bit_or, add32, ◌<<<◌,
}
use sid_pi.Bits.Fields.{bit_or_field, bit_and_mask}
use sid_pi.Runner.{sid_write}
use sid_pi.Runner.Commands.{Command, command, Holds}
use sid_pi.Runner.Queue.{sid_write_room}
use sid_pi.Server.{Server, byte_at, write_one, write_from, handle_write_packet}
use sid_pi.Server.Decode.{decode, total_cycles}

-- two bytes, high first
pub pair_bytes :
    (high low : ℕ)
    → high < 256
    → low < 256
    → bit_or (bit_and high 0xff <<< 8) low ≡ high * 256 + low
pair_bytes high low h l =
    ap (λ t. bit_or (t <<< 8) low) (bit_and_mask 8 high ∙ mod-eq_of_lt h)
    ∙ bit_or_field 8 high low l

-- The bytes of the packet from `n` on, read one at a time.
module _ (s : Server) (n : ℕ) {p : List ℕ} (at : drop n s.data_read ≡ p) where
  byte_of : (k : ℕ) → byte_at s (n + k) ≡ get_or p k 0
  byte_of k = sym (get_or-drop s.data_read n k 0) ∙ ap (λ t. get_or t k 0) at

-- One round of the loop.
module _ (s : Server) (i h l r v : ℕ) {rest : List ℕ}
    (at : drop (4 + i) s.data_read ≡ h ∷ l ∷ r ∷ v ∷ rest) where
  write_one_lem :
      AreBytes (h ∷ l ∷ r ∷ v ∷ [])
      → write_one i s ≡ record s {
        input_clock = add32 s.input_clock (h * 256 + l);
        runner = sid_write s.runner (r % 32) v h l;
      }
  unfolding write_one
  write_one_lem b =
      let e0 : byte_at s (4 + i) ≡ h =
        ap (byte_at s) (sym (add-zero (4 + i))) ∙ byte_of s (4 + i) at 0 in
      let five : 5 + i ≡ 4 + i + 1 = omega arith in
      rw (
        five,
        byte_of s (4 + i) at 1,
        byte_of s (4 + i) at 2,
        byte_of s (4 + i) at 3,
        e0,
        pair_bytes h l b.0 b.1.0,
        bit_and_mask 5 r,
      )

-- What the loop has done with the commands `ds`, started at `s` with the queue `cs`.
pub record Queued (s s' : Server) (cs ds : List Command) : Type 0 where
  pub queue : Holds s'.runner.fifo (cs ++ ds)
  pub clock : s'.input_clock ≡ (s.input_clock + total_cycles ds) % 2 ^ 32
  pub playback_kept : s'.runner.is_playback_ready ≡ s.runner.is_playback_ready
  pub played_clock_kept : s'.runner.current_clock ≡ s.runner.current_clock
  pub reply_kept :
      (s'.data_write ≡ s.data_write)
      × (s'.data_write_pos ≡ s.data_write_pos)
      × (s'.effects ≡ s.effects)
      × (s'.data_read_pos ≡ s.data_read_pos)
      × (s'.data_read ≡ s.data_read)

-- The server after one round of the loop has read these four bytes.
abbrev after_one : Server → ℕ → ℕ → ℕ → ℕ → Server
after_one s h l r v = record s {
  input_clock = add32 s.input_clock (h * 256 + l);
  runner = sid_write s.runner (r % 32) v h l;
}

abbrev decoded : ℕ → ℕ → ℕ → ℕ → Command
decoded h l r v = record { reg = r % 32; value = v; cycle_high = h; cycle_low = l }

command_of_bytes :
    (h l r v : ℕ) → AreBytes (h ∷ l ∷ r ∷ v ∷ []) → command (r % 32) v h l ≡ decoded h l r v
command_of_bytes h l r v b =
    ground (arith, mod-eq_of_lt b.0, mod-eq_of_lt b.1.0, mod-eq_of_lt b.1.1.1.0)

Holds-after_one :
    (s : Server) (h l r v : ℕ) (cs : List Command)
    → AreBytes (h ∷ l ∷ r ∷ v ∷ [])
    → Holds s.runner.fifo cs
    → length cs < 2048
    → Holds (after_one s h l r v).runner.fifo (cs ++ (decoded h l r v ∷ []))
Holds-after_one s h l r v cs b q room =
    rw (← command_of_bytes h l r v b) (sid_write_room s.runner cs (r % 32) v h l q room)

Queued-cons :
    (s s' : Server) (h l r v : ℕ) (cs ds : List Command)
    → Queued (after_one s h l r v) s' (cs ++ (decoded h l r v ∷ [])) ds
    → Queued s s' cs (decoded h l r v ∷ ds)
unfolding sid_write
Queued-cons s s' h l r v cs ds q = record {
  queue = subst (Holds s'.runner.fifo) (append_assoc cs (decoded h l r v ∷ []) ds) q.queue;
  clock =
      q.clock
      ∙ mod-add-mod (s.input_clock + (h * 256 + l)) (2 ^ 32) (total_cycles ds)
      ∙ ap (λ t. t % 2 ^ 32) (omega arith);
  playback_kept = q.playback_kept;
  played_clock_kept = q.played_clock_kept;
  reply_kept = q.reply_kept;
}

-- A packet of whole commands for which there is room is queued, every command of it, in order.
write_from_lem :
    (rounds i : ℕ) (s : Server) (p : List ℕ) (cs : List Command)
    → drop (4 + i) s.data_read ≡ p
    → AreBytes p
    → 4 * rounds ≤ length p
    → Holds s.runner.fifo cs
    → length cs + rounds ≤ 2048
    → s.input_clock < 2 ^ 32
    → Queued s (write_from rounds i s) cs (decode (take (4 * rounds) p))
unfolding write_from
write_from_lem zero i s p cs at b len q room clock = record {
  queue = rw append-nil q;
  clock = omega arith;
  playback_kept = refl;
  played_clock_kept = refl;
  reply_kept = (refl, refl, refl, refl, refl);
}
write_from_lem (suc n) i s [] cs at b len q room clock = absurd (omega arith)
write_from_lem (suc n) i s (h ∷ []) cs at b len q room clock = absurd (omega arith)
write_from_lem (suc n) i s (h ∷ l ∷ []) cs at b len q room clock = absurd (omega arith)
write_from_lem (suc n) i s (h ∷ l ∷ r ∷ []) cs at b len q room clock = absurd (omega arith)
write_from_lem (suc n) i s (h ∷ l ∷ r ∷ v ∷ rest) cs at b len q room clock =
    let four : 4 * suc n ≡ suc (suc (suc (suc (4 * n)))) = omega arith in
    let b4 : AreBytes (h ∷ l ∷ r ∷ v ∷ []) = (b.0, (b.1.0, (b.1.1.0, (b.1.1.1.0, tt)))) in
    let next : 4 + (i + 4) ≡ 4 + i + 4 = omega arith in
    let at' : drop (4 + (i + 4)) s.data_read ≡ rest =
      ap (λ t. drop t s.data_read) next ∙ sym (drop-drop s.data_read (4 + i) 4) ∙ ap (drop 4) at in
    rw (four, write_one_lem s i h l r v at b4)
      (Queued-cons s _ h l r v cs (decode (take (4 * n) rest)) (
        write_from_lem n (i + 4) (after_one s h l r v) rest (cs ++ (decoded h l r v ∷ [])) at'
          b.1.1.1.1 (omega arith) (Holds-after_one s h l r v cs b4 q (omega arith))
          (omega (arith, length-append cs (decoded h l r v ∷ []))) (omega arith)))

-- `handleWritePacket` with `n` data bytes received, a multiple of four, and room for them in the
-- FIFO: the commands that the data decode to go behind those queued, in order and whole, the input
-- clock advances by their cycles, and the reply and the playback flag are as before.
pub handle_write_packet_lem :
    (s : Server) (n : ℕ) (cs : List Command)
    → n % 4 ≡ 0
    → n + 4 ≤ length s.data_read
    → AreBytes s.data_read
    → Holds s.runner.fifo cs
    → 4 * length cs + n ≤ 8192
    → s.input_clock < 2 ^ 32
    → Queued s (handle_write_packet n s) cs (decode (take n (drop 4 s.data_read)))
unfolding handle_write_packet
handle_write_packet_lem s n cs whole len b q room clock =
    let rounds : n ≡ 4 * ((n + 3) / 4) = omega arith in
    subst (λ t. Queued s (handle_write_packet n s) cs (decode (take t (drop 4 s.data_read))))
      (sym rounds)
      (write_from_lem ((n + 3) / 4) 0 s (drop 4 s.data_read) cs refl (AreBytes-drop 4 s.data_read b)
        (omega (arith, length-drop 4 s.data_read)) q (omega arith) clock)
