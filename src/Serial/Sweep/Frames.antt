-- ===== src/Serial/Sweep/Frames.antt =====
-- What the shift register takes in of the test program.
use native.Mathlib.Nat.{zero-add, suc-add, add-zero, add-suc}
use sid_pi.Base.{
  ℕ, zero, suc, ◌+◌, ◌-◌, ◌*◌, ◌/◌, ◌%◌, ◌≤◌, ◌<◌, ◌≡◌, refl, subst, sym, ap, ap₂, ◌∙◌, arith, List,
  [], ◌∷◌, ◌++◌, append-nil, append_assoc, bit_and, ◌>>>◌, length, length-append, take, drop,
  take-append, take-length,
}
use sid_pi.Pins.{Gpio, Drives}
use sid_pi.Serial.{Line, write_bit, write_bits, write_sid}
use sid_pi.Serial.Bits.{frame, shifted, shifted-frame, taken-write_sid}
use sid_pi.Serial.Sweep.{write_values, write_registers, main}

-- so many frames, from the number `k` on
abbrev pub stream : (ℕ → List ℕ) → ℕ → ℕ → List ℕ
stream f k zero = []
stream f k (suc n) = f k ++ stream f (suc k) n

stream-append :
    (f : ℕ → List ℕ) (k m n : ℕ) → stream f k (m + n) ≡ stream f k m ++ stream f (k + m) n
stream-append f k zero n = rw (zero-add, add-zero) refl
stream-append f k (suc m) n =
    rw (suc-add, add-suc)
      (ap (λ t. f k ++ t) (stream-append f (suc k) m n ∙ rw suc-add refl)
        ∙ sym (append_assoc (f k) (stream f (suc k) m) (stream f (suc (k + m)) n)))

drop-append : (a b : List ℕ) (n : ℕ) → drop (length a + n) (a ++ b) ≡ drop n b
drop-append [] b n = rw zero-add refl
drop-append (x ∷ a) b n = rw suc-add (drop-append a b n)

-- the frame behind so many others
take-drop-stream :
    (f : ℕ → List ℕ) (h : (k : ℕ) → length (f k) ≡ 16) (k i n : ℕ)
    → i < n
    → take 16 (drop (16 * i) (stream f k n)) ≡ f (k + i)
take-drop-stream f h k i zero l = absurd (omega arith)
take-drop-stream f h k zero (suc n) l =
    take-append 16 (f k) (stream f (suc k) n) (omega (arith, h k))
    ∙ ap (λ t. take t (f k)) (sym (h k))
    ∙ take-length (f k)
    ∙ ap f (let e : k ≡ k + 0 = omega arith in e)
take-drop-stream f h k (suc i) (suc n) l =
    ap (λ t. take 16 (drop t (f k ++ stream f (suc k) n)))
      (let e : 16 * suc i ≡ length (f k) + 16 * i = omega (arith, h k) in e)
    ∙ ap (take 16) (drop-append (f k) (stream f (suc k) n) (16 * i))
    ∙ take-drop-stream f h (suc k) i n (omega arith)
    ∙ ap f (let e : suc k + i ≡ k + suc i = omega arith in e)

length-stream :
    (f : ℕ → List ℕ) (h : (k : ℕ) → length (f k) ≡ 16) (k n : ℕ) → length (stream f k n) ≡ 16 * n
length-stream f h k zero = omega arith
length-stream f h k (suc n) =
    length-append (f k) (stream f (suc k) n)
    ∙ (let e = length-stream f h (suc k) n in omega (arith, e, h k))

-- The frame with the number `k`.
abbrev pub swept : ℕ → ℕ → List ℕ
swept reset k = frame (31 - k / 256) (k % 256) reset

module _ {G : Type 0} (io : Gpio G) (law : Drives io) where
  reset-write_bits : (n x : ℕ) (s : Line G) → (write_bits io law n x s).reset ≡ s.reset
  unfolding write_bits write_bit
  reset-write_bits zero x s = refl
  reset-write_bits (suc i) x s = reset-write_bits i x (write_bit io law (bit_and (x >>> i) 1) s)

  reset-write_sid : (addr byte : ℕ) (s : Line G) → (write_sid io law addr byte s).reset ≡ s.reset
  unfolding write_sid write_bit
  reset-write_sid addr byte s = reset-write_bits 5 _ _ ∙ reset-write_bits 8 _ s

  -- `reset`, and the frames that have been taken in
  record Took (s s' : Line G) (k n : ℕ) : Type 0 where
    bits : s'.taken ≡ s.taken ++ stream (swept s.reset) k n
    same : s'.reset ≡ s.reset

  both : {s t u : Line G} (k m n : ℕ) → Took s t k m → Took t u (k + m) n → Took s u k (m + n)
  both {s} {t} {u} k m n p q = record {
    bits =
        q.bits
        ∙ ap₂ (λ a r. a ++ stream (swept r) (k + m) n) p.bits p.same
        ∙ append_assoc s.taken (stream (swept s.reset) k m) (stream (swept s.reset) (k + m) n)
        ∙ ap (λ t. s.taken ++ t) (sym (stream-append (swept s.reset) k m n));
    same = q.same ∙ p.same;
  }

  write_one-Took :
      (i j : ℕ) (s : Line G)
      → i < 32
      → j < 256
      → s.reset ≤ 1
      → Took s (write_sid io law i j s) (256 * (31 - i) + j) 1
  write_one-Took i j s h l r = record {
    bits =
        taken-write_sid io law i j s r
        ∙ ap₂ (λ a b. s.taken ++ frame a b s.reset)
            (let e : i % 32 ≡ 31 - (256 * (31 - i) + j) / 256 = omega arith in e)
            (let e : j % 256 ≡ (256 * (31 - i) + j) % 256 = omega arith in e)
        ∙ ap (λ t. s.taken ++ t) (sym (append-nil (swept s.reset (256 * (31 - i) + j))));
    same = reset-write_sid i j s;
  }

  write_values-Took :
      (rounds i j : ℕ) (s : Line G)
      → i < 32
      → j + rounds ≤ 256
      → s.reset ≤ 1
      → Took s (write_values io law rounds i j s) (256 * (31 - i) + j) rounds
  unfolding write_values
  write_values-Took zero i j s h l r = record { bits = sym (append-nil s.taken); same = refl }
  write_values-Took (suc n) i j s h l r =
      let k = 256 * (31 - i) + j in
      let one = write_one-Took i j s h (omega arith) r in
      let t = write_sid io law i j s in
      let rest = write_values-Took n i (j + 1) t h (omega arith) (omega (arith, one.same)) in
      let at : 256 * (31 - i) + (j + 1) ≡ k + 1 = omega arith in
      let many : 1 + n ≡ suc n = omega arith in
      let u = write_values io law n i (j + 1) t in
      subst (Took s u k) many (both k 1 n one (subst (λ a. Took t u a n) at rest))

  write_registers-Took :
      (n : ℕ) (s : Line G)
      → n ≤ 32
      → s.reset ≤ 1
      → Took s (write_registers io law n s) (256 * (32 - n)) (256 * n)
  unfolding write_registers
  write_registers-Took zero s h r = record { bits = sym (append-nil s.taken); same = refl }
  write_registers-Took (suc i) s h r =
      let t = write_values io law 256 i 0 s in
      let k = 256 * (32 - suc i) in
      let first : Took s t k 256 =
        subst (λ a. Took s t a 256) (omega arith)
          (write_values-Took 256 i 0 s (omega arith) (omega arith) r) in
      let rest = write_registers-Took i t (omega arith) (omega (arith, first.same)) in
      let at : 256 * (32 - i) ≡ k + 256 = omega arith in
      let many : 256 + 256 * i ≡ 256 * suc i = omega arith in
      let u = write_registers io law i t in
      subst (Took s u k) many
        (both k 256 (256 * i) first (subst (λ a. Took t u a (256 * i)) at rest))

  -- The test program writes every value to every register once: if `reset` is a bit, the shift register takes in 8192
  -- frames of sixteen bits, of which the one with the number `k` holds the value `k % 256` for the register
  -- `31 - k / 256`.
  pub main_lem :
      (s : Line G) (k : ℕ)
      → s.reset ≤ 1
      → k < 8192
      → (length (main io law s).taken ≡ length s.taken + 16 * 8192)
        × (shifted 0 (take 16 (drop (length s.taken + 16 * k) (main io law s).taken))
            ≡ k % 256 * 256 + s.reset * 32 + (31 - k / 256))
  unfolding main
  main_lem s k r h =
      let took = write_registers-Took 32 s (omega arith) r in
      (
        ap length took.bits
            ∙ length-append s.taken (stream (swept s.reset) 0 8192)
            ∙ ap (λ t. length s.taken + t) (length-stream (swept s.reset) (λ n. refl) 0 8192),
        ap (λ t. shifted 0 (take 16 (drop (length s.taken + 16 * k) t))) took.bits
            ∙ ap (λ t. shifted 0 (take 16 t))
                (drop-append s.taken (stream (swept s.reset) 0 8192) (16 * k))
            ∙ ap (shifted 0) (
                take-drop-stream (swept s.reset) (λ n. refl) 0 k 8192 h
                ∙ ap (swept s.reset) (zero-add k))
            ∙ shifted-frame (31 - k / 256) (k % 256) s.reset (omega arith) (omega arith),
      )
