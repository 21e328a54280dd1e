-- ===== src/Serial/Bits.antt =====
-- The bits that the shift register takes in for a command.
use sid_pi.Base.{
  ℕ, zero, suc, ◌+◌, ◌*◌, ◌%◌, ◌≤◌, ◌<◌, ◌≡◌, refl, sym, ap, ap₂, ◌∙◌, arith, List, [], ◌∷◌, ◌++◌,
  append-nil, append_assoc, length, bit_and, ◌>>>◌, ◌<<<◌,
}
use sid_pi.Bits.Digits.{bit, bit_le_one}
use sid_pi.Bits.Fields.{bit_and_mask}
use sid_pi.Bits.Masks.{bit_quotient}
use sid_pi.Pins.{Gpio, Drives}
use sid_pi.Serial.{Line, ser, write_bit, write_bits, write_sid, bit_out}

-- the low `n` bits, the highest first
abbrev pub bits_down : ℕ → ℕ → List ℕ
bits_down zero x = []
bits_down (suc i) x = bit i x ∷ bits_down i x

-- the sixteen bits of a command
abbrev pub frame : ℕ → ℕ → ℕ → List ℕ
frame addr byte reset = bits_down 8 byte ++ (0 ∷ 0 ∷ reset ∷ bits_down 5 addr)

-- What a shift register that takes in these bits holds, starting from `held`.
abbrev pub shifted : ℕ → List ℕ → ℕ
shifted held [] = held
shifted held (b ∷ bs) = shifted (held * 2 + b) bs

shifted-byte :
    (held x : ℕ) (r : List ℕ)
    → x < 256
    → shifted held (bits_down 8 x ++ r) ≡ shifted (held * 256 + x) r
shifted-byte held x r h = ap (λ t. shifted t r) (omega arith)

shifted-five : (held x : ℕ) → x < 32 → shifted held (bits_down 5 x) ≡ held * 32 + x
shifted-five held x h = omega arith

pub shifted-frame :
    (addr byte reset : ℕ)
    → addr < 32
    → byte < 256
    → shifted 0 (frame addr byte reset) ≡ byte * 256 + reset * 32 + addr
shifted-frame addr byte reset h l =
    shifted-byte 0 byte (0 ∷ 0 ∷ reset ∷ bits_down 5 addr) l
    ∙ shifted-five ((((0 * 256 + byte) * 2 + 0) * 2 + 0) * 2 + reset) addr h
    ∙ omega arith

module _ {G : Type 0} (io : Gpio G) (law : Drives io) where
  out_level : (b : ℕ) (g : G) → b ≤ 1 → law.level (bit_out io law b g) ser ≡ b
  out_level zero g h = law.clear_law (1 <<< ser) _ ser (omega arith)
  out_level (suc zero) g h = law.set_law (1 <<< ser) _ ser (omega arith)
  out_level (suc (suc b)) g h = absurd (omega arith)

  taken-write_bit :
      (b : ℕ) (s : Line G) → b ≤ 1 → (write_bit io law b s).taken ≡ s.taken ++ (b ∷ [])
  unfolding write_bit
  taken-write_bit b s h = ap (λ t. s.taken ++ (t ∷ [])) (out_level b s.pins h)

  taken-write_bits :
      (n x : ℕ) (s : Line G) → (write_bits io law n x s).taken ≡ s.taken ++ bits_down n x
  unfolding write_bits
  taken-write_bits zero x s = sym (append-nil s.taken)
  taken-write_bits (suc i) x s =
      let one : bit_and (x >>> i) 1 ≡ bit i x = bit_and_mask 1 (x >>> i) ∙ sym (bit_quotient i x) in
      taken-write_bits i x (write_bit io law (bit_and (x >>> i) 1) s)
      ∙ ap (λ t. t ++ bits_down i x)
          (taken-write_bit (bit_and (x >>> i) 1) s (omega (arith, one, bit_le_one i x))
            ∙ ap (λ t. s.taken ++ (t ∷ [])) one)
      ∙ append_assoc s.taken (bit i x ∷ []) (bits_down i x)

  pub taken-write_sid :
      (addr byte : ℕ) (s : Line G)
      → s.reset ≤ 1
      → (write_sid io law addr byte s).taken ≡ s.taken ++ frame (addr % 32) (byte % 256) s.reset
  unfolding write_sid
  taken-write_sid addr byte s h =
      let payload = bit_and byte 0xff in
      let s1 = write_bits io law 8 payload s in
      let z1 = write_bit io law 0 s1 in
      let z2 = write_bit io law 0 z1 in
      let s2 = write_bit io law s.reset z2 in
      let low : bit_and addr 0x1f ≡ addr % 32 = bit_and_mask 5 addr in
      let high : payload ≡ byte % 256 = bit_and_mask 8 byte in
      taken-write_bits 5 (bit_and addr 0x1f) s2
      ∙ ap (λ t. t ++ bits_down 5 (bit_and addr 0x1f))
          (taken-write_bit s.reset z2 h
            ∙ ap (λ t. t ++ (s.reset ∷ []))
                (taken-write_bit 0 z1 (omega arith)
                  ∙ ap (λ t. t ++ (0 ∷ []))
                      (taken-write_bit 0 s1 (omega arith)
                        ∙ ap (λ t. t ++ (0 ∷ [])) (taken-write_bits 8 payload s))))
      ∙ assemble s.taken (bits_down 8 payload) s.reset (bits_down 5 (bit_and addr 0x1f))
      ∙ ap₂ (λ a d. s.taken ++ frame a d s.reset) low high
    where
      assemble :
          (t q : List ℕ) (r : ℕ) (a : List ℕ)
          → (((((t ++ q) ++ (0 ∷ [])) ++ (0 ∷ [])) ++ (r ∷ [])) ++ a) ≡ t ++ (q ++ (0 ∷ 0 ∷ r ∷ a))
      assemble t q r a = simp append_assoc

  -- If `reset` is a bit, `write_sid` clocks out sixteen bits. Read as a number, the first bit the highest,
  -- they are the low byte of the data and a byte of `reset` as bit 5 and the low five bits of the register.
  pub write_sid-shifted :
      (addr byte : ℕ) (s : Line G)
      → s.reset ≤ 1
      → (bits : List ℕ) × ((write_sid io law addr byte s).taken ≡ s.taken ++ bits)
        × (length bits ≡ 16)
        × (shifted 0 bits ≡ byte % 256 * 256 + s.reset * 32 + addr % 32)
  write_sid-shifted addr byte s h = (
    frame (addr % 32) (byte % 256) s.reset,
    taken-write_sid addr byte s h,
    refl,
    shifted-frame (addr % 32) (byte % 256) s.reset (omega arith) (omega arith),
  )
