-- ===== src/Serial.antt =====
-- sidpiserver/src/serialsid.c: the chip behind a shift register, sixteen bits for a command. The
-- registers of the pins are the parameter of Pins.
pub mod Bits
pub mod Setup
pub mod Sweep
mod Tests
use sid_pi.Base.{
  ℕ, zero, suc, ◌+◌, ◌*◌, ◌/◌, ◌%◌, ◌^◌, ◌≤◌, ◌<◌, ◌≡◌, List, [], ◌∷◌, ◌++◌, bit_and, add32, ◌<<<◌,
  ◌>>>◌, ◌==◌, if◌then◌else◌,
}
use sid_pi.Pins.{Gpio, Drives}

-- `SER`, `SCLK`, `RCLK` and `CS`
abbrev pub ser : ℕ
ser = 17

abbrev pub sclk : ℕ
sclk = 3

abbrev pub rclk : ℕ
rclk = 2

abbrev pub cs : ℕ
cs = 27

-- The pins, `reset` and `bit_counter`. `taken` is a history: the level of SER at each rise of RCLK.
pub record Line (G : Type 0) : Type 0 where
  pub pins : G
  pub reset : ℕ
  pub bit_counter : ℕ
  pub taken : List ℕ

module _ {G : Type 0} (io : Gpio G) (law : Drives io) where
  -- `GPIO_SET = 1 << pin` and `GPIO_CLR = 1 << pin`
  abbrev pub set_pin : ℕ → G → G
  set_pin pin = io.store 7 (1 <<< pin)

  abbrev pub clear_pin : ℕ → G → G
  clear_pin pin = io.store 10 (1 <<< pin)

  -- The pins of `write_bit` up to the rise of RCLK; a bit that is neither 1 nor 0 only complains.
  abbrev pub bit_out : ℕ → G → G
  bit_out b g =
      let g1 = clear_pin rclk (clear_pin sclk g) in
      if b == 1 then set_pin ser g1 else if b == 0 then clear_pin ser g1 else g1

  unfoldable pub write_bit : ℕ → Line G → Line G
  write_bit b s =
      let g = bit_out b s.pins in
      record s {
        pins = clear_pin rclk (set_pin rclk g);
        bit_counter = add32 s.bit_counter 1;
        taken = s.taken ++ (law.level g ser ∷ []);
      }

  -- `for (i = n - 1; i >= 0; i--) write_bit((x >> i) & 1);`
  unfoldable pub write_bits : ℕ → ℕ → Line G → Line G
  write_bits zero x s = s
  write_bits (suc i) x s = write_bits i x (write_bit (bit_and (x >>> i) 1) s)

  -- `write_sid`, of two `uint8_t`s
  unfoldable pub write_sid : ℕ → ℕ → Line G → Line G
  write_sid addr byte s =
      let s1 = write_bits 8 (bit_and byte 0xff) s in
      let s2 = write_bit s.reset (write_bit 0 (write_bit 0 s1)) in
      let s3 = write_bits 5 (bit_and addr 0x1f) s2 in
      record s3 { pins = set_pin cs (clear_pin cs (clear_pin sclk (set_pin sclk s3.pins))) }

  -- `reset_sid`
  unfoldable pub reset_sid : Line G → Line G
  unfolding write_sid
  reset_sid s = record (write_sid 0 0 (record s { reset = 0 })) { reset = 1 }
