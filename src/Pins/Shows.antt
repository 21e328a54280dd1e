-- ===== src/Pins/Shows.antt =====
-- The command on the pins, pin by pin.
use sid_pi.Base.{
  ℕ, zero, suc, ◌*◌, ◌%◌, ◌^◌, ◌≤◌, ◌<◌, ◌≡◌, ◌≢◌, false, refl, ap, ◌∙◌, arith, List, [], ◌∷◌,
  ◌<<<◌, ◌==◌, if◌then◌else◌, get_or,
}
use sid_pi.Bits.Digits.{bit, bit_le_one}
use sid_pi.Bits.Masks.{bit-digit}
use sid_pi.Pins.{data_list, addr_list, cs, data_pins, addr_pins, Gpio, Drives, present, write_sid}
use sid_pi.Pins.Tables.{spread, bit-data_pins, bit-addr_pins}
use sid_pi.Pins.Latch.{settled, settled_pin}

abbrev pub data_pin : ℕ → ℕ
data_pin j = get_or data_list j 0

abbrev pub addr_pin : ℕ → ℕ
addr_pin j = get_or addr_list j 0

-- The tables, read at the pins of the data bus and of the address bus.
data_at :
    (j i : ℕ)
    → j < 8
    → (bit (data_pin j) (data_pins i) ≡ bit j i) × (bit (data_pin j) (addr_pins i) ≡ 0)
data_at zero i h = (bit-data_pins 11 i ∙ omega arith, bit-addr_pins 11 i ∙ omega arith)
data_at (suc zero) i h = (bit-data_pins 9 i ∙ omega arith, bit-addr_pins 9 i ∙ omega arith)
data_at (suc (suc zero)) i h = (bit-data_pins 10 i ∙ omega arith, bit-addr_pins 10 i ∙ omega arith)
data_at (suc (suc (suc zero))) i h =
    (bit-data_pins 22 i ∙ omega arith, bit-addr_pins 22 i ∙ omega arith)
data_at (suc (suc (suc (suc zero)))) i h =
    (bit-data_pins 27 i ∙ omega arith, bit-addr_pins 27 i ∙ omega arith)
data_at (suc (suc (suc (suc (suc zero))))) i h =
    (bit-data_pins 17 i ∙ omega arith, bit-addr_pins 17 i ∙ omega arith)
data_at (suc (suc (suc (suc (suc (suc zero)))))) i h =
    (bit-data_pins 3 i ∙ omega arith, bit-addr_pins 3 i ∙ omega arith)
data_at (suc (suc (suc (suc (suc (suc (suc zero))))))) i h =
    (bit-data_pins 2 i ∙ omega arith, bit-addr_pins 2 i ∙ omega arith)
data_at (suc (suc (suc (suc (suc (suc (suc (suc j)))))))) i h = absurd (omega arith)

addr_at :
    (j i : ℕ)
    → j < 5
    → (bit (addr_pin j) (addr_pins i) ≡ bit j i) × (bit (addr_pin j) (data_pins i) ≡ 0)
addr_at zero i h = (bit-addr_pins 23 i ∙ omega arith, bit-data_pins 23 i ∙ omega arith)
addr_at (suc zero) i h = (bit-addr_pins 24 i ∙ omega arith, bit-data_pins 24 i ∙ omega arith)
addr_at (suc (suc zero)) i h = (bit-addr_pins 25 i ∙ omega arith, bit-data_pins 25 i ∙ omega arith)
addr_at (suc (suc (suc zero))) i h =
    (bit-addr_pins 8 i ∙ omega arith, bit-data_pins 8 i ∙ omega arith)
addr_at (suc (suc (suc (suc zero)))) i h =
    (bit-addr_pins 7 i ∙ omega arith, bit-data_pins 7 i ∙ omega arith)
addr_at (suc (suc (suc (suc (suc j))))) i h = absurd (omega arith)

-- Each line of the two buses is a pin of a 32-bit word, and not CS.
data_pin_ok : (j : ℕ) → j < 8 → (data_pin j < 32) × (data_pin j ≢ cs) × (bit j 255 ≡ 1)
data_pin_ok zero h = (omega arith, omega arith, refl)
data_pin_ok (suc zero) h = (omega arith, omega arith, refl)
data_pin_ok (suc (suc zero)) h = (omega arith, omega arith, refl)
data_pin_ok (suc (suc (suc zero))) h = (omega arith, omega arith, refl)
data_pin_ok (suc (suc (suc (suc zero)))) h = (omega arith, omega arith, refl)
data_pin_ok (suc (suc (suc (suc (suc zero))))) h = (omega arith, omega arith, refl)
data_pin_ok (suc (suc (suc (suc (suc (suc zero)))))) h = (omega arith, omega arith, refl)
data_pin_ok (suc (suc (suc (suc (suc (suc (suc zero))))))) h = (omega arith, omega arith, refl)
data_pin_ok (suc (suc (suc (suc (suc (suc (suc (suc j)))))))) h = absurd (omega arith)

addr_pin_ok : (j : ℕ) → j < 5 → (addr_pin j < 32) × (addr_pin j ≢ cs) × (bit j 31 ≡ 1)
addr_pin_ok zero h = (omega arith, omega arith, refl)
addr_pin_ok (suc zero) h = (omega arith, omega arith, refl)
addr_pin_ok (suc (suc zero)) h = (omega arith, omega arith, refl)
addr_pin_ok (suc (suc (suc zero))) h = (omega arith, omega arith, refl)
addr_pin_ok (suc (suc (suc (suc zero)))) h = (omega arith, omega arith, refl)
addr_pin_ok (suc (suc (suc (suc (suc j))))) h = absurd (omega arith)

settled_by : (x before : ℕ) → x ≤ 1 → settled x 1 before ≡ x
settled_by x before h = ground arith

module _ {G : Type 0} (io : Gpio G) (law : Drives io) where
  open law use {level}

  data_line :
      (reg val : ℕ) (g : G) (j : ℕ)
      → j < 8
      → level (present io reg val g) (data_pin j) ≡ bit j (val % 256)
  data_line reg val g j h =
      let ok = data_pin_ok j h in
      settled_pin io law reg val g (data_pin j) ok.0 ok.1
      ∙ rw ((data_at j (val % 256) h).0, (data_at j 255 h).0, ok.2)
          (settled_by (bit j (val % 256))
            (settled (bit (data_pin j) (addr_pins (reg % 32))) (bit (data_pin j) (addr_pins 31))
              (level g (data_pin j)))
            (bit_le_one j (val % 256)))

  addr_line :
      (reg val : ℕ) (g : G) (i : ℕ)
      → i < 5
      → level (present io reg val g) (addr_pin i) ≡ bit i (reg % 32)
  addr_line reg val g i h =
      let ok = addr_pin_ok i h in
      settled_pin io law reg val g (addr_pin i) ok.0 ok.1
      ∙ rw
          (
            (addr_at i (val % 256) h).1,
            (addr_at i 255 h).1,
            (addr_at i (reg % 32) h).0,
            (addr_at i 31 h).0,
            ok.2,
          )
          (settled_by (bit i (reg % 32)) (level g (addr_pin i)) (bit_le_one i (reg % 32)))

  -- When `writeSid` takes CS low, each of the eight lines of the data bus shows its bit of the value and
  -- each of the five of the address bus its bit of the register, whatever the pins showed before; CS
  -- is high again at the end.
  pub write_sid_lem :
      (reg val : ℕ) (g : G) (j i : ℕ)
      → j < 8
      → i < 5
      → (level (present io reg val g) (data_pin j) ≡ bit j (val % 256))
        × (level (present io reg val g) (addr_pin i) ≡ bit i (reg % 32))
        × (level (present io reg val g) cs ≡ 0)
        × (level (write_sid io reg val g) cs ≡ 1)
  unfolding write_sid present
  write_sid_lem reg val g j i h k = (
    data_line reg val g j h,
    addr_line reg val g i k,
    law.clear_law (1 <<< cs) _ cs (omega arith),
    law.set_law (1 <<< cs) _ cs (omega arith),
  )

-- The pin is not of the list.
abbrev pub Elsewhere : ℕ → List ℕ → Type 0
Elsewhere p [] = Unit {0}
Elsewhere p (q ∷ qs) = (p ≢ q) × Elsewhere p qs

spread-Elsewhere : (p : ℕ) (ps : List ℕ) (j i : ℕ) → Elsewhere p ps → spread p ps j i 0 ≡ 0
spread-Elsewhere p [] j i h = refl
spread-Elsewhere p (q ∷ qs) j i h =
    let none_here : (p == q) ≡ false = ground (arith, h.0) in
    rw none_here (spread-Elsewhere p qs (suc j) i h.1)

module _ {G : Type 0} (io : Gpio G) (law : Drives io) where
  open law use {level}

  -- `writeSid` leaves each pin alone that is neither CS nor of one of the two buses.
  pub write_sid-Elsewhere :
      (reg val : ℕ) (g : G) (p : ℕ)
      → p < 32
      → p ≢ cs
      → Elsewhere p data_list
      → Elsewhere p addr_list
      → level (write_sid io reg val g) p ≡ level g p
  unfolding write_sid
  write_sid-Elsewhere reg val g p h k d a =
      let no_data : (i : ℕ) → bit p (data_pins i) ≡ 0 =
        λ i. bit-data_pins p i ∙ spread-Elsewhere p data_list 0 i d in
      let no_addr : (i : ℕ) → bit p (addr_pins i) ≡ 0 =
        λ i. bit-addr_pins p i ∙ spread-Elsewhere p addr_list 0 i a in
      let off : bit p (1 * 2 ^ cs) ≡ 0 = bit-digit p cs 1 (omega arith) ∙ ground arith in
      law.set_law (1 <<< cs) (present io reg val g) p h
      ∙ ap (λ b. if b == 1 then 1 else level (present io reg val g) p) off
      ∙ settled_pin io law reg val g p h k
      ∙ rw (no_data (val % 256), no_data 255, no_addr (reg % 32), no_addr 31)
