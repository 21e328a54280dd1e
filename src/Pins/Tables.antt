-- ===== src/Pins/Tables.antt =====
-- The pin tables: bit `j` of a number stands at the `j`-th pin of the list, and nothing elsewhere.
use sid_pi.Base.{
  ℕ, zero, suc, ◌*◌, ◌/◌, ◌^◌, ◌≤◌, ◌<◌, ◌≡◌, refl, ap, ◌∙◌, arith, List, [], ◌∷◌, bit_and, bit_or,
  max, ◌<<<◌, ◌>>>◌, ◌==◌, if◌then◌else◌,
}
use sid_pi.Bits.Digits.{bit, bit_le_one, bit-bit_or}
use sid_pi.Bits.Masks.{bit_of_zero, bit-digit, bit_or-lt, picked_bit}
use sid_pi.Pins.{gather, data_list, addr_list, data_pins, addr_pins}

-- What the pin `p` gets of the number `i`.
abbrev pub spread : ℕ → List ℕ → ℕ → ℕ → ℕ → ℕ
spread p [] j i level = level
spread p (q ∷ qs) j i level = spread p qs (suc j) i (max level (if p == q then bit j i else 0))

bit-gather :
    (p : ℕ) (ps : List ℕ) (j i table : ℕ)
    → bit p (gather ps j i table) ≡ spread p ps j i (bit p table)
unfolding gather
bit-gather p [] j i table = refl
bit-gather p (q ∷ qs) j i table =
    bit-gather p qs (suc j) i (bit_or table ((bit_and i (2 ^ j) >>> j) <<< q))
    ∙ ap (spread p qs (suc j) i) (
        bit-bit_or p table ((bit_and i (2 ^ j) >>> j) <<< q)
        ∙ ap (max (bit p table)) (
            ap (λ d. bit p (d * 2 ^ q)) (picked_bit i j)
            ∙ bit-digit p q (bit j i) (bit_le_one j i)))

pub bit-data_pins : (p i : ℕ) → bit p (data_pins i) ≡ spread p data_list 0 i 0
unfolding data_pins
bit-data_pins p i = bit-gather p data_list 0 i 0 ∙ ap (spread p data_list 0 i) (bit_of_zero p)

pub bit-addr_pins : (p i : ℕ) → bit p (addr_pins i) ≡ spread p addr_list 0 i 0
unfolding addr_pins
bit-addr_pins p i = bit-gather p addr_list 0 i 0 ∙ ap (spread p addr_list 0 i) (bit_of_zero p)

-- Pins of a 32-bit word.
abbrev pub InWord : List ℕ → Type 0
InWord [] = Unit {0}
InWord (p ∷ ps) = (2 ^ p < 2 ^ 32) × InWord ps

gather-lt :
    (ps : List ℕ) (j i table : ℕ) → InWord ps → table < 2 ^ 32 → gather ps j i table < 2 ^ 32
unfolding gather
gather-lt [] j i table h t = t
gather-lt (p ∷ ps) j i table h t =
    gather-lt ps (suc j) i (bit_or table ((bit_and i (2 ^ j) >>> j) <<< p)) h.1 (
      bit_or-lt 32 table ((bit_and i (2 ^ j) >>> j) <<< p) t (
        digit-lt (bit_and i (2 ^ j) / 2 ^ j) (2 ^ p)
          (let e = picked_bit i j in let b = bit_le_one j i in omega arith) h.0))
  where
    digit-lt : (d n : ℕ) → d ≤ 1 → n < 2 ^ 32 → d * n < 2 ^ 32
    digit-lt zero n h l = omega arith
    digit-lt (suc zero) n h l = omega arith
    digit-lt (suc (suc d)) n h l = absurd (omega arith)

pub data_pins-lt : (i : ℕ) → data_pins i < 2 ^ 32
unfolding data_pins
data_pins-lt i = gather-lt data_list 0 i 0 (omega arith) (omega arith)

pub addr_pins-lt : (i : ℕ) → addr_pins i < 2 ^ 32
unfolding addr_pins
addr_pins-lt i = gather-lt addr_list 0 i 0 (omega arith) (omega arith)
