-- ===== src/Pins/Select/Modes.antt =====
-- What function each pin has after the set-up.
use sid_pi.Base.{
  ℕ, zero, suc, ◌+◌, ◌-◌, ◌*◌, ◌/◌, ◌%◌, ◌^◌, ◌≤◌, ◌<◌, ◌≡◌, refl, sym, ap, ◌∙◌, arith, Bool, false,
  Bool-cases, ◌⊎◌, inl, inr, bit_and, bit_or, max, min, not32, ◌<<<◌, ◌==◌, if◌then◌else◌,
}
use native.Mathlib.Nat.{pow-le-pow_right, mul-le-mul_right}
use sid_pi.Bits.Digits.{bit, bit_le_one, bit-bit_and, bit-bit_or}
use sid_pi.Bits.Masks.{
  bit-shift_at, bit-shift_below, bit-complement, bit_above_three, bit_and-lt, bit_or-lt,
}
use sid_pi.Pins.{Gpio}
use sid_pi.Pins.Select.{set_field}

-- What the data sheet says of the words 0 to 5 (GPFSEL0 to GPFSEL5): each keeps the 32 bits last written.
pub record Keeps {G : Type 0} (io : Gpio G) : Type 0 where
  pub load_store :
      (n m w : ℕ) (g : G)
      → n < 6
      → w < 2 ^ 32
      → io.load n (io.store m w g) ≡ (if n == m then w else io.load n g)
  pub load_word : (n : ℕ) (g : G) → io.load n g < 2 ^ 32

-- the three bits of `w` from `s` on
abbrev pub field : ℕ → ℕ → ℕ
field s w = bit s w + 2 * bit (s + 1) w + 4 * bit (s + 2) w

-- The word with the field at `s` replaced, as `set_field` writes it.
abbrev pub replaced : ℕ → ℕ → ℕ → ℕ
replaced s f w = bit_or (bit_and w (not32 (7 <<< s))) (f <<< s)

module _ (s f w : ℕ) (low : f < 8) (seven : 7 * 2 ^ s < 2 ^ 32) where
  bit-replaced :
      (p : ℕ)
      → p < 32
      → bit p (replaced s f w) ≡ max (min (bit p w) (1 - bit p (7 * 2 ^ s))) (bit p (f * 2 ^ s))
  bit-replaced p h =
      bit-bit_or p (bit_and w (not32 (7 <<< s))) (f <<< s)
      ∙ ap (λ t. max t (bit p (f * 2 ^ s)))
          (bit-bit_and p w (not32 (7 <<< s))
            ∙ ap (min (bit p w)) (bit-complement 32 p (7 * 2 ^ s) seven h))

  bit_inside : (j : ℕ) → j < 3 → s + j < 32 → bit (s + j) (replaced s f w) ≡ bit j f
  bit_inside j h l =
      let one : bit (s + j) (7 * 2 ^ s) ≡ 1 = bit-shift_at s j 7 ∙ ones j h in
      omega (arith, bit-replaced (s + j) l, one, bit-shift_at s j f)
    where
      ones : (j : ℕ) → j < 3 → bit j 7 ≡ 1
      ones zero h = refl
      ones (suc zero) h = refl
      ones (suc (suc zero)) h = refl
      ones (suc (suc (suc j))) h = absurd (omega arith)

  bit_outside : (p : ℕ) → p < 32 → (p < s) ⊎ (s + 3 ≤ p) → bit p (replaced s f w) ≡ bit p w
  bit_outside p h (inl below) = omega (
    arith,
    bit-replaced p h,
    bit-shift_below p s 7 below,
    bit-shift_below p s f below,
    bit_le_one p w,
  )
  bit_outside p h (inr above) =
      let at : p ≡ s + (p - s) = omega arith in
      let none_of : (x : ℕ) → x < 8 → bit p (x * 2 ^ s) ≡ 0 = λ x l.
        ap (λ t. bit t (x * 2 ^ s)) at
        ∙ bit-shift_at s (p - s) x
        ∙ bit_above_three (p - s) x l (omega arith) in
      omega (arith, bit-replaced p h, none_of 7 (omega arith), none_of f low, bit_le_one p w)

seven_fits : (i : ℕ) → i < 10 → 7 * 2 ^ (3 * i) < 2 ^ 32
seven_fits i h =
    let most : 2 ^ (3 * i) ≤ 2 ^ 27 =
      pow-le-pow_right {n = 2} (omega arith) {i = 3 * i} {j = 27} (omega arith) in
    omega arith

pub replaced-lt : (i f w : ℕ) → i < 10 → f < 8 → w < 2 ^ 32 → replaced (3 * i) f w < 2 ^ 32
replaced-lt i f w h low l =
    let most : f * 2 ^ (3 * i) ≤ 7 * 2 ^ (3 * i) = mul-le-mul_right (2 ^ (3 * i)) (omega arith) in
    bit_or-lt 32 (bit_and w (not32 (7 <<< (3 * i)))) (f <<< (3 * i)) (bit_and-lt 32 w _ l)
      (omega (arith, seven_fits i h))

eighths : (f : ℕ) → f < 8 → bit 0 f + 2 * bit 1 f + 4 * bit 2 f ≡ f
eighths f h = omega arith

-- The field of the `k`-th pin of a word, after the field of the `i`-th has been replaced.
field-replaced :
    (i k f w : ℕ)
    → i < 10
    → k < 10
    → f < 8
    → field (3 * k) (replaced (3 * i) f w) ≡ (if k == i then f else field (3 * k) w)
field-replaced i k f w h l low =
    let room : 7 * 2 ^ (3 * i) < 2 ^ 32 = seven_fits i h in
    let same = λ (p : ℕ) (b : p < 32) (o : (p < 3 * i) ⊎ (3 * i + 3 ≤ p)).
      bit_outside (3 * i) f w low room p b o in
    elim (Bool-cases (k == i)) [
      | inl e ↦
          let at : k ≡ i = ground arith in
          rw (e, at)
            (let b0 = bit_inside (3 * i) f w low room 0 (omega arith) (omega arith) in
              let b1 = bit_inside (3 * i) f w low room 1 (omega arith) (omega arith) in
              let b2 = bit_inside (3 * i) f w low room 2 (omega arith) (omega arith) in
              let place : 3 * i + 0 ≡ 3 * i = omega arith in
              omega
                (arith, b1, b2, ap (λ t. bit t (replaced (3 * i) f w)) place, b0, eighths f low))
      | inr e ↦
          let apart : (k < i) ⊎ (i < k) = ground arith in
          rw e (elim apart [
            | inl before ↦ omega (
              arith,
              same (3 * k) (omega arith) (inl (omega arith)),
              same (3 * k + 1) (omega arith) (inl (omega arith)),
              same (3 * k + 2) (omega arith) (inl (omega arith)),
            )
            | inr after ↦ omega (
              arith,
              same (3 * k) (omega arith) (inr (omega arith)),
              same (3 * k + 1) (omega arith) (inr (omega arith)),
              same (3 * k + 2) (omega arith) (inr (omega arith)),
            )
          ])
    ]

module _ {G : Type 0} (io : Gpio G) (law : Keeps io) where
  -- The function of a pin, as the data sheet has it: three bits of the word for its ten pins.
  abbrev pub mode_of : G → ℕ → ℕ
  mode_of g pin = field (3 * (pin % 10)) (io.load (pin / 10) g)

  pub mode-set_field :
      (pin f : ℕ) (g : G) (q : ℕ)
      → pin < 60
      → f < 8
      → q < 60
      → mode_of (set_field io (pin / 10) (3 * (pin % 10)) f g) q
        ≡ (if q == pin then f else mode_of g q)
  unfolding set_field
  mode-set_field pin f g q h low l =
      let new : ℕ = replaced (3 * (pin % 10)) f (io.load (pin / 10) g) in
      let law' : io.load (q / 10) (io.store (pin / 10) new g)
          ≡ (if q / 10 == pin / 10 then new else io.load (q / 10) g) =
        law.load_store (q / 10) (pin / 10) new g (omega arith) (
          replaced-lt (pin % 10) f (io.load (pin / 10) g) (omega arith) low
            (law.load_word (pin / 10) g)) in
      elim (Bool-cases (q / 10 == pin / 10)) [
        | inl e ↦
            let word : q / 10 ≡ pin / 10 = ground arith in
            ap (field (3 * (q % 10)))
              (law' ∙ ap (λ (b : Bool). if b then new else io.load (q / 10) g) e)
            ∙ field-replaced (pin % 10) (q % 10) f (io.load (pin / 10) g) (omega arith)
                (omega arith) low
            ∙ ap (λ n. if q % 10 == pin % 10 then f else field (3 * (q % 10)) (io.load n g))
                (sym word)
            ∙ ap (λ (b : Bool). if b then f else mode_of g q)
                (let e : (q % 10 == pin % 10) ≡ (q == pin) = ground arith in e)
        | inr e ↦
            let other : (q == pin) ≡ false = ground arith in
            rw other (
              ap (field (3 * (q % 10)))
                (law' ∙ ap (λ (b : Bool). if b then new else io.load (q / 10) g) e))
      ]
