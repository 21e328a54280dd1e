-- ===== src/Clock/Divisor.antt =====
-- The divisor that is programmed, against the one that the frequency asks for.
use native.Mathlib.Nat.{
  mod-lt, mul-le-mul_right, div-add-mod, add-mul-div_left, le-div_iff_mul-le, lt-mul-div-succ,
  div-lt_iff_lt-mul, mul_assoc,
}
use sid_pi.Base.{
  ℕ, ◌+◌, ◌*◌, ◌/◌, ◌%◌, ◌^◌, ◌≤◌, ◌<◌, ◌≡◌, sym, ap, ◌∙◌, arith, true, some, List, [], ◌∷◌, bit_or,
  ltb, ◌<<<◌,
}
use sid_pi.Bits.Fields.{bit_or_field}
use sid_pi.Clock.{
  Double, IsPrecise, Access, clock_word, timer_word, is_idle, bcm_password, oscillator, whole_part,
  divisor_word, program_clock, start_sid_clk, start_sid_clk_int,
}

-- the code's twelve bits of fraction
abbrev pub fraction : ℕ → ℕ
fraction freq = oscillator % freq * 4096 / 19200000

divisor_word_lem :
    (divi divf : ℕ)
    → divi < 4096
    → divf < 4096
    → divisor_word divi divf ≡ (0x5A * 4096 + divi) * 4096 + divf
divisor_word_lem divi divf h l =
    let outer : bit_or (0x5A * 2 ^ 24) (divi * 2 ^ 12) ≡ 0x5A * 2 ^ 24 + divi * 2 ^ 12 =
      bit_or_field 24 0x5A (divi * 2 ^ 12) (omega arith) in
    let same : bit_or bcm_password (divi <<< 12) ≡ (0x5A * 4096 + divi) * 2 ^ 12 =
      outer ∙ omega arith in
    ap (λ t. bit_or t divf) same
    ∙ bit_or_field 12 (0x5A * 4096 + divi) divf (omega arith)
    ∙ omega arith

pub fraction-lt : (freq : ℕ) → 0 < freq → freq ≤ 19200000 → fraction freq < 4096
fraction-lt freq h l = omega (arith, mod-lt oscillator {m = freq} h)

pub whole_part-lt : (freq : ℕ) → whole_part freq < 4096
whole_part-lt freq = ground arith

pub exact_cut :
    {D : Type 0} (d : Double D)
    → IsPrecise d
    → (freq : ℕ) → 0 < freq
    → freq ≤ 19200000
    → d.to_int (d.div (d.mul (d.of_int (oscillator % freq)) (d.of_int 4096)) (d.of_int 19200000))
      ≡ fraction freq
exact_cut d p freq h l =
    p.cut (oscillator % freq) 4096 19200000 (omega arith)
      (omega (arith, mod-lt oscillator {m = freq} h))

-- What a manager that has been given these words is set to.
pub record Programmed (freq : ℕ) (stores : List Access) : Type 0 where
  pub word : ℕ
  pub order :
      stores
      ≡ clock_word 28 0x5A000001
        ∷ clock_word 29 word
        ∷ clock_word 28 0x5A000011
        ∷ timer_word 0x102 0x280
        ∷ timer_word 0x107 0xF9
        ∷ []
  pub password : word / 2 ^ 24 ≡ 0x5A
  pub whole : word / 2 ^ 12 % 2 ^ 12 ≡ whole_part freq
  pub part : word % 2 ^ 12 ≡ fraction freq

-- For a frequency up to that of the oscillator, once the manager reads idle, `startSidClk` has stopped the
-- clock, then set the divisor with the password in its top byte and the whole part and the fraction in their
-- fields, then started the clock and the timer.
pub start_sid_clk-Programmed :
    {D : Type 0} (d : Double D) (freq : ℕ) (words : List ℕ)
    → IsPrecise d
    → 0 < freq
    → freq ≤ 19200000
    → is_idle words ≡ true
    → Programmed freq (start_sid_clk d freq words)
unfolding start_sid_clk program_clock
start_sid_clk-Programmed d freq words p h l idle =
    let f = fraction-lt freq h l in
    let i = whole_part-lt freq in
    let w : divisor_word (whole_part freq) (fraction freq)
        ≡ (0x5A * 4096 + whole_part freq) * 4096 + fraction freq =
      divisor_word_lem (whole_part freq) (fraction freq) i f in
    record {
      word = divisor_word (whole_part freq) (fraction freq);
      order = rw (idle, exact_cut d p freq h l);
      password = omega arith;
      whole = omega arith;
      part = omega arith;
    }

-- Where the product fits an `int`, the kernel module makes the same stores as the server.
pub start_sid_clk_int-start_sid_clk :
    {D : Type 0} (d : Double D) (freq : ℕ) (words : List ℕ)
    → IsPrecise d
    → 0 < freq
    → freq ≤ 19200000
    → oscillator % freq * 4096 < 2 ^ 31
    → start_sid_clk_int freq words ≡ some (start_sid_clk d freq words)
unfolding start_sid_clk_int start_sid_clk
start_sid_clk_int-start_sid_clk d freq words p h l fits =
    let in_range : ltb (oscillator % freq * 4096) (2 ^ 31) ≡ true = ground arith in
    rw (in_range, exact_cut d p freq h l)

-- the divisor as a number of 4096ths
abbrev pub scaled_divisor : List Access → ℕ
scaled_divisor (_ ∷ clock_word n word ∷ _) = word % 2 ^ 24
scaled_divisor _ = 0

-- the largest number of 4096ths that does not make the clock too slow
abbrev pub exact_divisor : ℕ → ℕ
exact_divisor freq = oscillator * 4096 / freq

module _ (freq : ℕ) (h : 0 < freq) where
  exact_divisor_lem :
      exact_divisor freq ≡ oscillator / freq * 4096 + oscillator % freq * 4096 / freq
  exact_divisor_lem =
      let parts : oscillator * 4096 ≡ oscillator % freq * 4096 + freq * (oscillator / freq * 4096) =
        ap (λ (t : ℕ). t * 4096) (sym (div-add-mod oscillator freq))
        ∙ regroup (oscillator / freq) (oscillator % freq) freq in
      ap (λ (t : ℕ). t / freq) parts
      ∙ add-mul-div_left (oscillator % freq * 4096) (oscillator / freq * 4096) h
      ∙ omega arith
    where
      regroup : (q r n : ℕ) → (n * q + r) * 4096 ≡ r * 4096 + n * (q * 4096)
      regroup q r n = omega (arith, mul_assoc n q 4096)

  -- The fraction is taken of the oscillator and not of the frequency, so it is too small.
  fraction_short :
      freq ≤ 9600000
      → freq ≤ oscillator % freq * 4096
      → fraction freq < oscillator % freq * 4096 / freq
  fraction_short l some_part =
      let a = oscillator % freq * 4096 in
      let q = a / freq in
      let one : 1 ≤ q = (le-div_iff_mul-le {k = freq} {x = 1} {y = a} h).1 (omega arith) in
      let below : a < freq * (q + 1) = lt-mul-div-succ a h in
      let wide : freq * (q + 1) ≤ 9600000 * (q + 1) = mul-le-mul_right (q + 1) l in
      (div-lt_iff_lt-mul {k = 19200000} {x = a} {y = q} (omega arith)).1 (omega arith)

-- For a frequency of 4688 to 9600000 at which the exact divisor has a fraction of a 4096th or more, the divisor
-- that `startSidClk` programs is below the exact one: the clock is faster than was asked.
pub start_sid_clk_fast :
    {D : Type 0} (d : Double D) (freq : ℕ) (words : List ℕ)
    → IsPrecise d
    → 4688 ≤ freq
    → freq ≤ 9600000
    → freq ≤ oscillator % freq * 4096
    → is_idle words ≡ true
    → scaled_divisor (start_sid_clk d freq words) < exact_divisor freq
unfolding start_sid_clk program_clock
start_sid_clk_fast d freq words p low high some_part idle =
    let pos : 0 < freq = omega arith in
    let cut = exact_cut d p freq pos (omega arith) in
    let small : oscillator / freq < 4096 =
      (div-lt_iff_lt-mul {k = freq} {x = oscillator} {y = 4096} pos).1 (omega arith) in
    let all : whole_part freq ≡ oscillator / freq = ground arith in
    let f = fraction-lt freq pos (omega arith) in
    let w = divisor_word_lem (oscillator / freq) (fraction freq) small f in
    let low_bits : divisor_word (oscillator / freq) (fraction freq) % 2 ^ 24
        ≡ oscillator / freq * 4096 + fraction freq =
      omega arith in
    let short = fraction_short freq pos high some_part in
    rw (idle, cut, all, low_bits, exact_divisor_lem freq pos) (omega arith)
