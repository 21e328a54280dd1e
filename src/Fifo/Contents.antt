-- ===== src/Fifo/Contents.antt =====
-- The bytes that a FIFO holds, oldest first, and how one write or read changes them.
use native.Mathlib.Nat.{mod-lt, mod-add-mod, mul-le-mul_right, div-add-mod'}
use native.Mathlib.Decide.{dec_lt}
use sid_pi.Base.{
  ℕ, zero, suc, ◌+◌, ◌/◌, ◌%◌, ◌≤◌, ◌<◌, ◌≡◌, ◌≢◌, refl, sym, ap, ap₂, ◌∙◌, arith, List, [], ◌∷◌,
  ◌++◌, length, get_or, set, get_or-set_self, get_or-set_ne,
}
use sid_pi.Fifo.{Fifo}

-- The `n` bytes from position `i` on; position `j` is at index `j % size`.
abbrev pub span : List ℕ → ℕ → ℕ → ℕ → List ℕ
span buf size i zero = []
span buf size i (suc n) = get_or buf (i % size) 0 ∷ span buf size (i + 1) n

abbrev pub contents : Fifo → List ℕ
contents f = span f.fifo_buf f.fifo_size f.fifo_first f.fifo_count

pub length-span : (buf : List ℕ) (size i n : ℕ) → length (span buf size i n) ≡ n
length-span buf size i zero = refl
length-span buf size i (suc n) = ap suc (length-span buf size (i + 1) n)

pub length-contents : (f : Fifo) → length (contents f) ≡ f.fifo_count
length-contents f = length-span f.fifo_buf f.fifo_size f.fifo_first f.fifo_count

-- Positions that agree round the ring start the same bytes.
pub span_mod :
    (buf : List ℕ) (size i j n : ℕ) → i % size ≡ j % size → span buf size i n ≡ span buf size j n
span_mod buf size i j zero h = refl
span_mod buf size i j (suc n) h =
    ap₂ ◌∷◌ (ap (λ t. get_or buf t 0) h) (span_mod buf size (i + 1) (j + 1) n next)
  where
    next : (i + 1) % size ≡ (j + 1) % size
    next = sym (mod-add-mod i size 1) ∙ ap (λ t. (t + 1) % size) h ∙ mod-add-mod j size 1

-- Two positions less than one round apart have different indices.
apart : (size a b : ℕ) → a < b → b < a + size → a % size ≢ b % size
apart size a b lo hi e = elim (dec_lt (a / size) (b / size)) [
  | yes p ↦ omega (
    arith,
    div-add-mod' a size,
    div-add-mod' b size,
    mul-le-mul_right {m = a / size + 1} {n = b / size} size (omega arith),
  )
  | no p ↦ omega (
    arith,
    div-add-mod' a size,
    div-add-mod' b size,
    mul-le-mul_right {m = b / size} {n = a / size} size (omega arith),
  )
]

-- A write at the position after a span leaves the span's bytes alone.
span-set_after :
    (buf : List ℕ) (size x n i j last : ℕ)
    → i + n ≤ j
    → j < i + size
    → last ≡ j % size
    → span (set buf last x) size i n ≡ span buf size i n
span-set_after buf size x zero i j last lo hi e = refl
span-set_after buf size x (suc n) i j last lo hi e =
    ap₂ ◌∷◌
      (get_or-set_ne buf {i = last} x 0 (λ same. apart size i j (omega arith) hi (sym same ∙ e)))
      (span-set_after buf size x n (i + 1) j last (omega arith) (omega arith) e)

-- A span of one byte more ends in the byte at the next position.
span-snoc :
    (buf : List ℕ) (size n i : ℕ)
    → span buf size i (suc n) ≡ span buf size i n ++ (get_or buf ((i + n) % size) 0 ∷ [])
span-snoc buf size zero i = ap (λ t. get_or buf (t % size) 0 ∷ []) (omega arith)
span-snoc buf size (suc n) i =
    ap (λ t. get_or buf (i % size) 0 ∷ t)
      (span-snoc buf size n (i + 1)
        ∙ ap (λ t. span buf size (i + 1) n ++ (get_or buf (t % size) 0 ∷ [])) (omega arith))

-- A write at the position after a span extends the span by the byte written.
pub span-set :
    (buf : List ℕ) (size x n i last : ℕ)
    → length buf ≡ size
    → n < size
    → last ≡ (i + n) % size
    → span (set buf last x) size i (suc n) ≡ span buf size i n ++ (x ∷ [])
span-set buf size x n i last hl hn e =
    span-snoc (set buf last x) size n i
    ∙ ap₂ (λ q y. q ++ (y ∷ []))
        (span-set_after buf size x n i (i + n) last (omega arith) (omega arith) e)
        (ap (λ t. get_or (set buf last x) t 0) (sym e)
          ∙ get_or-set_self buf last x 0 (omega (arith, mod-lt (i + n) {m = size})))
