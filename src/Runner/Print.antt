-- ===== src/Runner/Print.antt =====
-- sidpiserver/src/sidrunnerthread.c: `empty` and `print_queue`, on the older queue, which nothing calls.
use sid_pi.Base.{
  ℕ, zero, suc, ◌+◌, ◌-◌, ◌%◌, ◌≤◌, ◌<◌, ◌≡◌, refl, arith, false, Bool-cases, inl, inr, Option,
  none, some, List, [], ◌∷◌, ◌==◌, if◌then◌else◌,
}
use mathlib.Core.Option
use sid_pi.Runner.{Buffer, buffer_size}

-- `empty`
unfoldable pub empty : Buffer → ℕ
empty b = if b.count == 0 then 1 else 0

-- `print_queue` from the index `i` on: the indices of what it prints, or none if it is not done after so many rounds.
unfoldable pub print_from : ℕ → Buffer → ℕ → Option (List ℕ)
print_from zero b i = none
print_from (suc n) b i =
    let rest = print_from n b ((i + 1) % buffer_size) in
    if i == b.last then some (i ∷ []) else Option.map (λ is. i ∷ is) rest

-- `print_queue`, watched for so many rounds
abbrev pub print_queue : ℕ → Buffer → Option (List ℕ)
print_queue n b = print_from n b b.first

-- the indices from `i` on around the buffer, so many and one
abbrev pub around : ℕ → ℕ → List ℕ
around i zero = i ∷ []
around i (suc n) = i ∷ around ((i + 1) % buffer_size) n

-- how far it is from one index to another, going round
abbrev pub distance : ℕ → ℕ → ℕ
distance i j = (j + buffer_size - i) % buffer_size

-- Enough rounds print what is from `i` to the end of the queue.
print_from_lem :
    (n : ℕ) (b : Buffer) (i : ℕ)
    → i < buffer_size
    → b.last < buffer_size
    → distance i b.last < n
    → print_from n b i ≡ some (around i (distance i b.last))
unfolding print_from
print_from_lem zero b i h l d = absurd (omega arith)
print_from_lem (suc n) b i h l d = elim (Bool-cases (i == b.last)) [
  | inl e ↦ let at : distance i b.last ≡ 0 = ground arith in rw (e, at) refl
  | inr e ↦
      let next : distance i b.last ≡ suc (distance ((i + 1) % buffer_size) b.last) = ground arith in
      rw (e, next, print_from_lem n b ((i + 1) % buffer_size) (omega arith) l (omega (arith, next)))
        refl
]

-- With its end outside the buffer it never ends.
print_from_endless :
    (n : ℕ) (b : Buffer) (i : ℕ) → i < buffer_size → buffer_size ≤ b.last → print_from n b i ≡ none
unfolding print_from
print_from_endless zero b i h l = refl
print_from_endless (suc n) b i h l =
    let e : (i == b.last) ≡ false = ground arith in
    rw (e, print_from_endless n b ((i + 1) % buffer_size) (omega arith) l) refl

-- `print_queue` ends exactly if the last index lies in the buffer: it then prints what is from the first to the last, both
-- with it, in as many rounds as the buffer has bytes at most; else no number of rounds is enough.
pub print_queue_lem :
    (b : Buffer)
    → b.first < buffer_size
    → (b.last < buffer_size
        → print_queue buffer_size b ≡ some (around b.first (distance b.first b.last)))
      × (buffer_size ≤ b.last → (n : ℕ) → print_queue n b ≡ none)
print_queue_lem b h = (
  λ l. print_from_lem buffer_size b b.first h l (omega arith),
  λ l n. print_from_endless n b b.first h l,
)
