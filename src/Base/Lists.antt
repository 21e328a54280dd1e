-- ===== src/Base/Lists.antt =====
-- C arrays and byte streams as lists measured and indexed by native numbers, under the library's
-- names.
use Prim.Native.Nat.{ℕ, zero, suc, ◌+◌, ◌-◌, ◌<◌, ◌≤◌, min}
use mathlib.Core.Path.{◌≡◌, refl, ap}
use mathlib.Core.Logic.{◌≢◌}
use mathlib.Core.List.{List, [], ◌∷◌, ◌++◌}
use native.Mathlib.Nat.{zero-add, suc-add}
use native.Mathlib.Omega.{arith}

module _ {ℓ} {A : Type ℓ} where
  abbrev pub length : List A → ℕ
  length [] = 0
  length (_ ∷ xs) = suc (length xs)

  abbrev pub get_or : List A → ℕ → A → A
  get_or [] _ d = d
  get_or (x ∷ _) zero _ = x
  get_or (_ ∷ xs) (suc i) d = get_or xs i d

  -- A write out of bounds changes nothing.
  abbrev pub set : List A → ℕ → A → List A
  set [] _ _ = []
  set (_ ∷ xs) zero v = v ∷ xs
  set (x ∷ xs) (suc i) v = x ∷ set xs i v

  abbrev pub take : ℕ → List A → List A
  take zero _ = []
  take (suc n) [] = []
  take (suc n) (x ∷ xs) = x ∷ take n xs

  abbrev pub drop : ℕ → List A → List A
  drop zero xs = xs
  drop (suc n) [] = []
  drop (suc n) (_ ∷ xs) = drop n xs

  abbrev pub replicate : ℕ → A → List A
  replicate zero _ = []
  replicate (suc n) a = a ∷ replicate n a

  pub length-append : (xs ys : List A) → length (xs ++ ys) ≡ length xs + length ys
  length-append [] ys = omega arith
  length-append (x ∷ xs) ys = omega (arith, length-append xs ys)

  pub length-set : (xs : List A) (i : ℕ) (v : A) → length (set xs i v) ≡ length xs
  length-set [] i v = refl
  length-set (x ∷ xs) zero v = refl
  length-set (x ∷ xs) (suc i) v = ap suc (length-set xs i v)

  pub length-replicate : (n : ℕ) (a : A) → length (replicate n a) ≡ n
  length-replicate zero a = refl
  length-replicate (suc n) a = ap suc (length-replicate n a)

  pub get_or-set_self :
      (xs : List A) (i : ℕ) (v d : A) → i < length xs → get_or (set xs i v) i d ≡ v
  get_or-set_self [] i v d h = absurd (omega arith)
  get_or-set_self (x ∷ xs) zero v d h = refl
  get_or-set_self (x ∷ xs) (suc i) v d h = get_or-set_self xs i v d (omega arith)

  pub get_or-set_ne :
      (xs : List A) {i j : ℕ} (v d : A) → i ≢ j → get_or (set xs i v) j d ≡ get_or xs j d
  get_or-set_ne [] v d h = refl
  get_or-set_ne (x ∷ xs) {i = zero} {j = zero} v d h = absurd (h refl)
  get_or-set_ne (x ∷ xs) {i = zero} {j = suc j} v d h = refl
  get_or-set_ne (x ∷ xs) {i = suc i} {j = zero} v d h = refl
  get_or-set_ne (x ∷ xs) {i = suc i} {j = suc j} v d h = get_or-set_ne xs v d (λ e. h (ap suc e))

  pub get_or-drop : (xs : List A) (n k : ℕ) (d : A) → get_or (drop n xs) k d ≡ get_or xs (n + k) d
  get_or-drop xs zero k d = rw zero-add
  get_or-drop [] (suc n) k d = refl
  get_or-drop (x ∷ xs) (suc n) k d = rw suc-add (get_or-drop xs n k d)

  pub drop-drop : (xs : List A) (n k : ℕ) → drop k (drop n xs) ≡ drop (n + k) xs
  drop-drop xs zero k = rw zero-add
  drop-drop [] (suc n) zero = rw suc-add
  drop-drop [] (suc n) (suc k) = rw suc-add
  drop-drop (x ∷ xs) (suc n) k = rw suc-add (drop-drop xs n k)

  pub length-drop : (n : ℕ) (xs : List A) → length (drop n xs) ≡ length xs - n
  length-drop zero xs = omega arith
  length-drop (suc n) [] = omega arith
  length-drop (suc n) (x ∷ xs) = omega (arith, length-drop n xs)

  pub take-set_snoc :
      (xs : List A) (n : ℕ) (x : A)
      → n < length xs
      → take (suc n) (set xs n x) ≡ take n xs ++ (x ∷ [])
  take-set_snoc [] n x h = absurd (omega arith)
  take-set_snoc (y ∷ xs) zero x h = refl
  take-set_snoc (y ∷ xs) (suc n) x h = ap (λ t. y ∷ t) (take-set_snoc xs n x (omega arith))

  pub get_or-take : (xs : List A) (n i : ℕ) (d : A) → i < n → get_or (take n xs) i d ≡ get_or xs i d
  get_or-take xs zero i d h = absurd (omega arith)
  get_or-take [] (suc n) i d h = refl
  get_or-take (x ∷ xs) (suc n) zero d h = refl
  get_or-take (x ∷ xs) (suc n) (suc i) d h = get_or-take xs n i d (omega arith)

  pub length-take : (n : ℕ) (xs : List A) → length (take n xs) ≡ min n (length xs)
  length-take zero xs = omega arith
  length-take (suc n) [] = omega arith
  length-take (suc n) (x ∷ xs) = omega (arith, length-take n xs)

  pub get_or-beyond : (xs : List A) (i : ℕ) (d : A) → length xs ≤ i → get_or xs i d ≡ d
  get_or-beyond [] i d h = refl
  get_or-beyond (x ∷ xs) zero d h = absurd (omega arith)
  get_or-beyond (x ∷ xs) (suc i) d h = get_or-beyond xs i d (omega arith)

  pub take-append : (n : ℕ) (xs ys : List A) → n ≤ length xs → take n (xs ++ ys) ≡ take n xs
  take-append zero xs ys h = refl
  take-append (suc n) [] ys h = absurd (omega arith)
  take-append (suc n) (x ∷ xs) ys h = ap (λ t. x ∷ t) (take-append n xs ys (omega arith))

  pub take-length : (xs : List A) → take (length xs) xs ≡ xs
  take-length [] = refl
  take-length (x ∷ xs) = ap (λ t. x ∷ t) (take-length xs)

-- Every number of the list is a byte.
abbrev pub AreBytes : List ℕ → Type 0
AreBytes [] = Unit {0}
AreBytes (x ∷ xs) = (x < 256) × AreBytes xs

pub AreBytes-drop : (n : ℕ) (xs : List ℕ) → AreBytes xs → AreBytes (drop n xs)
AreBytes-drop zero xs h = h
AreBytes-drop (suc n) [] h = tt
AreBytes-drop (suc n) (x ∷ xs) h = AreBytes-drop n xs h.1

pub AreBytes-get_or : (xs : List ℕ) (i : ℕ) → AreBytes xs → get_or xs i 0 < 256
AreBytes-get_or [] i h = omega arith
AreBytes-get_or (x ∷ xs) zero h = h.0
AreBytes-get_or (x ∷ xs) (suc i) h = AreBytes-get_or xs i h.1
