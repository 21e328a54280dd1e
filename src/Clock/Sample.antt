-- ===== src/Clock/Sample.antt =====
-- Exact quotients in the place of the doubles.
use sid_pi.Base.{ℕ, ◌*◌, ◌/◌, ◌≡◌, arith}
use sid_pi.Clock.{Double, IsPrecise}

-- a quotient as its two numbers
abbrev pub fractions : Double (ℕ × ℕ)
fractions = record {
  of_int = λ n. (n, 1);
  mul = λ x y. (x.0 * y.0, x.1 * y.1);
  div = λ x y. (x.0 * y.1, x.1 * y.0);
  to_int = λ x. x.0 / x.1;
}

pub fractions-IsPrecise : IsPrecise fractions
fractions-IsPrecise = record { cut = λ a b c h l. by_one (a * b) c }
  where
    by_one : (n c : ℕ) → n * 1 / (1 * 1 * c) ≡ n / c
    by_one n c =
        let e : n * 1 ≡ n = omega arith in let e' : 1 * 1 * c ≡ c = omega arith in rw (e, e')
