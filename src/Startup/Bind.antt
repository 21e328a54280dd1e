-- ===== src/Startup/Bind.antt =====
-- Which address `main` ends up with.
use sid_pi.Base.{
  ℕ, ◌+◌, ◌-◌, ◌≡◌, refl, sym, ap, subst, arith, Bool, true, false, not, ◌&&◌, ◌||◌, Bool-cases,
  inl, inr, List, [], ◌∷◌, ◌++◌,
}
use sid_pi.Startup.{Address, Bound, at_socket, nowhere, option_refused, bind_first}

-- An address that the loop goes on from.
abbrev pub is_skipped : Address → Bool
is_skipped p = not p.socket || (p.setsockopt && not p.bind)

abbrev pub AllSkipped : List Address → Type 0
AllSkipped [] = Unit {0}
AllSkipped (p ∷ ps) = (is_skipped p ≡ true) × AllSkipped ps

-- What the loop has found, by its result.
abbrev pub Found : List Address → ℕ → Bound → Type 0
Found ps opened (nowhere n) = AllSkipped ps × (n ≡ opened)
Found ps opened (at_socket n) =
    (before : List Address) × (p : Address) × (rest : List Address) × (ps ≡ before ++ (p ∷ rest))
    × AllSkipped before
    × (p.socket ≡ true)
    × (p.setsockopt ≡ true)
    × (p.bind ≡ true)
    × (n ≡ opened + 1)
Found ps opened (option_refused n) =
    (before : List Address) × (p : Address) × (rest : List Address) × (ps ≡ before ++ (p ∷ rest))
    × AllSkipped before
    × (p.socket ≡ true)
    × (p.setsockopt ≡ false)
    × (n ≡ opened + 1)

Found-skip :
    (p : Address) (ps : List Address) (opened : ℕ) (b : Bound)
    → is_skipped p ≡ true
    → Found ps opened b
    → Found (p ∷ ps) opened b
Found-skip p ps opened (nowhere n) h (all, e) = ((h, all), e)
Found-skip p ps opened (at_socket n) h (before, q, rest, e, all, a, b, c, m) =
    (p ∷ before, q, rest, ap (λ t. p ∷ t) e, (h, all), a, b, c, m)
Found-skip p ps opened (option_refused n) h (before, q, rest, e, all, a, b, m) =
    (p ∷ before, q, rest, ap (λ t. p ∷ t) e, (h, all), a, b, m)

-- The loop over the addresses ends at the first on which `socket`, `setsockopt` and `bind` all succeed, with one
-- socket more open than before; or behind the last, none left open, if it skips them all; or it exits at
-- the first on which only `setsockopt` fails.
pub bind_first-Found : (ps : List Address) (opened : ℕ) → Found ps opened (bind_first ps opened)
unfolding bind_first
bind_first-Found [] opened = (tt, refl)
bind_first-Found (p ∷ ps) opened =
    let rest = bind_first-Found ps opened in
    let same : opened + 1 - 1 ≡ opened = omega arith in
    let ends = λ (b : Bound) (e : bind_first (p ∷ ps) opened ≡ b) (f : Found (p ∷ ps) opened b).
      subst (Found (p ∷ ps) opened) (sym e) f in
    elim (Bool-cases p.socket) [
      | inr e ↦
          ends (bind_first ps opened) (rw e)
            (Found-skip p ps opened (bind_first ps opened) (rw e) rest)
      | inl e ↦ elim (Bool-cases p.setsockopt) [
        | inr e1 ↦
            ends (option_refused (opened + 1)) (rw (e, e1)) ([], p, ps, refl, tt, e, e1, refl)
        | inl e1 ↦ elim (Bool-cases p.bind) [
          | inr e2 ↦
              ends (bind_first ps opened) (rw (e, e1, e2, same))
                (Found-skip p ps opened (bind_first ps opened) (rw (e, e1, e2)) rest)
          | inl e2 ↦
              ends (at_socket (opened + 1)) (rw (e, e1, e2)) ([], p, ps, refl, tt, e, e1, e2, refl)
        ]
      ]
    ]
