-- ===== src/Device/Codes.antt =====
-- The codes that the server sends are the ones that the driver knows.
use sid_pi.Base.{
  ℕ, ◌≡◌, ◌≢◌, ◌⊎◌, inl, inr, refl, sym, ap, ◌∙◌, arith, Bool-cases, some, List, [], ◌∷◌, ◌==◌,
  if◌then◌else◌,
}
use sid_pi.Device.{
  Ioc, Numbers, Macro, reset, fifosize, fifofree, sidtype, cardtype, mute, nofilter, flush, delay,
  read, driver_code, server_code, case_of, cases,
}

abbrev number : Macro → ℕ
number reset = 0
number fifosize = 1
number fifofree = 2
number sidtype = 3
number cardtype = 4
number mute = 5
number nofilter = 6
number flush = 7
number delay = 8
number read = 9

-- A macro by its number.
abbrev numbered : ℕ → Macro
numbered n =
    if n == 0
    then reset
    else if n == 1
    then fifosize
    else if n == 2
    then fifofree
    else if n == 3
    then sidtype
    else if n == 4
    then cardtype
    else if n == 5
    then mute
    else if n == 6
    then nofilter
    else if n == 7
    then flush
    else if n == 8
    then delay
    else read

numbered-number : (m : Macro) → numbered (number m) ≡ m
numbered-number reset = refl
numbered-number fifosize = refl
numbered-number fifofree = refl
numbered-number sidtype = refl
numbered-number cardtype = refl
numbered-number mute = refl
numbered-number nofilter = refl
numbered-number flush = refl
numbered-number delay = refl
numbered-number read = refl

abbrev Among : Macro → List Macro → Type 0
Among m [] = ⊥
Among m (n ∷ ms) = (m ≡ n) ⊎ Among m ms

module _ (c : Ioc) (law : Numbers c) where
  open law use {ioc_nr}

  driver_code-number : (m : Macro) → ioc_nr (driver_code c m) ≡ number m
  unfolding driver_code
  driver_code-number reset = law.iow_nr b'S' 0 4 (omega arith)
  driver_code-number fifosize = law.ior_nr b'S' 1 4 (omega arith)
  driver_code-number fifofree = law.ior_nr b'S' 2 4 (omega arith)
  driver_code-number sidtype = law.ior_nr b'S' 3 4 (omega arith)
  driver_code-number cardtype = law.ior_nr b'S' 4 4 (omega arith)
  driver_code-number mute = law.iow_nr b'S' 5 4 (omega arith)
  driver_code-number nofilter = law.iow_nr b'S' 6 4 (omega arith)
  driver_code-number flush = law.io_nr b'S' 7 (omega arith)
  driver_code-number delay = law.iow_nr b'S' 8 4 (omega arith)
  driver_code-number read = law.iowr_nr b'S' 9 4 (omega arith)

  server_code-driver_code : (m : Macro) → server_code c m ≡ driver_code c m
  unfolding server_code driver_code
  server_code-driver_code reset = refl
  server_code-driver_code fifosize = refl
  server_code-driver_code fifofree = refl
  server_code-driver_code sidtype = refl
  server_code-driver_code cardtype = refl
  server_code-driver_code mute = refl
  server_code-driver_code nofilter = refl
  server_code-driver_code flush = refl
  server_code-driver_code delay = refl
  server_code-driver_code read = refl

  -- Two macros with the same code are one.
  driver_code-injective : (m n : Macro) → driver_code c m ≡ driver_code c n → m ≡ n
  driver_code-injective m n e =
      sym (numbered-number m)
      ∙ ap numbered (sym (driver_code-number m) ∙ ap ioc_nr e ∙ driver_code-number n)
      ∙ numbered-number n

  case_of-Among :
      (m : Macro) (ms : List Macro) → Among m ms → case_of c ms (driver_code c m) ≡ some m
  unfolding case_of
  case_of-Among m [] h = absurd h
  case_of-Among m (n ∷ ms) h = elim (Bool-cases (driver_code c m == driver_code c n)) [
    | inl e ↦ rw e (ap some (sym (driver_code-injective m n (ground arith))))
    | inr e ↦
        rw e
          (case_of-Among m ms (still h (λ same. (let p = ap (driver_code c) same in ground arith))))
  ]
    where
      still : (m ≡ n) ⊎ Among m ms → m ≢ n → Among m ms
      still (inl same) apart = absurd (apart same)
      still (inr later) apart = later

  all_cases : (m : Macro) → Among m cases
  all_cases reset = inl refl
  all_cases fifosize = inr (inl refl)
  all_cases fifofree = inr (inr (inl refl))
  all_cases sidtype = inr (inr (inr (inl refl)))
  all_cases cardtype = inr (inr (inr (inr (inl refl))))
  all_cases mute = inr (inr (inr (inr (inr (inl refl)))))
  all_cases nofilter = inr (inr (inr (inr (inr (inr (inl refl))))))
  all_cases flush = inr (inr (inr (inr (inr (inr (inr (inl refl)))))))
  all_cases delay = inr (inr (inr (inr (inr (inr (inr (inr (inl refl))))))))
  all_cases read = inr (inr (inr (inr (inr (inr (inr (inr (inr (inl refl)))))))))

  -- Each request that the server's header names is taken by the driver for the request of that name: `sid_ioctl` comes
  -- to the case of the macro whose code the server sends.
  pub case_of-server_code : (m : Macro) → case_of c cases (server_code c m) ≡ some m
  case_of-server_code m =
      ap (case_of c cases) (server_code-driver_code m) ∙ case_of-Among m cases (all_cases m)
