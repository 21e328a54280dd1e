-- ===== src/Startup/Outcome.antt =====
-- Where `main` gets to.
use sid_pi.Base.{
  ℕ, ◌+◌, ◌-◌, ◌≡◌, refl, sym, ap, subst, arith, true, false, Bool-cases, Option-cases, inl, inr,
  none, some, List, ◌⊎◌, pos,
}
use sid_pi.Fifo.{Malloc, init_fifo}
use sid_pi.Runner.{buffer_size}
use sid_pi.Pins.{Gpio}
use sid_pi.Clock.{Double}
use sid_pi.Setup.{Host, Env, SetUp, back, waiting, setup_sid}
use sid_pi.Startup.Bind.{AllSkipped, Found, bind_first-Found}
use sid_pi.Startup.{
  Address, Bound, at_socket, nowhere, option_refused, bind_first, Machine, Started, left,
  setting_up, accepting, start_network, start, after_setup,
}

no_fifo :
    (m : Malloc) (live : ℕ)
    → m.buffer buffer_size ≡ none
    → init_fifo m (pos buffer_size) live ≡ (none, live)
unfolding init_fifo
no_fifo m live refused = elim (Bool-cases m.struct_given) [
  | inr e ↦ rw e
  | inl e ↦
      rw (e, refused) (ap (λ n. (none, n)) (let back : live + 1 - 1 ≡ live = omega arith in back))
]

module _ {G D : Type 0} (io : Gpio G) (d : Double D) where
  -- All calls of `main` that it tests have succeeded, and `setupSid` has been called on `h`.
  pub record Passed (m : Machine) (s : SetUp G) (env : Env) (h : Host G) : Type 0 where
    pub buffers : (m.read_buffer ≡ true) × (m.write_buffer ≡ true)
    pub addresses : List Address
    pub resolved : m.addresses ≡ some addresses
    pub socket : ℕ
    pub bound : bind_first addresses 0 ≡ at_socket socket
    pub listens : m.listen ≡ true
    pub handles : m.sigaction ≡ true
    pub set_up : setup_sid io d env h ≡ s

  -- The addresses are resolved, and the loop has skipped them all.
  abbrev pub Unbound : Machine → Type 0
  Unbound m = (ps : List Address) × (m.addresses ≡ some ps) × AllSkipped ps

  abbrev pub Reached : Machine → Env → Host G → Started G → Type 0
  Reached m env h (left code n) =
      ((code ≡ 1) × (n ≡ 0) × ((m.read_buffer ≡ false) ⊎ (m.write_buffer ≡ false)))
      ⊎ ((code ≡ 1) × (n ≡ 2))
      ⊎ ((code ≡ 2) × (n ≡ 2) × Unbound m)
  Reached m env h (setting_up h') = Passed m (waiting h') env h
  Reached m env h (accepting h') = Passed m (back h') env h

  after_setup-Reached :
      (m : Machine) (env : Env) (h : Host G) (s : SetUp G)
      → Passed m s env h
      → Reached m env h (after_setup io d s)
  after_setup-Reached m env h (back h') p = p
  after_setup-Reached m env h (waiting h') p = p

  start_network-Reached :
      (m : Machine) (env : Env) (h : Host G) (ps : List Address)
      → m.addresses ≡ some ps
      → (m.read_buffer ≡ true) × (m.write_buffer ≡ true)
      → (b : Bound) → bind_first ps 0 ≡ b
      → Reached m env h (start_network io d m b env h)
  unfolding start_network
  start_network-Reached m env h ps found both (nowhere n) e =
      inr (inr (refl, refl, (ps, found, (subst (Found ps 0) e (bind_first-Found ps 0)).0)))
  start_network-Reached m env h ps found both (option_refused n) e = inr (inl (refl, refl))
  start_network-Reached m env h ps found both (at_socket n) e =
      let ends =
        λ (r : Started G) (eq : start_network io d m (at_socket n) env h ≡ r)
            (p : Reached m env h r).
          subst (Reached m env h) (sym eq) p in
      elim (Bool-cases m.listen) [
        | inr e1 ↦ ends (left 1 2) (rw e1) (inr (inl (refl, refl)))
        | inl e1 ↦ elim (Bool-cases m.sigaction) [
          | inr e2 ↦ ends (left 1 2) (rw (e1, e2)) (inr (inl (refl, refl)))
          | inl e2 ↦ ends (after_setup io d (setup_sid io d env h)) (rw (e1, e2)) (
              after_setup-Reached m env h (setup_sid io d env h) (record {
                buffers = both;
                addresses = ps;
                resolved = found;
                socket = n;
                bound = e;
                listens = e1;
                handles = e2;
                set_up = refl;
              }))
        ]
      ]

  -- `main` gets to the loop over `accept` only past all its tests: both buffers given, the addresses resolved and one
  -- of them bound, `listen` and `sigaction` successful, and `setupSid` returned. If it ends before, then with no buffer in
  -- use and the code 1 after one was refused, with both and the code 2 where no address could be bound, or with
  -- both and the code 1.
  pub start-Reached : (m : Machine) (env : Env) (h : Host G) → Reached m env h (start io d m env h)
  unfolding start
  start-Reached m env h =
      let ends = λ (r : Started G) (eq : start io d m env h ≡ r) (p : Reached m env h r).
        subst (Reached m env h) (sym eq) p in
      elim (Bool-cases m.read_buffer) [
        | inr e ↦ elim (Bool-cases m.write_buffer) [
          | inr e1 ↦ ends (left 1 0) (rw (e, e1)) (inl (refl, refl, inl e))
          | inl e1 ↦ ends (left 1 0) (rw (e, e1)) (inl (refl, refl, inl e))
        ]
        | inl e ↦ elim (Bool-cases m.write_buffer) [
          | inr e1 ↦ ends (left 1 0) (rw (e, e1)) (inl (refl, refl, inr e1))
          | inl e1 ↦ elim (Option-cases m.addresses) [
            | inl none_found ↦ ends (left 1 2) (rw (e, e1, none_found)) (inr (inl (refl, refl)))
            | inr (ps, found) ↦
                ends (start_network io d m (bind_first ps 0) env h) (rw (e, e1, found))
                  (start_network-Reached m env h ps found (e, e1) (bind_first ps 0) refl)
          ]
        ]
      ]

  -- If `initFIFO` fails, as it does where memory for the buffer is refused, `main` goes on to the loop over
  -- `accept` all the same, with `fifo` NULL and no thread.
  pub start_without_fifo :
      (m : Machine) (env : Env) (h : Host G) (ps : List Address) (n : ℕ)
      → m.read_buffer ≡ true
      → m.write_buffer ≡ true
      → m.addresses ≡ some ps
      → bind_first ps 0 ≡ at_socket n
      → m.listen ≡ true
      → m.sigaction ≡ true
      → env.malloc.buffer buffer_size ≡ none
      → h.sid_setup ≡ 0
      → (h' : Host G) × (start io d m env h ≡ accepting h')
        × (h'.fifo ≡ none)
        × (h'.threads ≡ h.threads)
        × (h'.sid_setup ≡ 0)
  unfolding start start_network setup_sid
  start_without_fifo m env h ps n e e1 found bound e2 e3 refused first =
      let none_made = no_fifo env.malloc h.live refused in
      let same : (init_fifo env.malloc (pos buffer_size) h.live).1 ≡ h.live =
        ap (λ p. p.1) none_made in
      (
        record h { fifo = none },
        rw (e, e1, found, bound, e2, e3, first, none_made, same, first),
        refl,
        refl,
        first,
      )
