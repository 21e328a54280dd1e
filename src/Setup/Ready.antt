-- ===== src/Setup/Ready.antt =====
-- What `setupSid` leaves behind when it succeeds, and when it fails.
use mathlib.Core.Option.{some-injective}
use sid_pi.Base.{
  ℕ, ◌+◌, ◌<◌, ◌^◌, ◌≡◌, refl, sym, ap, ◌∙◌, subst, arith, true, Bool-cases, inl, inr, Option, some,
  List, [], ◌++◌, ◌==◌, if◌then◌else◌, pos, negsuc,
}
use sid_pi.Fifo.{Fifo, Malloc, init_fifo}
use sid_pi.Fifo.Init.{GivesSize, init_iff_power, init-IsValid}
use sid_pi.Runner.{Runner, buffer_size}
use sid_pi.Runner.Commands.{Holds}
use sid_pi.Pins.{Gpio}
use sid_pi.Pins.Filled.{generate_pin_tables}
use sid_pi.Pins.Select.{set_pins_to_output}
use sid_pi.Clock.{Double, is_idle, start_sid_clk}
use sid_pi.Setup.{
  Host, Env, SetUp, back, waiting, mmap_rpi_devices, setup_sid, start_chip, start_sid_thread,
  is_minus_one,
}
use sid_pi.System.{System, Reach}
use sid_pi.System.Inv.{Inv, Reach-Inv}

-- Both calls of `malloc` succeed, and give what they are asked for.
pub record HasMemory (m : Malloc) : Type 0 where
  pub sizes : GivesSize m
  pub given : m.struct_given ≡ true
  pub block : List ℕ
  pub found : m.buffer buffer_size ≡ some block

-- A new FIFO, and that it holds no command.
pub record Fresh (m : Malloc) (live : ℕ) : Type 0 where
  pub queue : Fifo
  pub made : init_fifo m (pos buffer_size) live ≡ (some queue, live + 2)
  pub holds : Holds queue []

pub init-Fresh : (m : Malloc) (live : ℕ) → HasMemory m → Fresh m live
init-Fresh m live h =
    let (f, made) =
      (init_iff_power m buffer_size live h.block h.given h.found).1 ((13, refl), omega arith) in
    let (valid, sized, empty) = init-IsValid m (pos buffer_size) live h.sizes made in
    record {
      queue = f;
      made = made;
      holds = record {
        has = record { valid = valid; sized = (let s = sized in ground arith); bytes = empty };
        byte_sized = tt;
      };
    }

module _ {G D : Type 0} (io : Gpio G) (d : Double D) where
  -- What there is of `s` after a success.
  pub record Up (env : Env) (s s' : Host G) : Type 0 where
    pub queue : Fifo
    pub fifo_at : s'.fifo ≡ some queue
    pub empty : Holds queue []
    pub set : s'.sid_setup ≡ 1
    pub thread_on : s'.running ≡ 1
    pub one_thread : s'.threads ≡ s.threads + (if env.thread_result == 0 then 1 else 0)
    pub tables_set : s'.tables ≡ generate_pin_tables
    pub outputs_set : s'.pins ≡ set_pins_to_output io s.pins
    pub clock_set : s'.accesses ≡ s.accesses ++ start_sid_clk d 1000000 env.words
    pub blocks : s'.live ≡ s.live + 2

  -- A first `setupSid` in which all goes well, and any call after it.
  pub setup_sid-Up :
      (env again : Env) (s : Host G)
      → HasMemory env.malloc
      → (mmap_rpi_devices env.fates s.held).0 ≡ pos 0
      → is_idle env.words ≡ true
      → s.sid_setup ≡ 0
      → s.running ≡ 0
      → (s' : Host G) × (setup_sid io d env s ≡ back s')
        × Up env s s'
        × (setup_sid io d again s' ≡ back s')
  unfolding setup_sid start_chip start_sid_thread
  setup_sid-Up env again s memory mapped idle first off =
      let fresh = init-Fresh env.malloc s.live memory in
      let two : (init_fifo env.malloc (pos buffer_size) s.live).1 ≡ s.live + 2 =
        ap (λ p. p.1) fresh.made in
      (
        record {
          fifo = some fresh.queue;
          live = s.live + 2;
          held = (mmap_rpi_devices env.fates s.held).1;
          sid_setup = 1;
          running = 1;
          threads = s.threads + (if env.thread_result == 0 then 1 else 0);
          tables = generate_pin_tables;
          pins = set_pins_to_output io s.pins;
          accesses = s.accesses ++ start_sid_clk d 1000000 env.words;
        },
        rw (first, fresh.made, mapped, idle, off, two),
        record {
          queue = fresh.queue;
          fifo_at = refl;
          empty = fresh.holds;
          set = refl;
          thread_on = refl;
          one_thread = refl;
          tables_set = refl;
          outputs_set = refl;
          clock_set = refl;
          blocks = refl;
        },
        refl,
      )

  -- If a device cannot be mapped, `setupSid` returns without a thread, with the pins as they were and not set
  -- up, but keeps the FIFO, so each further try takes two blocks more.
  pub setup_sid_unmapped :
      (env : Env) (s : Host G)
      → HasMemory env.malloc
      → (mmap_rpi_devices env.fates s.held).0 ≡ negsuc 0
      → s.sid_setup ≡ 0
      → (s' : Host G) × (setup_sid io d env s ≡ back s')
        × (s'.sid_setup ≡ 0)
        × (s'.threads ≡ s.threads)
        × (s'.pins ≡ s.pins)
        × (s'.live ≡ s.live + 2)
  unfolding setup_sid
  setup_sid_unmapped env s memory failed first =
      let fresh = init-Fresh env.malloc s.live memory in
      let two : (init_fifo env.malloc (pos buffer_size) s.live).1 ≡ s.live + 2 =
        ap (λ p. p.1) fresh.made in
      (
        record s {
          fifo = some fresh.queue;
          live = s.live + 2;
          held = (mmap_rpi_devices env.fates s.held).1;
        },
        rw (first, fresh.made, failed, two, first),
        first,
        refl,
        refl,
        refl,
      )

  abbrev pub fifo_of : SetUp G → Option Fifo
  fifo_of (back s) = s.fifo
  fifo_of (waiting s) = s.fifo

  pub fifo-setup_sid :
      (env : Env) (s : Host G) (fresh : Fresh env.malloc s.live)
      → s.sid_setup ≡ 0
      → fifo_of (setup_sid io d env s) ≡ some fresh.queue
  unfolding setup_sid start_chip start_sid_thread
  fifo-setup_sid env s fresh first =
      rw (first, fresh.made)
        (elim (Bool-cases (is_minus_one (mmap_rpi_devices env.fates s.held).0)) [
          | inl e ↦ rw e
          | inr e ↦ rw e (elim (Bool-cases (is_idle env.words)) [
            | inr e1 ↦ rw e1
            | inl e1 ↦
                rw e1 (elim (Bool-cases (s.running == 0)) [ inl e2 ↦ rw e2 | inr e2 ↦ rw e2 ])
          ])
        ])

  -- On the FIFO that a first `setupSid` with memory has left, however its other calls went, the two threads
  -- of the server keep their invariant: from a clock of 32 bits on, in every state that they reach the
  -- chip has been told the commands of the accepted packets once and in order, and none is torn or lost.
  pub setup_sid-Inv :
      (env : Env) (s s' : Host G) (r : Runner) (t : System)
      → HasMemory env.malloc
      → s.sid_setup ≡ 0
      → setup_sid io d env s ≡ back s'
      → s'.fifo ≡ some r.fifo
      → r.current_clock < 2 ^ 32
      → Reach r t
      → Inv r t
  setup_sid-Inv env s s' r t memory first e at small reach =
      let fresh = init-Fresh env.malloc s.live memory in
      let same : some fresh.queue ≡ some r.fifo =
        sym (fifo-setup_sid env s fresh first) ∙ ap fifo_of e ∙ at in
      Reach-Inv (subst (λ f. Holds f []) (some-injective _ _ same) fresh.holds) small reach
