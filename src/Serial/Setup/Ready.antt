-- ===== src/Serial/Setup/Ready.antt =====
-- What `setup_sid` of serialsid.c leaves behind when it succeeds.
use sid_pi.Base.{
  ℕ, ◌*◌, ◌/◌, ◌%◌, ◌<◌, ◌≡◌, refl, ap, ◌∙◌, arith, true, List, [], ◌∷◌, ◌++◌, ◌==◌, if◌then◌else◌,
  pos,
}
use sid_pi.Pins.{Gpio}
use sid_pi.Pins.Select.{clk, set_mode, set_output}
use sid_pi.Pins.Select.Modes.{Keeps, field, mode_of, mode-set_field}
use sid_pi.Pins.Select.Outputs.{among, output_either, mode-set_mode, set_output-set_field}
use sid_pi.Clock.{Double, is_idle, start_sid_clk, start_sid_clock}
use sid_pi.Setup.{Fates}
use sid_pi.Serial.{ser, sclk, rclk, cs}
use sid_pi.Serial.Setup.{mmap_devices, Process, back, setup_sid}

-- the pins that `setup_sid` hands to `set_output`, in order
abbrev pub lines : List ℕ
lines = ser ∷ rclk ∷ sclk ∷ cs ∷ clk ∷ []

abbrev AllPins : List ℕ → Type 0
AllPins [] = Unit {0}
AllPins (p ∷ ps) = (p < 60) × AllPins ps

module _ {G : Type 0} (io : Gpio G) (law : Keeps io) where
  mode-set_output :
      (p : ℕ) (g : G) (q : ℕ)
      → p < 60
      → q < 60
      → mode_of io law (set_output io p g) q ≡ (if q == p then 1 else mode_of io law g q)
  mode-set_output p g q h l =
      ap (field (3 * (q % 10))) (set_output-set_field io law p g (q / 10) h (omega arith))
      ∙ mode-set_field io law p 1 g q h (omega arith) l

  abbrev each_output : List ℕ → G → G
  each_output [] g = g
  each_output (p ∷ ps) g = each_output ps (set_output io p g)

  mode-each_output :
      (ps : List ℕ) (g : G) (q : ℕ)
      → AllPins ps
      → q < 60
      → mode_of io law (each_output ps g) q ≡ (if among q ps then 1 else mode_of io law g q)
  mode-each_output [] g q t h = refl
  mode-each_output (p ∷ ps) g q t h =
      mode-each_output ps (set_output io p g) q t.1 h
      ∙ ap (λ m. if among q ps then 1 else m) (mode-set_output p g q t.0 h)
      ∙ output_either (q == p) (among q ps) (mode_of io law g q)

  -- With the devices mapped and an idle clock manager, `setup_sid` returns with the clock pin on the function 4, the
  -- four lines of the shift register outputs, each other pin with the function that it had, and the clock programmed by
  -- the stores of the parallel server.
  pub setup_sid-Modes :
      {D : Type 0} (d : Double D) (fates : Fates) (words : List ℕ) (s : Process G) (q : ℕ)
      → (mmap_devices fates s.held).0 ≡ pos 0
      → is_idle words ≡ true
      → q < 60
      → (s' : Process G) × (setup_sid io d fates words s ≡ back s')
        × (mode_of io law s'.pins q
            ≡ (if q == clk then 4 else if among q lines then 1 else mode_of io law s.pins q))
        × (s'.accesses ≡ s.accesses ++ start_sid_clk d 1000000 words)
  unfolding setup_sid start_sid_clock start_sid_clk
  setup_sid-Modes d fates words s q mapped idle h = (
    record {
      held = (mmap_devices fates s.held).1;
      pins = set_mode io clk 4 (each_output lines s.pins);
      accesses = s.accesses ++ start_sid_clk d 1000000 words;
    },
    rw (mapped, idle) refl,
    mode-set_mode io law clk 4 (each_output lines s.pins) q (omega arith) (omega arith) h
        ∙ ap (λ m. if q == clk then 4 else m) (mode-each_output lines s.pins q (omega arith) h),
    refl,
  )
