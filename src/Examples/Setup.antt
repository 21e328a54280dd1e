-- ===== src/Examples/Setup.antt =====
-- `setupSid` on a heap that gives what it is asked for, with devices that can be mapped.
use sid_pi.Base.{
  ◌≡◌, refl, sym, ap, ◌∙◌, arith, true, false, none, some, [], ◌∷◌, length, length-replicate,
  replicate, pos,
}
use sid_pi.Fifo.{Malloc}
use sid_pi.Runner.{Runner}
use sid_pi.System.{System, thread, later, start, round}
use sid_pi.System.Inv.{Inv}
use sid_pi.Fifo.Init.{GivesSize}
use sid_pi.Pins.{write_sid}
use sid_pi.Pins.Words.{of_words}
use sid_pi.Setup.Words.{AllWords, server_words}
use sid_pi.Clock.{start_sid_clk}
use sid_pi.Pins.Sample.{Board, board, board-Keeps, high}
use sid_pi.Clock.Sample.{fractions, fractions-IsPrecise}
use sid_pi.Setup.{Host, Env, Fate, mmap_rpi_devices, setup_sid}
use sid_pi.Setup.Ready.{HasMemory, setup_sid-Up, setup_sid-Inv}
use sid_pi.Examples.Samples.{idle, early, late}

abbrev pub plenty : Malloc
plenty = record { struct_given = true; buffer = λ n. some (replicate n 0xaa) }

pub plenty-HasMemory : HasMemory plenty
plenty-HasMemory = record { sizes = sizes; given = refl; block = replicate 8192 0xaa; found = refl }
  where
    sizes : GivesSize plenty
    sizes n block e =
        let same : replicate n 0xaa ≡ block = cc in ap length (sym same) ∙ length-replicate n 0xaa

abbrev pub works : Fate
works = record { opened = true; mapped = true }

abbrev pub all_well : Env
all_well = record {
  malloc = plenty;
  fates = record { of_gpio = works; of_clock = works; of_timer = works };
  words = 0x81 ∷ 1 ∷ [];
  thread_result = 0;
}

-- no memory, nothing mapped, and the clock busy
abbrev ill : Env
ill = record {
  malloc = record { struct_given = true; buffer = λ n. none };
  fates = record {
    of_gpio = record { opened = false; mapped = false };
    of_clock = works;
    of_timer = works;
  };
  words = [];
  thread_result = 11;
}

abbrev pub at_boot : Host Board
at_boot = record {
  fifo = none;
  live = 0;
  held = [];
  sid_setup = 0;
  running = 0;
  threads = 0;
  tables = record { data_table = replicate 256 0; addr_table = replicate 32 0 };
  pins = high;
  accesses = [];
}

pub all_mapped : (mmap_rpi_devices all_well.fates at_boot.held).0 ≡ pos 0
unfolding mmap_rpi_devices
all_mapped = refl

abbrev serving : Runner → System
serving r = record { runner = r; todo = []; accepted = []; sounds = [] }

-- the FIFO as `setupSid` has left it, after a round of the SID thread
setup_sid-Inv_example : (r : Runner) × Inv r (round early late (serving r))
setup_sid-Inv_example =
    let (s', e, up, same) =
      setup_sid-Up board fractions all_well all_well at_boot plenty-HasMemory all_mapped refl refl
        refl in
    let r : Runner = record idle { fifo = up.queue } in
    (
      r,
      setup_sid-Inv board fractions all_well at_boot s' r (round early late (serving r))
          plenty-HasMemory refl e up.fifo_at (omega arith) (later start (thread early late)),
    )

-- the chip at the frequency of a PAL computer
server_words_example :
    (setup_sid (of_words board) fractions all_well at_boot
      ≡ setup_sid board fractions all_well at_boot)
    × (write_sid (of_words board) 24 15 high ≡ write_sid board 24 15 high)
    × AllWords (start_sid_clk fractions 985248 all_well.words)
server_words_example =
    server_words board fractions board-Keeps.load_word all_well at_boot 24 15 985248 high
      fractions-IsPrecise (omega arith) (omega arith)
