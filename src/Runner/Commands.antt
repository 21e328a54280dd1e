-- ===== src/Runner/Commands.antt =====
-- Commands as the FIFO of the SID thread carries them: four bytes each.
use sid_pi.Base.{
  ℕ, ◌+◌, ◌*◌, ◌≤◌, ◌<◌, ◌≡◌, refl, sym, ap, ◌∙◌, arith, List, [], ◌∷◌, ◌++◌, length, u8,
}
use sid_pi.Fifo.{Fifo}
use sid_pi.Fifo.Contents.{length-contents}
use sid_pi.Fifo.Ends.{Has}
use sid_pi.Runner.{buffer_size}

-- One command: the four bytes that `sidWrite` puts into the FIFO.
pub record Command : Type 0 where
  pub reg : ℕ
  pub value : ℕ
  pub cycle_high : ℕ
  pub cycle_low : ℕ

pub record IsBytes (c : Command) : Type 0 where
  pub reg_byte : c.reg < 256
  pub value_byte : c.value < 256
  pub high_byte : c.cycle_high < 256
  pub low_byte : c.cycle_low < 256

abbrev pub cycles_of : Command → ℕ
cycles_of c = c.cycle_high * 256 + c.cycle_low

abbrev pub encode : List Command → List ℕ
encode [] = []
encode (c ∷ cs) = c.reg ∷ c.value ∷ c.cycle_high ∷ c.cycle_low ∷ encode cs

abbrev pub AllBytes : List Command → Type 0
AllBytes [] = Unit {0}
AllBytes (c ∷ cs) = IsBytes c × AllBytes cs

-- The FIFO holds exactly the commands `cs`, none of them torn.
pub record Holds (f : Fifo) (cs : List Command) : Type 0 where
  pub has : Has f buffer_size (encode cs)
  pub byte_sized : AllBytes cs

pub length-encode : (cs : List Command) → length (encode cs) ≡ 4 * length cs
length-encode [] = refl
length-encode (c ∷ cs) = omega (arith, length-encode cs)

pub encode-append : (cs ds : List Command) → encode (cs ++ ds) ≡ encode cs ++ encode ds
encode-append [] ds = refl
encode-append (c ∷ cs) ds =
    ap (λ t. c.reg ∷ c.value ∷ c.cycle_high ∷ c.cycle_low ∷ t) (encode-append cs ds)

pub AllBytes-append : (cs ds : List Command) → AllBytes cs → AllBytes ds → AllBytes (cs ++ ds)
AllBytes-append [] ds h k = k
AllBytes-append (c ∷ cs) ds h k = (h.0, AllBytes-append cs ds h.1 k)

pub Holds-count : {f : Fifo} (cs : List Command) → Holds f cs → f.fifo_count ≡ 4 * length cs
Holds-count {f} cs h = sym (length-contents f) ∙ ap length h.has.bytes ∙ length-encode cs

pub Holds-bound : {f : Fifo} (cs : List Command) → Holds f cs → length cs ≤ 2048
Holds-bound cs h = omega (arith, Holds-count cs h, h.has.sized, h.has.valid.count_in)

-- `sidWrite` takes its arguments as `UINT8`s.
abbrev pub command : ℕ → ℕ → ℕ → ℕ → Command
command reg value cycle_high cycle_low = record {
  reg = u8 reg;
  value = u8 value;
  cycle_high = u8 cycle_high;
  cycle_low = u8 cycle_low;
}

pub command-IsBytes : (a b c d : ℕ) → IsBytes (command a b c d)
command-IsBytes a b c d = omega arith
