-- ===== src/Device.antt =====
-- The server and the driver of /dev/sid together: the requests of sidpiserver/src/sidpiserver.h by their codes, which
-- `sid_ioctl` of module/src/sidpi.c takes apart by those of module/src/sidpi.h.
pub mod Codes
pub mod Flush
mod Tests
use sid_pi.Base.{
  ℕ, ◌<◌, ◌≡◌, ◌==◌, if◌then◌else◌, Bool, true, false, Option, none, some, List, [], ◌∷◌,
}
use sid_pi.Kernel.{Kfifo, Driver}
use sid_pi.Kernel.Calls.{Request, Called, answered, blocked, sid_ioctl}
use sid_pi.Server.{Effect, ioctl_flush, ioctl_reset, waited}

-- What the macros of `<linux/ioctl.h>` make of a type, a number and a size.
pub record Ioc : Type 0 where
  pub io : ℕ → ℕ → ℕ
  pub ior : ℕ → ℕ → ℕ → ℕ
  pub iow : ℕ → ℕ → ℕ → ℕ
  pub iowr : ℕ → ℕ → ℕ → ℕ

-- Their documented behaviour: `_IOC_NR` gives the number back.
pub record Numbers (c : Ioc) : Type 0 where
  pub ioc_nr : ℕ → ℕ
  pub io_nr : (t n : ℕ) → n < 256 → ioc_nr (c.io t n) ≡ n
  pub ior_nr : (t n size : ℕ) → n < 256 → ioc_nr (c.ior t n size) ≡ n
  pub iow_nr : (t n size : ℕ) → n < 256 → ioc_nr (c.iow t n size) ≡ n
  pub iowr_nr : (t n size : ℕ) → n < 256 → ioc_nr (c.iowr t n size) ≡ n

-- `SID_IOCTL_RESET` and so on, which both headers define.
pub data Macro : Type 0 where
  reset fifosize fifofree sidtype cardtype mute nofilter flush delay read : Macro

module _ (c : Ioc) where
  -- The codes by sidpi.h; an `int` and a pointer have four bytes.
  unfoldable pub driver_code : Macro → ℕ
  driver_code reset = c.iow b'S' 0 4
  driver_code fifosize = c.ior b'S' 1 4
  driver_code fifofree = c.ior b'S' 2 4
  driver_code sidtype = c.ior b'S' 3 4
  driver_code cardtype = c.ior b'S' 4 4
  driver_code mute = c.iow b'S' 5 4
  driver_code nofilter = c.iow b'S' 6 4
  driver_code flush = c.io b'S' 7
  driver_code delay = c.iow b'S' 8 4
  driver_code read = c.iowr b'S' 9 4

  -- The codes by sidpiserver.h.
  unfoldable pub server_code : Macro → ℕ
  server_code reset = c.iow b'S' 0 4
  server_code fifosize = c.ior b'S' 1 4
  server_code fifofree = c.ior b'S' 2 4
  server_code sidtype = c.ior b'S' 3 4
  server_code cardtype = c.ior b'S' 4 4
  server_code mute = c.iow b'S' 5 4
  server_code nofilter = c.iow b'S' 6 4
  server_code flush = c.io b'S' 7
  server_code delay = c.iow b'S' 8 4
  server_code read = c.iowr b'S' 9 4

  -- `switch (cmd)` of `sid_ioctl`: the first of these cases that fits
  unfoldable pub case_of : List Macro → ℕ → Option Macro
  case_of [] cmd = none
  case_of (m ∷ ms) cmd = if cmd == driver_code m then some m else case_of ms cmd

-- the cases of `sid_ioctl`, in their order
abbrev pub cases : List Macro
cases =
    reset ∷ fifosize ∷ fifofree ∷ sidtype ∷ cardtype ∷ mute ∷ nofilter ∷ flush ∷ delay ∷ read ∷ []

-- The request of a case, with the argument of the call.
abbrev pub request : ℕ → Option Macro → Request
request arg none = Request.unknown
request arg (some delay) = Request.delay arg
request arg (some reset) = Request.reset
request arg (some fifosize) = Request.fifosize
request arg (some fifofree) = Request.fifofree
request arg (some sidtype) = Request.sidtype
request arg (some cardtype) = Request.cardtype
request arg (some mute) = Request.mute
request arg (some nofilter) = Request.nofilter
request arg (some flush) = Request.flush
request arg (some read) = Request.read

abbrev pub driver_after : {F : Type 0} → Called F → Driver F
driver_after (answered status live d) = d
driver_after (blocked rest d) = d

module _ (c : Ioc) {F : Type 0} (k : Kfifo F) (speedfix : Bool) where
  -- What an `ioctl` of the server does to the driver, on a `sidfd` that is open or not; NULL is 0.
  unfoldable pub perform : Bool → Effect → Driver F → Driver F
  perform false e d = d
  perform true ioctl_flush d =
      driver_after
        (sid_ioctl k speedfix true [] (request 0 (case_of c cases (server_code c flush))) d)
  perform true ioctl_reset d =
      driver_after
        (sid_ioctl k speedfix true [] (request 0 (case_of c cases (server_code c reset))) d)
  perform true (waited w) d = d
