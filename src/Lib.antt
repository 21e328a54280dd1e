-- ===== src/Lib.antt =====
-- SidPi drives a MOS 6581 sound chip on the pins of a Raspberry Pi. A server takes packets of the
-- network protocol of ACID64 and queues their commands, each a register, a value and a wait, in a
-- FIFO; the SID thread takes them off, waits, and sets the pins.
--
-- Which file models which part:
-- Base, Bits: Boolean tests, lists, integers and machine words over the native numbers; masks and
--   shifts as remainders and products.
-- Fifo: sidpiserver/src/fifo.c, `struct FIFO` as the record `Fifo` and each function of fifo.h by
--   its name. Fifo.Spec is the bounded queue of bytes it stands for.
-- Runner: sidpiserver/src/sidrunnerthread.c, its globals as the record `Runner`: `sidWrite`, the
--   tests for room, and a round of `sidThread`; Runner.Delay has `delay`, Runner.Tempo a run of
--   rounds against the clock, Runner.Print `empty` and `print_queue`. Runner.Commands says when a
--   FIFO holds whole commands.
-- Server: sidpiserver/src/sidpiserver.c, its globals as the record `Server`, `processReadBuffer`
--   with each case of its switch, `handleWritePacket` and `handleDelayPacket`; an `exit` is the
--   result `exited`. Server.Protocol is the specification of the protocol, without buffers and
--   indices.
-- Kernel: module/src/sidpi.c, the FIFO of the device as the record `Driver`: `writeData`, a round
--   of `sidThread2`; Kernel.Calls has `device_write` and `sid_ioctl`, Kernel.Load loads and
--   unloads. Kernel.Chip has its `generatePinTables`, `writeSidPar` and `setPinsToOutput2`,
--   Kernel.Memory the regions of registers that it maps. Kernel.Threads has many writers at once,
--   with the semaphore `lockWriter`, a byte at a time, as steps in any order, Kernel.Life
--   `sidThread2` from its start to its end, Kernel.Proc the text of /proc/sidpi, Kernel.Client the
--   bytes that `writeSid` of player/app2.js writes to the device.
-- Device: the requests that sidpiserver/src/sidpiserver.c makes of the driver, by the codes in the
--   two headers, through the switch of `sid_ioctl`.
-- Pins: the rows of the pin tables and `writeSid` of sidpiserver/src/sidrunnerthread.c; Pins.Filled
--   has the tables as `generatePinTables` fills them, Pins.Select `setPinsToOutput`, with the tables
--   and macros of sidpiserver/src/rpi.h.
-- Clock: `startSidClk` of sidpiserver/src/sidrunnerthread.c and of module/src/sidpi.c, as the list
--   of the stores to the clock manager and the timer.
-- Setup: `map_peripheral` of sidpiserver/src/rpi.c, `mmapRPIDevices`, `startSidThread` and
--   `setupSid` of sidpiserver/src/sidrunnerthread.c over the record `Host` of what the process
--   holds. Setup.Sounding says what it makes of the hardware, Setup.Block has the size of a mapped block, and what lies in it.
-- Startup: `main` of sidpiserver/src/sidpiserver.c, from its buffers and the socket to the loop
--   over `accept`; a call of the system is a Boolean of the record `Machine`, an event, or a list
--   of results. Startup.Main puts the globals at their first values and joins the set-up to the
--   loop; Startup.Signal has `signal_callback_handler`.
-- Serial: sidpiserver/src/serialsid.c, over the same registers; Serial.Setup has its `setup_sid`,
--   and Serial.Sweep the loops of sidpiserver/src/testsid.c.
-- System: the two threads as steps in any order.
-- Session: the loop of `main` over one connection; Session.Framing, on packets that are not one
--   `read` each.
-- Examples, and the modules Tests: runs at concrete inputs.
--
-- Words are 32 bits, as on the Pi: `unsigned int` and `long` are numbers below 2 ^ 32 with the
-- wrap-around written out, a byte is a number below 256, an `int` is an integer. `malloc`, the
-- kernel FIFO, the macros of <linux/ioctl.h>, the registers of the pins and the doubles, with their
-- documented behaviour, are parameters, and what `read` returns and the clock shows is part of the
-- inputs. A loop recurses on its data or on the number of rounds left, which its caller computes
-- from the bound; nothing runs on fuel.
--
-- The mutex `queue` makes a `sidWrite`, and the four reads of a round of `sidThread`, one step
-- each. `canBufferAccept` and `isBufferHalfFull` read the FIFO without it: in System they see it
-- between two rounds, and System.Amid has them see it amid one. The waits for a busy clock manager
-- follow a list of what it reads; a list without an idle word is a wait that does not end. Not
-- modelled: the messages, `sigchld_handler`, which waits for processes that nothing starts,
-- `get_in_addr`, whose result is only printed, and `getRealSidClock`, whose result is not used.
pub mod Base
pub mod Bits
pub mod Fifo
pub mod Runner
pub mod Server
pub mod System
pub mod Session
pub mod Kernel
pub mod Pins
pub mod Serial
pub mod Clock
pub mod Setup
pub mod Startup
pub mod Examples
pub mod Device
