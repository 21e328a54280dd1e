-- ===== src/Device/Tests.antt =====
-- Codes as Linux packs them, and a FLUSH packet at a server with a command queued.
use sid_pi.Base.{◌+◌, ◌*◌, ◌%◌, ◌≡◌, arith, false, true, [], ◌∷◌}
use sid_pi.Kernel.Sample.{listed, listed-Behaves, driver}
use sid_pi.Server.{ioctl_flush, ioctl_reset}
use sid_pi.Server.Request
use sid_pi.Device.{Ioc, Numbers, perform}
use sid_pi.Device.Flush.{OnlyAsks, queue_plays_on}
use sid_pi.Examples.Samples.{serving, view_of, serving-Shows}

-- direction, size, type and number, from the top
abbrev packed : Ioc
packed = record {
  io = λ t n. t * 256 + n;
  ior = λ t n size. ((0x8000 + size) * 256 + t) * 256 + n;
  iow = λ t n size. ((0x4000 + size) * 256 + t) * 256 + n;
  iowr = λ t n size. ((0xc000 + size) * 256 + t) * 256 + n;
}

packed-Numbers : Numbers packed
packed-Numbers = record {
  ioc_nr = λ code. code % 256;
  io_nr = λ t n h. omega arith;
  ior_nr = λ t n size h. omega arith;
  iow_nr = λ t n size h. omega arith;
  iowr_nr = λ t n size h. omega arith;
}

queue_plays_on_example :
    OnlyAsks
      (serving 1)
      (Request.flush ∷ 7 ∷ 0 ∷ 0 ∷ [])
      ioctl_flush
      (record (view_of 1) { clock = 0 })
    × OnlyAsks (serving 1) (Request.try_reset ∷ 7 ∷ 0 ∷ 1 ∷ 15 ∷ []) ioctl_reset (view_of 1)
    × (perform packed listed false true ioctl_flush (driver (1 ∷ 2 ∷ [])) ≡ driver (1 ∷ 2 ∷ []))
    × ((perform packed listed false true ioctl_reset (driver (1 ∷ 2 ∷ []))).msg_fifo ≡ [])
queue_plays_on_example =
    queue_plays_on packed packed-Numbers listed listed-Behaves false (serving 1) (view_of 1) 7 15
      (driver (1 ∷ 2 ∷ [])) (serving-Shows 1 (omega arith)) (omega arith) (omega arith)
