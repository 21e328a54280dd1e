-- ===== src/Kernel/Calls.antt =====
-- module/src/sidpi.c: the entries of the device file, `device_write` and `sid_ioctl`.
use sid_pi.Base.{
  ℕ, ◌+◌, ◌-◌, ◌*◌, ◌/◌, ◌^◌, Bool, true, false, not, List, [], ◌∷◌, length, ◌==◌, if◌then◌else◌,
  bit_and, add32, sub32,
}
use sid_pi.Kernel.{Kfifo, Driver, Wake, Written, returned, waiting, write_data}

-- What a call on the device file returns, by the name of the number.
pub data Status : Type 0 where
  -- `iSize` of `device_write`
  size : ℕ → Status
  -- 0
  zero_returned : Status
  -- `OK`, which is 1 in sidpi.h
  ok_returned : Status
  -- what `put_user` of this number returns
  put_user : ℕ → Status
  efault epipe enomem erestartsys eio : Status

-- How the calls of the kernel go in a `device_write`.
pub record Fortune : Type 0 where
  -- `pFile->private_data` is not NULL
  pub has_device : Bool
  -- `kmalloc` gives the buffer
  pub allocated : Bool
  -- `copy_from_user` copies all
  pub copied : Bool
  -- `down_interruptible(&g_sidDevice.lockWriter)` is not interrupted
  pub locked : Bool
  -- the waits of `writeData`
  pub wakes : List Wake

-- The outcome of a call that may still be asleep in `writeData`, with the buffers of `kmalloc` in use
-- on its return.
pub data Called (F : Type 0) : Type 0 where
  answered : Status → ℕ → Driver F → Called F
  blocked : List ℕ → Driver F → Called F

abbrev pub after_write : {F : Type 0} → Status → ℕ → Written F → Called F
after_write status live (returned d) = answered status live d
after_write status live (waiting rest d) = blocked rest d

-- The requests of `sid_ioctl`, by the name of the macro.
pub data Request : Type 0 where
  reset fifosize fifofree sidtype cardtype mute nofilter flush read unknown : Request
  -- with the argument `arg`, an `unsigned long`
  delay : ℕ → Request

-- `buf` of the request SID_IOCTL_DELAY
abbrev pub delay_bytes : ℕ → List ℕ
delay_bytes arg = 0 ∷ 255 ∷ bit_and arg 0xff ∷ bit_and arg 0xff00 / 2 ^ 8 ∷ []

module _ {F : Type 0} (k : Kfifo F) (speedfix : Bool) where
  -- `device_write`, with the user's `bytes` and `live` buffers in use.
  unfoldable pub device_write : Fortune → List ℕ → ℕ → Driver F → Called F
  device_write w bytes live d =
      if not w.has_device
      then answered epipe live d
      else if length bytes == 0
      then answered efault live d
      else if not w.allocated
      then answered enomem live d
      else if not w.copied
      then answered efault (live + 1 - 1) d
      else let d1 = record d { unprocessed = add32 d.unprocessed (length bytes) } in
        if w.locked
        then after_write (size (length bytes)) (live + 1 - 1)
            (write_data k speedfix w.wakes bytes d1)
        else answered erestartsys (live + 1 - 1)
            (record d1 { unprocessed = sub32 d1.unprocessed (length bytes) })

  -- `sid_ioctl`, on a file whose `private_data` is NULL or not.
  unfoldable pub sid_ioctl : Bool → List Wake → Request → Driver F → Called F
  sid_ioctl false ws request d = answered eio 0 d
  sid_ioctl true ws reset d = answered ok_returned 0 (record d { msg_fifo = k.clear d.msg_fifo })
  sid_ioctl true ws fifosize d = answered (put_user (8192 * 2 ^ 2)) 0 d
  sid_ioctl true ws fifofree d = answered zero_returned 0 d
  sid_ioctl true ws sidtype d = answered zero_returned 0 d
  sid_ioctl true ws cardtype d = answered zero_returned 0 d
  sid_ioctl true ws (delay arg) d =
      if arg == 0
      then answered ok_returned 0 d
      else after_write ok_returned 0 (write_data k speedfix ws (delay_bytes arg) d)
  sid_ioctl true ws mute d = answered ok_returned 0 d
  sid_ioctl true ws nofilter d = answered ok_returned 0 d
  sid_ioctl true ws flush d = answered ok_returned 0 d
  sid_ioctl true ws read d = answered ok_returned 0 d
  sid_ioctl true ws unknown d = answered ok_returned 0 d

-- `device_open`, on an inode with a device or not: what it returns, and whether `private_data` is one then.
-- `cdev` is the first member of `struct SidDevice`, so `container_of` keeps the address.
abbrev pub device_open : Bool → Status × Bool
device_open i_cdev = (zero_returned, i_cdev)

-- `device_release` and `device_read`, which reads nothing
abbrev pub device_release : Status
device_release = zero_returned

abbrev pub device_read : ℕ → Status
device_read length = zero_returned
