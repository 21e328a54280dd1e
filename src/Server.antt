-- ===== src/Server.antt =====
-- sidpiserver/src/sidpiserver.c: the globals, the handler of one packet and its helpers. A call of
-- `exit` ends the program, as the result `exited`.
pub mod Request
pub mod Answer
pub mod Decode
pub mod Write
pub mod Protocol
pub mod Reply
pub mod Received
pub mod Refine
use sid_pi.Base.{
  ℕ, zero, suc, ◌+◌, ◌-◌, ◌*◌, ◌/◌, ◌%◌, ◌^◌, bit_and, bit_or, Bool, true, false, not, ◌||◌, List,
  [], ◌∷◌, ◌++◌, ℤ, pos, negsuc, ltb, ◌==◌, if◌then◌else◌, get_or, set, take, drop, length, u8,
  add32, ◌<<<◌, to_int,
}
use sid_pi.Runner.{
  Runner, sid_write, start_playback, can_buffer_accept, is_buffer_half_full, get_buffer_full,
}
use sid_pi.Runner.Delay.{Wait, sid_delay}
use Answer.{protocol_version}

-- What a handler does outside the globals, in order.
pub data Effect : Type 0 where
  -- `ioctl(sidfd, SID_IOCTL_FLUSH, NULL)`
  ioctl_flush : Effect
  -- `ioctl(sidfd, SID_IOCTL_RESET, NULL)`
  ioctl_reset : Effect
  waited : Wait → Effect

-- The globals that a handler reads or writes. `inputClock` is a 32-bit `long`, as its bit pattern.
pub record Server : Type 0 where
  pub data_read : List ℕ
  pub data_write : List ℕ
  pub data_write_pos : ℕ
  pub data_read_pos : ℕ
  pub input_clock : ℕ
  pub effects : List Effect
  pub runner : Runner

-- The texts that `invalidCommandException` prints; `needs n` is the one about the data of request `n`.
pub data Complaint : Type 0 where
  packet_too_short : Complaint
  length_exceeds_received : Complaint
  needs : ℕ → Complaint
  unsupported_command : Complaint

pub data Outcome : Type 0 where
  done : Server → Outcome
  -- `exit(-1)`
  exited : Complaint → Outcome

unfoldable pub invalid_command_exception : Complaint → Outcome
invalid_command_exception message = exited message

-- `dataRead[i]`
abbrev pub byte_at : Server → ℕ → ℕ
byte_at s i = get_or s.data_read i 0

-- `dataWrite[dataWritePos++] = byte`
unfoldable pub put : ℕ → Server → Server
put byte s = record s {
  data_write = set s.data_write s.data_write_pos byte;
  data_write_pos = s.data_write_pos + 1;
}

-- the bytes `(high << 8) | low`
abbrev pub pair_at : Server → ℕ → ℕ
pair_at s i = bit_or (bit_and (byte_at s i) 0xff <<< 8) (byte_at s (i + 1))

abbrev add_effect : Effect → Server → Server
add_effect e s = record s { effects = s.effects ++ (e ∷ []) }

-- The body of the loop of `handleWritePacket`. Its local `sid`, bits 5 to 7 of `reg`, is not used.
unfoldable pub write_one : ℕ → Server → Server
write_one i s =
    let write_cycles = pair_at s (4 + i) in
    let reg = bit_and (byte_at s (4 + i + 2)) 0x1f in
    let value = byte_at s (4 + i + 3) in
    record s {
      input_clock = add32 s.input_clock write_cycles;
      runner = sid_write s.runner reg value (byte_at s (4 + i)) (byte_at s (5 + i));
    }

-- `for (i = 0; i < dataLength; i += 4)`, from `i` on with so many rounds left
unfoldable pub write_from : ℕ → ℕ → Server → Server
unfolding write_one
write_from zero i s = s
write_from (suc rounds) i s = write_from rounds (i + 4) (write_one i s)

unfoldable pub handle_write_packet : ℕ → Server → Server
unfolding write_from
handle_write_packet data_length s = write_from ((data_length + 3) / 4) 0 s

unfoldable pub handle_delay_packet : ℕ → Server → Server
handle_delay_packet cycles s =
    add_effect (waited (sid_delay cycles)) (record s { input_clock = add32 s.input_clock cycles })

-- `if (isBufferHalfFull()) startPlayback();`
unfoldable pub start_if_half_full : Server → Server
start_if_half_full s = record s {
  runner = if is_buffer_half_full s.runner then start_playback s.runner else s.runner;
}

abbrev pub non_zero : ℤ → Bool
non_zero (pos n) = not (n == 0)
non_zero (negsuc n) = true

-- `case TRY_DELAY`
unfoldable pub try_delay : ℕ → Server → Outcome
unfolding put handle_delay_packet start_if_half_full invalid_command_exception
try_delay data_length s =
    if not (data_length == 2)
    then invalid_command_exception (needs Request.try_delay)
    else let s1 = start_if_half_full s in
      if non_zero (get_buffer_full s1.runner)
      then done (put Answer.busy s1)
      else done (put Answer.ok (handle_delay_packet (pair_at s1 4) s1))

-- `case TRY_WRITE`
unfoldable pub try_write : ℕ → Server → Outcome
unfolding put handle_write_packet start_if_half_full invalid_command_exception
try_write data_length s =
    if ltb data_length 4 || not (data_length % 4 == 0)
    then invalid_command_exception (needs Request.try_write)
    else let s1 = start_if_half_full s in
      if not (can_buffer_accept s1.runner (pos data_length))
      then done (put Answer.busy s1)
      else done (put Answer.ok (handle_write_packet data_length s1))

-- `(dataLength - 3) % 4 != 0` in `int`: below 3 the difference is -3, -2 or -1, and so is the remainder.
abbrev off_by_three : ℕ → Bool
off_by_three data_length = if ltb data_length 3 then true else not ((data_length - 3) % 4 == 0)

-- `strcpy(dataWrite + dataWritePos, SID_PI); dataWritePos += sizeof SID_PI;`
unfoldable pub put_name : Server → Server
unfolding put
put_name s = put 0 (put b'i' (put b'P' (put b'd' (put b'i' (put b'S' s)))))

-- A case that checks the length of the data and answers with one byte.
abbrev simple : ℕ → ℕ → ℕ → Server → Outcome
simple request needed data_length s =
    if not (data_length == needed)
    then invalid_command_exception (needs request)
    else done (put Answer.ok s)

-- The cases about the chip as such: FLUSH, TRY_SET_SID_COUNT, MUTE, TRY_RESET.
unfoldable pub control_case : ℕ → ℕ → Server → Outcome
unfolding put invalid_command_exception
control_case command data_length s =
    if command == Request.flush
    then (if not (data_length == 0)
        then invalid_command_exception (needs Request.flush)
        else done (put Answer.ok (record (add_effect ioctl_flush s) { input_clock = 0 })))
    else if command == Request.try_set_sid_count
    then simple Request.try_set_sid_count 0 data_length s
    else if command == Request.mute
    then simple Request.mute 2 data_length s
    else (if not (data_length == 1)
        then invalid_command_exception (needs Request.try_reset)
        else done (put Answer.ok (add_effect ioctl_reset s)))

-- The cases that queue or read: TRY_DELAY, TRY_WRITE, TRY_READ.
unfoldable pub queue_case : ℕ → ℕ → Server → Outcome
unfolding put try_delay try_write invalid_command_exception
queue_case command data_length s =
    if command == Request.try_delay
    then try_delay data_length s
    else if command == Request.try_write
    then try_write data_length s
    else (if off_by_three data_length
        then invalid_command_exception (needs Request.try_read)
        else done (put 0 (put Answer.read s)))

-- The cases about the configuration, and `default`. The text for TRY_SET_SID_MODEL is that of
-- SET_SID_LEVEL.
unfoldable pub config_case : ℕ → ℕ → Server → Outcome
unfolding put put_name invalid_command_exception
config_case command data_length s =
    if command == Request.get_version
    then (if not (data_length == 0)
        then invalid_command_exception (needs Request.get_version)
        else done (put protocol_version (put Answer.version s)))
    else if command == Request.try_set_sampling
    then simple Request.try_set_sampling 1 data_length s
    else if command == Request.try_set_clocking
    then simple Request.try_set_clocking 1 data_length s
    else if command == Request.get_config_count
    then (if not (data_length == 0)
        then invalid_command_exception (needs Request.get_config_count)
        else done (put 1 (put Answer.count s)))
    else if command == Request.get_config_info
    then (if not (data_length == 0)
        then invalid_command_exception (needs Request.get_config_info)
        else done (put 0 (put_name (put 0 (put Answer.info s)))))
    else if command == Request.set_sid_position
    then simple Request.set_sid_position 1 data_length s
    else if command == Request.set_sid_level
    then simple Request.set_sid_level 1 data_length s
    else if command == Request.try_set_sid_model
    then simple Request.set_sid_level 1 data_length s
    else invalid_command_exception unsupported_command

-- The `switch (command)`.
unfoldable pub dispatch : ℕ → ℕ → Server → Outcome
unfolding control_case queue_case config_case
dispatch command data_length s =
    if ltb command Request.try_delay
    then control_case command data_length s
    else if ltb command Request.get_version
    then queue_case command data_length s
    else config_case command data_length s

-- the end of `processReadBuffer`, which a call of `exit` does not reach
unfoldable pub finish : Outcome → Outcome
finish (done s) = done (record s { data_read_pos = 0 })
finish (exited c) = exited c

-- `(dataRead[dataReadPos + 2] << 8) | dataRead[dataReadPos + 3]`
abbrev pub length_field : Server → ℕ
length_field s = bit_or (byte_at s (s.data_read_pos + 2) <<< 8) (byte_at s (s.data_read_pos + 3))

-- `len` is the count that `read` returned. The `clientTimeDifference` is computed and not used.
unfoldable pub process_read_buffer : ℕ → Server → Outcome
unfolding invalid_command_exception finish dispatch
process_read_buffer len s =
    if ltb len 4
    then invalid_command_exception packet_too_short
    else let command = byte_at s s.data_read_pos in
      let data_length = length_field s in
      if ltb len (data_length + 4)
      then invalid_command_exception length_exceeds_received
      else finish (dispatch command data_length (record s { data_write_pos = 0 }))
