-- ===== src/Server/Protocol.antt =====
-- What the network protocol asks of the server, apart from buffers and indices: which packets are
-- well formed, what each is answered, and what it does to the queue of commands.
use sid_pi.Base.{
  ℕ, ◌+◌, ◌*◌, ◌%◌, ◌^◌, Bool, true, false, ◌&&◌, Option, none, some, List, [], ◌∷◌, ◌++◌, ltb, leb,
  ◌==◌, if◌then◌else◌, length, take, get_or,
}
use sid_pi.Runner.Commands.{Command}
use sid_pi.Runner.Delay.{sid_delay}
use sid_pi.Server.{Effect, ioctl_flush, ioctl_reset, waited}
use sid_pi.Server.Request
use sid_pi.Server.Answer
use sid_pi.Server.Answer.{protocol_version}
use sid_pi.Server.Decode.{decode, total_cycles}

-- How many data bytes a request has.
pub data Need : Type 0 where
  exactly : ℕ → Need
  -- one command or more, of four bytes
  commands : Need
  -- commands, a delay of two bytes and a register
  commands_and_three : Need
  -- no such request
  nothing : Need

-- by request code
abbrev pub needs_table : List Need
needs_table =
    exactly 0
    ∷ exactly 0
    ∷ exactly 2
    ∷ exactly 1
    ∷ exactly 2
    ∷ commands
    ∷ commands_and_three
    ∷ exactly 0
    ∷ exactly 1
    ∷ exactly 1
    ∷ exactly 0
    ∷ exactly 0
    ∷ exactly 1
    ∷ exactly 1
    ∷ exactly 1
    ∷ []

abbrev pub need : ℕ → Need
need command = get_or needs_table command nothing

abbrev pub fits : Need → ℕ → Bool
fits (exactly k) n = n == k
fits commands n = leb 4 n && (n % 4 == 0)
fits commands_and_three n = n % 4 == 3
fits nothing n = false

-- The answer to a request that is not about the queue.
abbrev pub fixed_answer : ℕ → List ℕ
fixed_answer command =
    if command == Request.try_read
    then Answer.read ∷ 0 ∷ []
    else if command == Request.get_version
    then Answer.version ∷ protocol_version ∷ []
    else if command == Request.get_config_count
    then Answer.count ∷ 1 ∷ []
    else if command == Request.get_config_info
    then Answer.info ∷ 0 ∷ b'S' ∷ b'i' ∷ b'd' ∷ b'P' ∷ b'i' ∷ 0 ∷ 0 ∷ []
    else Answer.ok ∷ []

-- What there is to know of the server between two packets.
pub record View : Type 0 where
  pub queue : List Command
  pub playing : Bool
  pub clock : ℕ

pub record Response : Type 0 where
  pub answer : List ℕ
  pub view : View
  pub effects : List Effect

-- More than half of the room for 2048 commands taken starts playback.
abbrev pub wake : View → View
wake v = record v { playing = if ltb 1024 (length v.queue) then true else v.playing }

abbrev pub advance : ℕ → View → View
advance cycles v = record v { clock = (v.clock + cycles) % 2 ^ 32 }

-- The response to a well-formed request with these data.
abbrev pub respond : ℕ → List ℕ → View → Response
respond command payload v =
    if command == Request.flush
    then record {
      answer = Answer.ok ∷ [];
      view = record v { clock = 0 };
      effects = ioctl_flush ∷ [];
    }
    else if command == Request.try_reset
    then record { answer = Answer.ok ∷ []; view = v; effects = ioctl_reset ∷ [] }
    else if command == Request.try_delay
    then (if length v.queue == 2048
        then record { answer = Answer.busy ∷ []; view = wake v; effects = [] }
        else let cycles = get_or payload 0 0 * 256 + get_or payload 1 0 in
          record {
            answer = Answer.ok ∷ [];
            view = advance cycles (wake v);
            effects = waited (sid_delay cycles) ∷ [];
          })
    else if command == Request.try_write
    then (if ltb (4 * length v.queue + length payload) 8192
        then record {
          answer = Answer.ok ∷ [];
          view =
              advance (total_cycles (decode payload))
                (record (wake v) { queue = v.queue ++ decode payload });
          effects = [];
        }
        else record { answer = Answer.busy ∷ []; view = wake v; effects = [] })
    else record { answer = fixed_answer command; view = v; effects = [] }

-- The response to the bytes received, or none if the server ends. What follows the data that the
-- header announces is not looked at.
abbrev pub serve : List ℕ → View → Option Response
serve (command ∷ sid ∷ high ∷ low ∷ payload) v =
    let n = high * 256 + low in
    if leb n (length payload) && fits (need command) n
    then some (respond command (take n payload) v)
    else none
serve _ v = none
