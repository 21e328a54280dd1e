-- ===== src/Server/Received.antt =====
-- Which bytes of `dataRead` the handler of a packet uses: none behind those that `read` has put there.
use sid_pi.Base.{
  add32, bit_or, bit_and, ◌<<<◌, ℕ, zero, suc, ◌+◌, ◌*◌, ◌/◌, ◌%◌, ◌≤◌, ◌<◌, ◌≡◌, refl, sym, ap,
  ◌∙◌, arith, not, ◌||◌, Bool-cases, inl, inr, List, [], take, get_or, get_or-take, ltb, ◌==◌,
  if◌then◌else◌, pos,
}
use sid_pi.Server.Answer
use sid_pi.Runner.{sid_write, can_buffer_accept}
use sid_pi.Server.{
  Server, Outcome, done, exited, length_exceeds_received, put, write_one, write_from,
  handle_write_packet, handle_delay_packet, start_if_half_full, try_delay, try_write, put_name,
  control_case, queue_case, config_case, dispatch, finish, process_read_buffer,
  invalid_command_exception,
}

-- The server with other bytes in `dataRead`.
abbrev pub with_input : List ℕ → Server → Server
with_input l s = record s { data_read = l }

-- What a handler does but for `dataRead`.
abbrev pub but_input : Outcome → Outcome
but_input (done s) = done (with_input [] s)
but_input (exited c) = exited c

control_case-with_input :
    (command n : ℕ) (l : List ℕ) (s : Server)
    → but_input (control_case command n (with_input l s)) ≡ but_input (control_case command n s)
unfolding control_case put invalid_command_exception
control_case-with_input command n l s = ground arith

config_case-with_input :
    (command n : ℕ) (l : List ℕ) (s : Server)
    → but_input (config_case command n (with_input l s)) ≡ but_input (config_case command n s)
unfolding config_case put put_name invalid_command_exception
config_case-with_input command n l s = ground arith

-- A turn of the loop of `handleWritePacket` by the bytes of the command.
abbrev wrote : (high low reg value next : ℕ) → Server → Server
wrote high low reg value next s = record s {
  input_clock = add32 s.input_clock (bit_or (bit_and high 0xff <<< 8) low);
  runner = sid_write s.runner (bit_and reg 0x1f) value high next;
}

module _ (len : ℕ) (l l' : List ℕ) (received : take len l ≡ take len l') where
  byte_same : (i : ℕ) → i < len → get_or l i 0 ≡ get_or l' i 0
  byte_same i h =
      sym (get_or-take l len i 0 h) ∙ ap (λ t. get_or t i 0) received ∙ get_or-take l' len i 0 h

  -- the commands that are left to write lie in what was received
  write_from-same :
      (rounds i : ℕ) (s : Server)
      → 4 + i + 4 * rounds ≤ len
      → with_input [] (write_from rounds i (with_input l s))
        ≡ with_input [] (write_from rounds i (with_input l' s))
  unfolding write_from write_one
  write_from-same zero i s h = refl
  write_from-same (suc n) i s h =
      let high = byte_same (4 + i) (omega arith) in
      let low = byte_same (4 + i + 1) (omega arith) in
      let reg = byte_same (4 + i + 2) (omega arith) in
      let value = byte_same (4 + i + 3) (omega arith) in
      let next = byte_same (5 + i) (omega arith) in
      let t =
        wrote (get_or l (4 + i) 0) (get_or l (4 + i + 1) 0) (get_or l (4 + i + 2) 0)
          (get_or l (4 + i + 3) 0) (get_or l (5 + i) 0) s in
      write_from-same n (i + 4) t (omega arith) ∙ (λ k. with_input [] (
        write_from n (i + 4) (with_input l' (wrote (high k) (low k) (reg k) (value k) (next k) s))))

  try_delay-same :
      (n : ℕ) (s : Server)
      → 4 + n ≤ len
      → but_input (try_delay n (with_input l s)) ≡ but_input (try_delay n (with_input l' s))
  unfolding try_delay put handle_delay_packet start_if_half_full invalid_command_exception
  try_delay-same n s h = elim (Bool-cases (n == 2)) [
    | inl e ↦
        let two : n ≡ 2 = ground arith in
        let high = byte_same 4 (omega arith) in
        let low = byte_same 5 (omega arith) in rw (e, high, low) (ground arith)
    | inr e ↦ rw e refl
  ]

  try_write-same :
      (n : ℕ) (s : Server)
      → 4 + n ≤ len
      → but_input (try_write n (with_input l s)) ≡ but_input (try_write n (with_input l' s))
  unfolding try_write put start_if_half_full invalid_command_exception handle_write_packet
  try_write-same n s h = elim (Bool-cases (ltb n 4 || not (n % 4 == 0))) [
    | inl e ↦ rw e refl
    | inr e ↦
        let whole : 4 + 0 + 4 * ((n + 3) / 4) ≤ len = ground arith in
        let s1 = start_if_half_full s in
        let written = write_from-same ((n + 3) / 4) 0 s1 whole in
        rw e (elim (Bool-cases (can_buffer_accept s1.runner (pos n))) [
          | inl fits ↦ rw fits (ap (λ t. done (put Answer.ok t)) written)
          | inr full ↦ rw full refl
        ])
  ]

  queue_case-same :
      (command n : ℕ) (s : Server)
      → 4 + n ≤ len
      → but_input (queue_case command n (with_input l s))
        ≡ but_input (queue_case command n (with_input l' s))
  unfolding queue_case put invalid_command_exception
  queue_case-same command n s h = ground (arith, try_delay-same n s h, try_write-same n s h)

  dispatch-same :
      (command n : ℕ) (s : Server)
      → 4 + n ≤ len
      → but_input (dispatch command n (with_input l s))
        ≡ but_input (dispatch command n (with_input l' s))
  unfolding dispatch
  dispatch-same command n s h = ground (
    arith,
    control_case-with_input command n l s,
    control_case-with_input command n l' s,
    queue_case-same command n s h,
    config_case-with_input command n l s,
    config_case-with_input command n l' s,
  )

  finish-same :
      (o o' : Outcome) → but_input o ≡ but_input o' → but_input (finish o) ≡ but_input (finish o')
  unfolding finish
  finish-same (done s) (done s') e = ap rewound e
    where
      rewound : Outcome → Outcome
      rewound (done t) = done (record t { data_read_pos = 0 })
      rewound (exited c) = exited c
  finish-same (done s) (exited c) e = absurd (cc)
  finish-same (exited c) (done s) e = absurd (cc)
  finish-same (exited c) (exited c') e = e

  -- `processReadBuffer` behind its test for four bytes, by the command and the length
  abbrev handled : ℕ → ℕ → Server → Outcome
  handled command n s =
      if ltb len (n + 4)
      then exited length_exceeds_received
      else finish (dispatch command n (record s { data_write_pos = 0 }))

  handled-same :
      (command n : ℕ) (s : Server)
      → but_input (handled command n (with_input l s))
        ≡ but_input (handled command n (with_input l' s))
  handled-same command n s = elim (Bool-cases (ltb len (n + 4))) [
    | inl e ↦ rw e refl
    | inr e ↦
        let t : Server = record s { data_write_pos = 0 } in
        rw e (finish-same _ _ (dispatch-same command n t (ground arith)))
  ]

  -- `processReadBuffer` uses no byte behind those that `read` has put into `dataRead`: whatever stands there, such as the
  -- end of a longer packet before, it ends in the same way, with the same answer, effects, queue and clock.
  pub received_bytes_suffice :
      (s : Server)
      → s.data_read_pos ≡ 0
      → but_input (process_read_buffer len (with_input l s))
        ≡ but_input (process_read_buffer len (with_input l' s))
  unfolding process_read_buffer invalid_command_exception
  received_bytes_suffice s start = elim (Bool-cases (ltb len 4)) [
    | inl e ↦ rw e refl
    | inr e ↦
        let four : 4 ≤ len = ground arith in
        let at = s.data_read_pos in
        let command = byte_same at (omega arith) in
        let high = byte_same (at + 2) (omega arith) in
        let low = byte_same (at + 3) (omega arith) in
        rw e (
          handled-same (get_or l at 0) (bit_or (get_or l (at + 2) 0 <<< 8) (get_or l (at + 3) 0)) s
          ∙ (λ k.
              but_input (handled (command k) (bit_or (high k <<< 8) (low k)) (with_input l' s))))
  ]
