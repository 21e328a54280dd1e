-- ===== src/Server/Refine/Cases.antt =====
-- The `switch` of `processReadBuffer`, case by case.
use sid_pi.Base.{
  ℕ, zero, suc, ◌%◌, ◌≤◌, ◌≡◌, refl, sym, arith, not, none, some, List, [], ◌∷◌, append-nil, length,
  ◌==◌, if◌then◌else◌, get_or-beyond,
}
use sid_pi.Server.{
  Server, Outcome, exited, unsupported_command, ioctl_flush, ioctl_reset, off_by_three, dispatch,
}
use sid_pi.Server.Request
use sid_pi.Server.Answer
use sid_pi.Server.Answer.{protocol_version}
use sid_pi.Server.Protocol.{View, nothing, needs_table, need, fits, respond}
use sid_pi.Server.Reply.{puts}
use sid_pi.Server.Refine.Relation.{Agrees, check_length, puts-Answered, data_write_size}
use sid_pi.Server.Refine.Playback.{Ready, payload, try_delay-Agrees, try_write-Agrees}

-- What the handler of `command` has to answer to `n` data bytes.
abbrev pub Handles : Server → View → ℕ → ℕ → Outcome → Type 0
Handles s v command n o =
    Agrees s o (if fits (need command) n then some (respond command (payload s n) v) else none)

off_by_three_lem : (n : ℕ) → off_by_three n ≡ not (n % 4 == 3)
off_by_three_lem n = ground arith

dispatch_unsupported : (c n : ℕ) (s : Server) → 15 ≤ c → dispatch c n s ≡ exited unsupported_command
unfolding dispatch
dispatch_unsupported c n s h = ground arith

module _ (s : Server) (v : View) (n : ℕ) (r : Ready s v n) where
  -- A case that only answers.
  answer_only :
      (bs : List ℕ)
      → length bs ≤ data_write_size
      → Agrees s (Outcome.done (puts bs s)) (some (record { answer = bs; view = v; effects = [] }))
  answer_only bs fit = puts-Answered s s v [] bs r.shows (sym (append-nil s.effects)) r.start fit

  flush_case : Handles s v Request.flush n (dispatch Request.flush n s)
  unfolding dispatch
  flush_case = check_length s (n == 0) _ _ _ λ _.
      puts-Answered s _ (record v { clock = 0 }) (ioctl_flush ∷ []) (Answer.ok ∷ [])
        (record {
          holds = r.shows.holds;
          plays = r.shows.plays;
          clocks = refl;
          clock_fits = omega arith;
          room = r.shows.room;
          read_at = r.shows.read_at;
          input = r.shows.input;
        })
        refl r.start (omega arith)

  reset_case : Handles s v Request.try_reset n (dispatch Request.try_reset n s)
  unfolding dispatch
  reset_case = check_length s (n == 1) _ _ _ λ _.
      puts-Answered s _ v (ioctl_reset ∷ []) (Answer.ok ∷ [])
        (record {
          holds = r.shows.holds;
          plays = r.shows.plays;
          clocks = r.shows.clocks;
          clock_fits = r.shows.clock_fits;
          room = r.shows.room;
          read_at = r.shows.read_at;
          input = r.shows.input;
        })
        refl r.start (omega arith)

  read_case : Handles s v Request.try_read n (dispatch Request.try_read n s)
  unfolding dispatch
  read_case =
      rw (off_by_three_lem n)
        (check_length s (n % 4 == 3) _ _ _ λ _. answer_only (Answer.read ∷ 0 ∷ []) (omega arith))

  delay_case : Handles s v Request.try_delay n (dispatch Request.try_delay n s)
  unfolding dispatch
  delay_case = try_delay-Agrees s v n r

  write_case : Handles s v Request.try_write n (dispatch Request.try_write n s)
  unfolding dispatch
  write_case = try_write-Agrees s v n r

  try_set_sid_count_case :
      Handles s v Request.try_set_sid_count n (dispatch Request.try_set_sid_count n s)
  unfolding dispatch
  try_set_sid_count_case =
      check_length s (n == 0) _ _ _ λ _. answer_only (Answer.ok ∷ []) (omega arith)

  mute_case : Handles s v Request.mute n (dispatch Request.mute n s)
  unfolding dispatch
  mute_case = check_length s (n == 2) _ _ _ λ _. answer_only (Answer.ok ∷ []) (omega arith)

  get_version_case : Handles s v Request.get_version n (dispatch Request.get_version n s)
  unfolding dispatch
  get_version_case =
      check_length s (n == 0) _ _ _
        λ _. answer_only (Answer.version ∷ protocol_version ∷ []) (omega arith)

  try_set_sampling_case :
      Handles s v Request.try_set_sampling n (dispatch Request.try_set_sampling n s)
  unfolding dispatch
  try_set_sampling_case =
      check_length s (n == 1) _ _ _ λ _. answer_only (Answer.ok ∷ []) (omega arith)

  try_set_clocking_case :
      Handles s v Request.try_set_clocking n (dispatch Request.try_set_clocking n s)
  unfolding dispatch
  try_set_clocking_case =
      check_length s (n == 1) _ _ _ λ _. answer_only (Answer.ok ∷ []) (omega arith)

  get_config_count_case :
      Handles s v Request.get_config_count n (dispatch Request.get_config_count n s)
  unfolding dispatch
  get_config_count_case =
      check_length s (n == 0) _ _ _ λ _. answer_only (Answer.count ∷ 1 ∷ []) (omega arith)

  get_config_info_case :
      Handles s v Request.get_config_info n (dispatch Request.get_config_info n s)
  unfolding dispatch
  get_config_info_case = check_length s (n == 0) _ _ _ λ _.
      answer_only (Answer.info ∷ 0 ∷ b'S' ∷ b'i' ∷ b'd' ∷ b'P' ∷ b'i' ∷ 0 ∷ 0 ∷ []) (omega arith)

  set_sid_position_case :
      Handles s v Request.set_sid_position n (dispatch Request.set_sid_position n s)
  unfolding dispatch
  set_sid_position_case =
      check_length s (n == 1) _ _ _ λ _. answer_only (Answer.ok ∷ []) (omega arith)

  set_sid_level_case : Handles s v Request.set_sid_level n (dispatch Request.set_sid_level n s)
  unfolding dispatch
  set_sid_level_case = check_length s (n == 1) _ _ _ λ _. answer_only (Answer.ok ∷ []) (omega arith)

  try_set_sid_model_case :
      Handles s v Request.try_set_sid_model n (dispatch Request.try_set_sid_model n s)
  unfolding dispatch
  try_set_sid_model_case =
      check_length s (n == 1) _ _ _ λ _. answer_only (Answer.ok ∷ []) (omega arith)

  unsupported_case : (c : ℕ) → 15 ≤ c → Handles s v c n (dispatch c n s)
  unfolding dispatch
  unsupported_case c beyond =
      let none_such : need c ≡ nothing = get_or-beyond needs_table c nothing beyond in
      rw (dispatch_unsupported c n s beyond, none_such) tt

  -- Every request is handled as the protocol asks.
  pub dispatch-Handles : (c : ℕ) → Handles s v c n (dispatch c n s)
  dispatch-Handles zero = flush_case
  dispatch-Handles (suc zero) = try_set_sid_count_case
  dispatch-Handles (suc (suc zero)) = mute_case
  dispatch-Handles (suc (suc (suc zero))) = reset_case
  dispatch-Handles (suc (suc (suc (suc zero)))) = delay_case
  dispatch-Handles (suc (suc (suc (suc (suc zero))))) = write_case
  dispatch-Handles (suc (suc (suc (suc (suc (suc zero)))))) = read_case
  dispatch-Handles (suc (suc (suc (suc (suc (suc (suc zero))))))) = get_version_case
  dispatch-Handles (suc (suc (suc (suc (suc (suc (suc (suc zero)))))))) = try_set_sampling_case
  dispatch-Handles (suc (suc (suc (suc (suc (suc (suc (suc (suc zero))))))))) =
      try_set_clocking_case
  dispatch-Handles (suc (suc (suc (suc (suc (suc (suc (suc (suc (suc zero)))))))))) =
      get_config_count_case
  dispatch-Handles (suc (suc (suc (suc (suc (suc (suc (suc (suc (suc (suc zero))))))))))) =
      get_config_info_case
  dispatch-Handles (suc (suc (suc (suc (suc (suc (suc (suc (suc (suc (suc (suc zero)))))))))))) =
      set_sid_position_case
  dispatch-Handles
        (suc (suc (suc (suc (suc (suc (suc (suc (suc (suc (suc (suc (suc zero))))))))))))) =
      set_sid_level_case
  dispatch-Handles
        (suc (suc (suc (suc (suc (suc (suc (suc (suc (suc (suc (suc (suc (suc zero)))))))))))))) =
      try_set_sid_model_case
  dispatch-Handles
        (suc
          (suc (suc (suc (suc (suc (suc (suc (suc (suc (suc (suc (suc (suc (suc c))))))))))))))) =
      unsupported_case _ (omega arith)
