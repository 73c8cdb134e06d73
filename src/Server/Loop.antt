-- ===== src/Server/Loop.antt =====
-- debug_server/src/server.rs: the loops that take requests from the channel. Each takes the number
-- of rounds that it may make, and returns `none` when they run out: evaluated code may itself pause
-- and take requests, so that the channel is no bound by its form alone.
use auxtools.Base.{
  ℕ, zero, suc, Bool, true, false, not, ◌&&◌, Option, none, some, [], ◌∷◌, Text, if◌then◌else◌,
  lookup, text_eq,
}
use auxtools.Value.{Value, is_truthy}
use auxtools.Debug.{CallStacks, call_stacks}
use auxtools.Server.Variables.{no_references}
use auxtools.Server.Messages.{
  Request, eval, continue, configured, ContinueKind, ack, breakpoint_hit, BreakpointReason,
  breakpoint, runtime, pausing,
}
use auxtools.Server.Session.{
  Session, key_eq, ret, panic, M, ◌>>=◌, ◌>>◌, pure, get, modify, check_connected,
  wait_for_connection, notify, send_or_disconnect,
}
use auxtools.Server.World.{Byond}
use auxtools.Server.Eval.{eval_expr, handle_eval}
use auxtools.Server.Handle.{handle_request}

abbrev is_runtime : BreakpointReason → Bool
is_runtime (runtime _) = true
is_runtime _ = false

-- `try_recv` and `recv`, which differ only in that one does not wait.
unfoldable pub recv : {W : Type 0} → M W (Option Request)
recv s = elim s.requests [
  | [] ↦ ret (none, s)
  | r ∷ rest ↦ ret (some r, record s { requests = rest })
]

abbrev pub clear_state : {W : Type 0} → Session W → Session W
clear_state s = record s { state = none }

module _ (b : Byond) where
  open b use {World, contexts, sleeping, raw_procs, parameter_names, local_names}

  unfoldable pub take_stacks : World → Option CallStacks
  unfolding call_stacks
  take_stacks w = call_stacks raw_procs parameter_names local_names (contexts w) (sleeping w)

  -- `self.state = Some(State::new())`
  unfoldable pub new_state : M World (Unit {0})
  unfolding take_stacks
  new_state s = elim (take_stacks s.world) [
    | none ↦ panic
    | some st ↦
        ret (tt, record s { state = some (record { stacks = st; references = no_references }) })
  ]

  -- `self.state.as_mut().unwrap().invalidate_stacks()`
  unfoldable pub invalidate_stacks : M World (Unit {0})
  unfolding take_stacks
  invalidate_stacks s = elim s.state [
    | none ↦ panic
    | some p ↦ elim (take_stacks s.world) [
      | none ↦ panic
      | some st ↦ ret (tt, record s { state = some (record p { stacks = st }) })
    ]
  ]

  -- The loop of `handle_breakpoint`.
  unfoldable pub paused_loop : (rounds : ℕ) → M World (Option ContinueKind)
  unfolding recv handle_eval handle_request invalidate_stacks send_or_disconnect
  paused_loop zero = pure none
  paused_loop (suc rounds) = recv >>= (λ received. elim received [
    | none ↦ modify clear_state >> pure (some ContinueKind.continue)
    | some (continue kind) ↦ send_or_disconnect ack >> (modify clear_state >> pure (some kind))
    | some (eval frame_id command context) ↦
        handle_eval b frame_id command context >> (invalidate_stacks >> paused_loop rounds)
    | some r ↦ handle_request b r >>= (λ _. paused_loop rounds)
  ])

  abbrev pub is_false : World → Option Value → Bool
  is_false w none = false
  is_false w (some v) = not (is_truthy v)

  -- The condition of a breakpoint, evaluated in frame 0: whether to stop.
  unfoldable pub check_condition : Option Text → M World Bool
  unfolding eval_expr invalidate_stacks
  check_condition none = pure true
  check_condition (some condition) = do
    v ← eval_expr b (some 0) condition
    s ← get
    (if is_false s.world v then pure false else invalidate_stacks >> pure true)

  abbrev pub condition_of : Session World → ℕ × ℕ → BreakpointReason → Option Text
  condition_of s at breakpoint = lookup at s.conditional_breakpoints
  condition_of s at _ = none

  unfoldable pub pause_execution : (rounds : ℕ) → BreakpointReason → M World (Option ContinueKind)
  unfolding paused_loop notify send_or_disconnect
  pause_execution rounds reason = do
    notify (pausing reason)
    send_or_disconnect (breakpoint_hit reason)
    paused_loop rounds

  -- What happens at a breakpoint that is not ignored.
  unfoldable pub stop_at :
      (rounds : ℕ) → BreakpointReason → (condition : Option Text) → M World (Option ContinueKind)
  unfolding new_state check_condition pause_execution
  stop_at rounds reason condition = do
    new_state
    stop ← check_condition condition
    (if stop
        then pause_execution rounds reason
        else modify clear_state >> pure (some ContinueKind.continue))

  -- Without a client, and at a runtime error that is not to be caught, execution goes on.
  abbrev pub is_ignored : Session World → (there : Bool) → BreakpointReason → Bool
  is_ignored s there reason =
      if there then is_runtime reason && not s.should_catch_runtimes else true

  -- `at` is the proc and the bytecode offset of the execution context.
  unfoldable pub handle_breakpoint :
      (rounds : ℕ) (at : ℕ × ℕ) → BreakpointReason → M World (Option ContinueKind)
  unfolding check_connected stop_at
  handle_breakpoint rounds at reason = do
    there ← check_connected
    s ← get
    (if is_ignored s there reason
        then pure (some ContinueKind.continue)
        else stop_at rounds reason (condition_of s at reason))

  -- The loop of `process`. Once a pause is due, `||` leaves out the call for what else is received.
  unfoldable pub process_loop : (rounds : ℕ) (should_pause : Bool) → M World (Option Bool)
  unfolding recv handle_request
  process_loop zero should_pause = pure none
  process_loop (suc rounds) should_pause = recv >>= (λ received. elim received [
    | none ↦ pure (some should_pause)
    | some r ↦
        if should_pause
        then process_loop rounds true
        else handle_request b r >>= (λ pauses. process_loop rounds pauses)
  ])

  unfoldable pub process : (rounds : ℕ) → M World (Option Bool)
  unfolding check_connected process_loop
  process rounds = do
    there ← check_connected
    (if there then process_loop rounds false else pure (some false))

  unfoldable pub configure_loop : (rounds : ℕ) → M World (Option (Unit {0}))
  unfolding recv handle_request send_or_disconnect
  configure_loop zero = pure none
  configure_loop (suc rounds) = recv >>= (λ received. elim received [
    | none ↦ pure (some tt)
    | some configured ↦ send_or_disconnect ack >> pure (some tt)
    | some r ↦ handle_request b r >>= (λ _. configure_loop rounds)
  ])

  unfoldable pub process_until_configured : (rounds : ℕ) → M World (Option (Unit {0}))
  unfolding wait_for_connection configure_loop
  process_until_configured rounds = wait_for_connection >> configure_loop rounds
