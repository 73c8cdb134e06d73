-- ===== src/Server/Stopping.antt =====
-- debug_server/src/server.rs: how `handle_breakpoint` ends.
use auxtools.Base.{
  ℕ, zero, suc, ◌<◌, ◌≡◌, refl, Bool, true, false, Option, none, some, List, [], ◌∷◌, arith, length,
  Text, if◌then◌else◌,
}
use auxtools.Server.Messages.{
  Request, disconnect, configured, std_def, pause, current_instruction, catch_runtimes, line_number,
  offset, continue, eval, ContinueKind, BreakpointReason,
}
use auxtools.Server.Session.{Session, ret, panic, M, check_connected, check_stream}
use auxtools.Server.World.{Byond}
use auxtools.Server.Handle.{handle_request}
use auxtools.Server.Loop.{
  recv, take_stacks, new_state, invalidate_stacks, paused_loop, check_condition, pause_execution,
  stop_at, is_false, is_ignored, handle_breakpoint,
}
use auxtools.Server.Quiet.{
  QuietFrom, IsQuiet, bind_quiet, same_quiet, panic_quiet, option_quiet, notify-IsQuiet,
  send_or_disconnect-IsQuiet,
}
use auxtools.Server.Quiet.Requests.{
  CallsAreQuiet, eval_expr-IsQuiet, handle_eval-IsQuiet, handle_request-IsQuiet,
}
use auxtools.Server.Ending.{EndsWith, gave, IsRunning, bind_ends, if_ends}

module _ (b : Byond) (calls : CallsAreQuiet b) where
  invalidate_stacks-IsQuiet : IsQuiet (invalidate_stacks b)
  unfolding invalidate_stacks
  invalidate_stacks-IsQuiet s =
      option_quiet s.state s (panic_quiet s)
        (λ p. option_quiet (take_stacks b s.world) s (panic_quiet s) (λ st. same_quiet s refl))

  new_state-IsQuiet : IsQuiet (new_state b)
  unfolding new_state
  new_state-IsQuiet s =
      option_quiet (take_stacks b s.world) s (panic_quiet s) (λ st. same_quiet s refl)

  -- A request that the loop passes on to `handle_request`.
  handled :
      (rounds : ℕ) (r : Request) (rest : List Request) (s : Session b.World)
      → length (r ∷ rest) < suc rounds
      → ((requests : List Request) (t : Session b.World)
          → t.requests ≡ requests
          → length requests < rounds
          → EndsWith IsRunning (paused_loop b rounds t))
      → EndsWith IsRunning (elim (handle_request b r (record s { requests = rest })) [
        | ret (_, t) ↦ paused_loop b rounds t
        | panic ↦ panic
      ])
  handled rounds r rest s enough loop =
      bind_ends (record s { requests = rest })
        (handle_request-IsQuiet b calls r (record s { requests = rest }))
        (λ _ t shorter. loop t.requests t refl (ground arith))

  paused_loop-EndsWith :
      (rounds : ℕ) (requests : List Request) (s : Session b.World)
      → s.requests ≡ requests
      → length requests < rounds
      → EndsWith IsRunning (paused_loop b rounds s)
  unfolding paused_loop recv
  paused_loop-EndsWith zero requests s e enough = absurd (omega arith)
  paused_loop-EndsWith (suc rounds) [] s e enough =
      rw e (gave ContinueKind.continue (record s { requests = []; state = none }) refl)
  paused_loop-EndsWith (suc rounds) (continue kind ∷ rest) s e enough = rw e (
      bind_ends (record s { requests = rest })
        (send_or_disconnect-IsQuiet _ (record s { requests = rest }))
        (λ _ t shorter. gave kind (record t { state = none }) refl))
  paused_loop-EndsWith (suc rounds) (eval i c context ∷ rest) s e enough = rw e (
      bind_ends (record s { requests = rest })
        (handle_eval-IsQuiet b calls i c context (record s { requests = rest }))
        (λ _ t shorter.
          bind_ends t (invalidate_stacks-IsQuiet t)
            (λ _ u less. paused_loop-EndsWith rounds u.requests u refl (ground arith))))
  paused_loop-EndsWith (suc rounds) (disconnect ∷ rest) s e enough =
      rw e (handled rounds disconnect rest s enough (paused_loop-EndsWith rounds))
  paused_loop-EndsWith (suc rounds) (configured ∷ rest) s e enough =
      rw e (handled rounds configured rest s enough (paused_loop-EndsWith rounds))
  paused_loop-EndsWith (suc rounds) (std_def ∷ rest) s e enough =
      rw e (handled rounds std_def rest s enough (paused_loop-EndsWith rounds))
  paused_loop-EndsWith (suc rounds) (Request.stacks ∷ rest) s e enough =
      rw e (handled rounds Request.stacks rest s enough (paused_loop-EndsWith rounds))
  paused_loop-EndsWith (suc rounds) (pause ∷ rest) s e enough =
      rw e (handled rounds pause rest s enough (paused_loop-EndsWith rounds))
  paused_loop-EndsWith (suc rounds) (current_instruction i ∷ rest) s e enough =
      rw e (handled rounds (current_instruction i) rest s enough (paused_loop-EndsWith rounds))
  paused_loop-EndsWith (suc rounds) (Request.breakpoint_set i c ∷ rest) s e enough =
      rw e (handled rounds (Request.breakpoint_set i c) rest s enough (paused_loop-EndsWith rounds))
  paused_loop-EndsWith (suc rounds) (Request.breakpoint_unset i ∷ rest) s e enough =
      rw e (handled rounds (Request.breakpoint_unset i) rest s enough (paused_loop-EndsWith rounds))
  paused_loop-EndsWith (suc rounds) (catch_runtimes on ∷ rest) s e enough =
      rw e (handled rounds (catch_runtimes on) rest s enough (paused_loop-EndsWith rounds))
  paused_loop-EndsWith (suc rounds) (line_number p o ∷ rest) s e enough =
      rw e (handled rounds (line_number p o) rest s enough (paused_loop-EndsWith rounds))
  paused_loop-EndsWith (suc rounds) (offset p l ∷ rest) s e enough =
      rw e (handled rounds (offset p l) rest s enough (paused_loop-EndsWith rounds))
  paused_loop-EndsWith (suc rounds) (Request.stack_frames i f c ∷ rest) s e enough =
      rw e (handled rounds (Request.stack_frames i f c) rest s enough (paused_loop-EndsWith rounds))
  paused_loop-EndsWith (suc rounds) (Request.scopes i ∷ rest) s e enough =
      rw e (handled rounds (Request.scopes i) rest s enough (paused_loop-EndsWith rounds))
  paused_loop-EndsWith (suc rounds) (Request.variables v ∷ rest) s e enough =
      rw e (handled rounds (Request.variables v) rest s enough (paused_loop-EndsWith rounds))

  if_quiet_at :
      {A : Type 0} (c : Bool) (m n : M b.World A) (s : Session b.World)
      → QuietFrom s (m s)
      → QuietFrom s (n s)
      → QuietFrom s ((if c then m else n) s)
  if_quiet_at true m n s h k = h
  if_quiet_at false m n s h k = k

  check_condition-IsQuiet : (c : Option Text) → IsQuiet (check_condition b c)
  unfolding check_condition
  check_condition-IsQuiet none s = same_quiet s refl
  check_condition-IsQuiet (some c) s = bind_quiet s (eval_expr-IsQuiet b calls (some 0) c s) (λ v t.
      if_quiet_at (is_false b t.world v) _ _ t (same_quiet t refl)
        (bind_quiet t (invalidate_stacks-IsQuiet t) (λ _ u. same_quiet u refl)))

  pause_execution-EndsWith :
      (rounds : ℕ) (reason : BreakpointReason) (s : Session b.World)
      → length s.requests < rounds
      → EndsWith IsRunning (pause_execution b rounds reason s)
  unfolding pause_execution
  pause_execution-EndsWith rounds reason s enough = bind_ends s (notify-IsQuiet _ s) (λ _ t less.
      bind_ends t (send_or_disconnect-IsQuiet _ t)
        (λ _ u fewer. paused_loop-EndsWith rounds u.requests u refl (omega arith)))

  stop_at-EndsWith :
      (rounds : ℕ) (reason : BreakpointReason) (c : Option Text) (s : Session b.World)
      → length s.requests < rounds
      → EndsWith IsRunning (stop_at b rounds reason c s)
  unfolding stop_at
  stop_at-EndsWith rounds reason c s enough = bind_ends s (new_state-IsQuiet s) (λ _ t less.
      bind_ends t (check_condition-IsQuiet c t) (λ stop u fewer.
        if_ends stop _ _ u (pause_execution-EndsWith rounds reason u (omega arith))
          (gave ContinueKind.continue (record u { state = none }) refl)))

  -- At a breakpoint the server does not wait for ever: with more rounds than there are requests in
  -- the channel, `handle_breakpoint` does not run out of rounds, and unless it panics it returns how
  -- to continue, and execution is no longer paused. It was not paused before, and no call of a proc
  -- adds requests.
  pub handle_breakpoint-EndsWith :
      (rounds : ℕ) (at : ℕ × ℕ) (reason : BreakpointReason) (s : Session b.World)
      → s.state ≡ none
      → length s.requests < rounds
      → EndsWith IsRunning (handle_breakpoint b rounds at reason s)
  unfolding handle_breakpoint check_connected
  handle_breakpoint-EndsWith rounds at reason s running enough =
      let t = record s { stream = (check_stream s.stream).1 } in
      if_ends (is_ignored b t (check_stream s.stream).0 reason) _ _ t
        (gave ContinueKind.continue t running) (stop_at-EndsWith rounds reason _ t enough)
