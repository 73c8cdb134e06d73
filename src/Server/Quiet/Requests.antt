-- ===== src/Server/Quiet/Requests.antt =====
-- debug_server/src/server.rs: the channel over `handle_request`. Code that is evaluated may take
-- requests, when it pauses itself, but only the listener's thread adds any.
use auxtools.Base.{ℕ, ◌-◌, refl, true, false, Option, none, some, List, [], ◌∷◌, map, Text, ◌==◌}
use auxtools.Value.{Value, is_list}
use auxtools.Debug.{StackFrame}
use auxtools.Procs.{Proc, get_proc}
use auxtools.Bytecode.{set_bytecode}
use auxtools.Server.Messages.{
  Request, disconnect, configured, std_def, pause, current_instruction, catch_runtimes, line_number,
  offset, continue,
}
use auxtools.Server.Stacks.{get_stack_frame}
use auxtools.Server.Session.{Session, Out}
use auxtools.Server.World.{Byond, Result, ok, err}
use auxtools.Server.Inspect.{stacks_of}
use auxtools.Server.Eval.{
  Arg, commit_from, take_result, report_error, run_stub, set_stub, eval_assembly, eval_with,
  eval_expr, handle_command, handle_eval, frame_args, text_stub,
}
use auxtools.Server.Handle.{handle_request}
use auxtools.Server.Quiet.{
  QuietFrom, IsQuiet, bind_quiet, same_quiet, panic_quiet, option_quiet, if_quiet, notify-IsQuiet,
  send_or_disconnect-IsQuiet,
}
use auxtools.Server.Quiet.Handlers.{
  handle_breakpoint_set-IsQuiet, handle_breakpoint_unset-IsQuiet, run_command-IsQuiet,
  answer_eval-IsQuiet, handle_stacks-IsQuiet, handle_stack_frames-IsQuiet, handle_scopes-IsQuiet,
  handle_variables-IsQuiet,
}

result_quiet :
    {W A X : Type 0} {f : X → Out (A × Session W)} {n : Text → Out (A × Session W)} (o : Result X)
    (s : Session W)
    → ((x : X) → QuietFrom s (f x))
    → ((e : Text) → QuietFrom s (n e))
    → QuietFrom s (elim o [ ok x ↦ f x | err e ↦ n e ])
result_quiet (ok x) s p q = p x
result_quiet (err e) s p q = q e

-- What a call of a proc may not do.
abbrev pub CallsAreQuiet : Byond → Type 0
CallsAreQuiet b = (p : Proc) (args : List Value) → IsQuiet (b.call_proc p args)

module _ (b : Byond) (calls : CallsAreQuiet b) where
  take_result-IsQuiet :
      (c : Text) (f : Option StackFrame) (args : List Arg) (v : Option Value)
      → IsQuiet (take_result b c f args v)
  unfolding take_result
  take_result-IsQuiet c f args none s = bind_quiet s (notify-IsQuiet _ s) (λ _ t. same_quiet t refl)
  take_result-IsQuiet c f args (some list) s =
      if_quiet (is_list list.tag) s
        (option_quiet (commit_from b f args list (b.get_length s.world list - 1) 2 s.world) s
          (panic_quiet s)
          (λ w.
            option_quiet (b.get_assoc_element w list (b.index_value 1)) s (panic_quiet s)
              (λ v. same_quiet s refl)))
        (same_quiet s refl)

  report_error-IsQuiet : IsQuiet (report_error b)
  unfolding report_error
  report_error-IsQuiet s =
      option_quiet s.eval_error s (same_quiet s refl)
        (λ e. notify-IsQuiet _ (record s { eval_error = none }))

  run_stub-IsQuiet :
      (c : Text) (f : Option StackFrame) (args : List Arg) (p : Proc)
      → IsQuiet (run_stub b c f args p)
  unfolding run_stub
  run_stub-IsQuiet c f args p s =
      bind_quiet s (calls p _ (record s { in_eval = true; eval_error = none })) (λ v t.
        bind_quiet t (take_result-IsQuiet c f args v t) (λ r u.
          bind_quiet u (report_error-IsQuiet (record u { in_eval = false }))
            (λ _ w. same_quiet w refl)))

  set_stub-IsQuiet : (p : Proc) (words : List ℕ) → IsQuiet (set_stub b p words)
  unfolding set_stub
  set_stub-IsQuiet p words s =
      option_quiet (set_bytecode p.id words (b.fresh_buffer s.world) s.bytecodes) s (panic_quiet s)
        (λ code. same_quiet s refl)

  eval_assembly-IsQuiet :
      (c : Text) (f : Option StackFrame) (args : List Arg) (words : List ℕ)
      → IsQuiet (eval_assembly b c f args words)
  unfolding eval_assembly
  eval_assembly-IsQuiet c f args words s =
      option_quiet (get_proc s.procs text_stub) s
        (bind_quiet s (notify-IsQuiet _ s) (λ _ t. same_quiet t refl))
        (λ p. bind_quiet s (set_stub-IsQuiet p words s) (λ _. run_stub-IsQuiet c f args p))

  eval_with-IsQuiet :
      (c : Text) (f : Option StackFrame) (args : List Arg) → IsQuiet (eval_with b c f args)
  unfolding eval_with
  eval_with-IsQuiet c f args s =
      result_quiet (b.compile_expr c (map (λ (a : Arg). a.0) args)) s
        (λ e.
          result_quiet (b.assemble s.world e).0 s
            (λ words.
              eval_assembly-IsQuiet c f args words (record s { world = (b.assemble s.world e).1 }))
            (λ m.
              bind_quiet s (notify-IsQuiet _ (record s { world = (b.assemble s.world e).1 }))
                (λ _ t. same_quiet t refl)))
        (λ e. bind_quiet s (notify-IsQuiet _ s) (λ _ t. same_quiet t refl))

  pub eval_expr-IsQuiet : (i : Option ℕ) (c : Text) → IsQuiet (eval_expr b i c)
  unfolding eval_expr
  eval_expr-IsQuiet none c s = eval_with-IsQuiet c none [] s
  eval_expr-IsQuiet (some i) c s =
      option_quiet (get_stack_frame (stacks_of s) i) s
        (bind_quiet s (notify-IsQuiet _ s) (λ _ t. same_quiet t refl))
        (λ f. eval_with-IsQuiet c (some f) (frame_args f) s)

  handle_command-IsQuiet : (i : Option ℕ) (c : Text) → IsQuiet (handle_command b i c)
  unfolding handle_command
  handle_command-IsQuiet i c s =
      result_quiet (b.parse_command c) s (λ k. run_command-IsQuiet b i k s) (λ m. same_quiet s refl)

  pub handle_eval-IsQuiet :
      (i : Option ℕ) (c : Text) (context : Option Text) → IsQuiet (handle_eval b i c context)
  unfolding handle_eval
  handle_eval-IsQuiet i [] context s =
      bind_quiet s (eval_expr-IsQuiet i [] s) (answer_eval-IsQuiet b context)
  handle_eval-IsQuiet i (c ∷ rest) context s =
      if_quiet (c == b'#') s
        (bind_quiet s (handle_command-IsQuiet i rest s) (λ r. send_or_disconnect-IsQuiet _))
        (bind_quiet s (eval_expr-IsQuiet i (c ∷ rest) s) (answer_eval-IsQuiet b context))

  pub handle_request-IsQuiet : (r : Request) → IsQuiet (handle_request b r)
  unfolding handle_request
  handle_request-IsQuiet disconnect s = panic_quiet s
  handle_request-IsQuiet (catch_runtimes on) s = same_quiet s refl
  handle_request-IsQuiet (Request.breakpoint_set i c) s =
      bind_quiet s (handle_breakpoint_set-IsQuiet b i c s) (λ _ t. same_quiet t refl)
  handle_request-IsQuiet (Request.breakpoint_unset i) s =
      bind_quiet s (handle_breakpoint_unset-IsQuiet b i s) (λ _ t. same_quiet t refl)
  handle_request-IsQuiet Request.stacks s =
      bind_quiet s (handle_stacks-IsQuiet b s) (λ _ t. same_quiet t refl)
  handle_request-IsQuiet (Request.scopes i) s =
      bind_quiet s (handle_scopes-IsQuiet b i s) (λ _ t. same_quiet t refl)
  handle_request-IsQuiet (Request.variables v) s =
      bind_quiet s (handle_variables-IsQuiet b v s) (λ _ t. same_quiet t refl)
  handle_request-IsQuiet (Request.eval i c context) s =
      bind_quiet s (handle_eval-IsQuiet i c context s) (λ _ t. same_quiet t refl)
  handle_request-IsQuiet (Request.stack_frames i f c) s =
      bind_quiet s (handle_stack_frames-IsQuiet b i f c s) (λ _ t. same_quiet t refl)
  handle_request-IsQuiet (line_number p o) s =
      bind_quiet s (send_or_disconnect-IsQuiet _ s) (λ _ t. same_quiet t refl)
  handle_request-IsQuiet (offset p l) s =
      bind_quiet s (send_or_disconnect-IsQuiet _ s) (λ _ t. same_quiet t refl)
  handle_request-IsQuiet pause s =
      bind_quiet s (send_or_disconnect-IsQuiet _ s) (λ _ t. same_quiet t refl)
  handle_request-IsQuiet std_def s =
      bind_quiet s (send_or_disconnect-IsQuiet _ s) (λ _ t. same_quiet t refl)
  handle_request-IsQuiet (current_instruction i) s =
      bind_quiet s (send_or_disconnect-IsQuiet _ s) (λ _ t. same_quiet t refl)
  handle_request-IsQuiet configured s =
      bind_quiet s (send_or_disconnect-IsQuiet _ s) (λ _ t. same_quiet t refl)
  handle_request-IsQuiet (continue k) s =
      bind_quiet s (send_or_disconnect-IsQuiet _ s) (λ _ t. same_quiet t refl)
