-- ===== src/Server/Quiet/Handlers.antt =====
-- debug_server/src/server.rs: the channel over the handlers that evaluate no code.
use auxtools.Base.{ℕ, refl, Option, none, some, List, ◌∷◌, arith, Text}
use auxtools.Value.{Value}
use auxtools.Hooking.{
  Hooked, ok, invalid_offset, Hooks, hook_instruction, unhook_instruction, get_hooked_offsets,
}
use auxtools.Server.Messages.{InstructionRef, Variable}
use auxtools.Server.Stacks.{get_stack_frame, get_stack}
use auxtools.Server.Variables.{
  Variables, arguments, locals, object_vars, list_contents, list_pair, get_variables,
}
use auxtools.Server.Session.{Session, Out, panic}
use auxtools.Server.World.{Byond, Command, disassemble, guest_override, mem_profiler, other}
use auxtools.Server.Inspect.{Res, good, bad, stacks_of}
use auxtools.Server.Breakpoints.{
  find_override, code_of, handle_breakpoint_set, handle_breakpoint_unset, unhook_all, hook_all,
  handle_disassemble,
}
use auxtools.Server.Eval.{run_command, answer_eval}
use auxtools.Server.Handle.{
  stack_names, handle_stacks, handle_stack_frames, handle_scopes, answer_members, answer_variables,
  handle_variables,
}
use auxtools.Server.Quiet.{
  QuietFrom, IsQuiet, bind_quiet, same_quiet, panic_quiet, option_quiet, notify-IsQuiet,
  send_or_disconnect-IsQuiet,
}
use auxtools.Server.Quiet.Members.{
  value_to_variables_ref-IsQuiet, value_to_variable-IsQuiet, list_to_variables-IsQuiet,
  object_to_variables-IsQuiet, get_args-IsQuiet, get_locals-IsQuiet,
}

hooked_quiet :
    {W A : Type 0} {f : Hooks → Out (A × Session W)} {n : Out (A × Session W)} (o : Hooked)
    (s : Session W)
    → ((h : Hooks) → QuietFrom s (f h))
    → QuietFrom s n
    → QuietFrom s (elim o [ ok h ↦ f h | invalid_offset ↦ n | Hooked.panic ↦ panic ])
hooked_quiet (ok h) s p q = p h
hooked_quiet invalid_offset s p q = q
hooked_quiet Hooked.panic s p q = panic_quiet s

module _ (b : Byond) where
  pub handle_breakpoint_set-IsQuiet :
      (i : InstructionRef) (c : Option Text) → IsQuiet (handle_breakpoint_set b i c)
  unfolding handle_breakpoint_set
  handle_breakpoint_set-IsQuiet i c s =
      option_quiet (find_override s i.proc.path i.proc.override_id) s
        (send_or_disconnect-IsQuiet _ s)
        (λ p.
          hooked_quiet (hook_instruction b.disassembler s.hooks (code_of s p) i.offset) s
            (λ h. send_or_disconnect-IsQuiet _ _) (send_or_disconnect-IsQuiet _ s))

  pub handle_breakpoint_unset-IsQuiet : (i : InstructionRef) → IsQuiet (handle_breakpoint_unset b i)
  unfolding handle_breakpoint_unset
  handle_breakpoint_unset-IsQuiet i s =
      option_quiet (find_override s i.proc.path i.proc.override_id) s
        (send_or_disconnect-IsQuiet _ s)
        (λ p.
          hooked_quiet (unhook_instruction b.disassembler s.hooks (code_of s p) i.offset) s
            (λ h. send_or_disconnect-IsQuiet _ _) (send_or_disconnect-IsQuiet _ _))

  handle_disassemble-IsQuiet : (path : Text) (id : ℕ) → IsQuiet (handle_disassemble b path id)
  unfolding handle_disassemble
  handle_disassemble-IsQuiet path id s =
      option_quiet (find_override s path id) s (same_quiet s refl) (λ p.
        let breaks = get_hooked_offsets b.disassembler s.hooks (code_of s p) in
        option_quiet (unhook_all b (code_of s p) breaks s.hooks) s (panic_quiet s) (λ bare.
          option_quiet (hook_all b (code_of s p) breaks bare) s (panic_quiet s)
            (λ h. same_quiet s refl)))

  pub run_command-IsQuiet : (f : Option ℕ) (c : Command) → IsQuiet (run_command b f c)
  unfolding run_command
  run_command-IsQuiet f (disassemble (some proc) id) s = handle_disassemble-IsQuiet proc _ s
  run_command-IsQuiet none (disassemble none id) s = same_quiet s refl
  run_command-IsQuiet (some i) (disassemble none id) s =
      option_quiet (get_stack_frame (stacks_of s) i) s (same_quiet s refl)
        (λ f. handle_disassemble-IsQuiet _ _ s)
  run_command-IsQuiet f (guest_override none) s = same_quiet s refl
  run_command-IsQuiet f (guest_override (some ckey)) s = same_quiet s refl
  run_command-IsQuiet f (mem_profiler p) s = same_quiet s refl
  run_command-IsQuiet f other s = same_quiet s refl

  pub answer_eval-IsQuiet : (c : Option Text) (v : Option Value) → IsQuiet (answer_eval b c v)
  unfolding answer_eval
  answer_eval-IsQuiet c none s x h = send_or_disconnect-IsQuiet _ s x h
  answer_eval-IsQuiet c (some v) s x h =
      grind (arith, send_or_disconnect-IsQuiet, value_to_variables_ref-IsQuiet)

  pub handle_stacks-IsQuiet : IsQuiet (handle_stacks b)
  unfolding handle_stacks
  handle_stacks-IsQuiet s = option_quiet s.state s (send_or_disconnect-IsQuiet _ s) (λ p.
      option_quiet (stack_names 0 (p.stacks.active ∷ p.stacks.suspended)) s (panic_quiet s)
        (λ n. send_or_disconnect-IsQuiet _ s))

  pub handle_stack_frames-IsQuiet : (i : ℕ) (f c : Option ℕ) → IsQuiet (handle_stack_frames b i f c)
  unfolding handle_stack_frames
  handle_stack_frames-IsQuiet i f c s =
      option_quiet (get_stack (stacks_of s) i) s
        (bind_quiet s (notify-IsQuiet _ s) (λ _. send_or_disconnect-IsQuiet _))
        (λ st. send_or_disconnect-IsQuiet _ s)

  pub handle_scopes-IsQuiet : (i : ℕ) → IsQuiet (handle_scopes b i)
  unfolding handle_scopes
  handle_scopes-IsQuiet i s =
      option_quiet s.state s (send_or_disconnect-IsQuiet _ s) (λ p. send_or_disconnect-IsQuiet _ _)

  answer_members-IsQuiet : (r : Res (List Variable)) → IsQuiet (answer_members b r)
  answer_members-IsQuiet (good vars) s = send_or_disconnect-IsQuiet _ s
  answer_members-IsQuiet (bad e) s =
      bind_quiet s (notify-IsQuiet _ s) (λ _. send_or_disconnect-IsQuiet _)

  answer_variables-IsQuiet : (v : Variables) → IsQuiet (answer_variables b v)
  unfolding answer_variables
  answer_variables-IsQuiet (arguments i) s =
      bind_quiet s (get_args-IsQuiet b i s) (λ _. send_or_disconnect-IsQuiet _)
  answer_variables-IsQuiet (locals i) s =
      bind_quiet s (get_locals-IsQuiet b i s) (λ _. send_or_disconnect-IsQuiet _)
  answer_variables-IsQuiet (object_vars v) s =
      bind_quiet s (object_to_variables-IsQuiet b v s) (answer_members-IsQuiet)
  answer_variables-IsQuiet (list_contents v) s =
      bind_quiet s (list_to_variables-IsQuiet b v s) (answer_members-IsQuiet)
  answer_variables-IsQuiet (list_pair k v) s =
      bind_quiet s (value_to_variable-IsQuiet b _ k s) (λ _ t.
        bind_quiet t (value_to_variable-IsQuiet b _ v t) (λ _. send_or_disconnect-IsQuiet _))

  pub handle_variables-IsQuiet : (v : ℕ) → IsQuiet (handle_variables b v)
  unfolding handle_variables
  handle_variables-IsQuiet v s =
      option_quiet s.state s (bind_quiet s (notify-IsQuiet _ s) (λ _. send_or_disconnect-IsQuiet _))
        (λ p.
          option_quiet (get_variables p.references v) s
            (bind_quiet s (notify-IsQuiet _ s) (λ _. send_or_disconnect-IsQuiet _))
            (λ vars. answer_variables-IsQuiet vars s))
