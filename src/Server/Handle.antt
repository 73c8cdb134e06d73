-- ===== src/Server/Handle.antt =====
-- debug_server/src/server.rs: `handle_request` and the handlers of single requests.
use auxtools.Base.{
  ℕ, zero, suc, ◌+◌, ◌-◌, ◌%◌, ◌^◌, Bool, true, false, Option, none, some, List, [], ◌∷◌, length,
  get_elem?,
}
use auxtools.Value.{globals}
use auxtools.Debug.{StackFrame}
use auxtools.Procs.{override_id}
use auxtools.Server.Stacks.{get_stack, get_stack_base_frame_id, get_stack_frame}
use auxtools.Server.Variables.{
  Variables, arguments, locals, object_vars, list_contents, list_pair, get_ref, get_variables,
}
use auxtools.Server.Messages.{
  InstructionRef, Request, disconnect, configured, std_def, pause, current_instruction,
  catch_runtimes, line_number, offset, continue, Response, ack, Stack, Frame, named, Variable,
  frames_not_paused, variables_not_paused, unknown_reference, variables_runtime,
}
use auxtools.Server.Session.{Session, ret, panic, M, ◌>>=◌, ◌>>◌, pure, notify, send_or_disconnect}
use auxtools.Server.World.{Byond}
use auxtools.Server.Inspect.{Res, good, bad, stacks_of, text_key, text_value, value_to_variable}
use auxtools.Server.Members.{list_to_variables, object_to_variables, get_args, get_locals}
use auxtools.Server.Lines.{get_line_number, get_offset}
use auxtools.Server.Breakpoints.{handle_breakpoint_set, handle_breakpoint_unset}
use auxtools.Server.Eval.{handle_eval}

abbrev instruction_ref : {W : Type 0} → Session W → StackFrame → InstructionRef
instruction_ref s f = record {
  proc = record { path = f.proc.path; override_id = override_id s.procs f.proc };
  offset = f.offset;
}

-- `stack[0].proc.path` of each stack: an empty stack is a panic (`none`).
unfoldable pub stack_names : ℕ → List (List StackFrame) → Option (List Stack)
stack_names id [] = some []
stack_names id ([] ∷ rest) = none
stack_names id ((f ∷ fs) ∷ rest) = elim (stack_names (id + 1) rest) [
  | none ↦ none
  | some names ↦ some (record { id = id; name = f.proc.path } ∷ names)
]

module _ (b : Byond) where
  open b use {World, disassembler}

  unfoldable pub handle_stacks : M World (Unit {0})
  unfolding stack_names send_or_disconnect
  handle_stacks s = elim s.state [
    | none ↦ send_or_disconnect (Response.stacks []) s
    | some p ↦ elim (stack_names 0 (p.stacks.active ∷ p.stacks.suspended)) [
      | none ↦ panic
      | some names ↦ send_or_disconnect (Response.stacks names) s
    ]
  ]

  unfoldable pub make_frame : Session World → (base i : ℕ) → StackFrame → Frame
  unfolding get_line_number
  make_frame s base i f = record {
    id = (base + i) % 2 ^ 32;
    instruction = instruction_ref s f;
    line =
        get_line_number disassembler s.hooks.memory s.bytecodes s.procs ((instruction_ref s f).proc)
          f.offset;
  }

  -- The loop over `i`, for `n` steps at most: it stops at the end of the stack.
  unfoldable pub frames_from : Session World → (base : ℕ) → List StackFrame → (n i : ℕ) → List Frame
  unfolding make_frame
  frames_from s base stack zero i = []
  frames_from s base stack (suc n) i = elim (get_elem? stack i) [
    | none ↦ []
    | some f ↦ make_frame s base i f ∷ frames_from s base stack n (i + 1)
  ]

  abbrev or_default : Option ℕ → ℕ → ℕ
  or_default none d = d
  or_default (some n) d = n

  -- `start_frame + count` is a `u32`.
  unfoldable pub handle_stack_frames :
      (stack_id : ℕ) (start_frame count : Option ℕ) → M World (Unit {0})
  unfolding get_stack get_stack_base_frame_id frames_from notify send_or_disconnect
  handle_stack_frames stack_id start_frame count s = elim (get_stack (stacks_of s) stack_id) [
    | none ↦ (notify frames_not_paused >> send_or_disconnect (Response.stack_frames [] 0)) s
    | some stack ↦
        let base = get_stack_base_frame_id (stacks_of s) stack_id in
        let start = or_default start_frame 0 in
        let stop = (start + or_default count (length stack)) % 2 ^ 32 in
        send_or_disconnect
          (Response.stack_frames (frames_from s base stack (stop - start) start) (length stack)) s
  ]

  unfoldable pub handle_scopes : (frame_id : ℕ) → M World (Unit {0})
  unfolding get_ref send_or_disconnect
  handle_scopes frame_id s = elim s.state [
    | none ↦ send_or_disconnect (Response.scopes none none none) s
    | some p ↦
        let (a, r1) = get_ref p.references (arguments frame_id) in
        let (l, r2) = get_ref r1 (locals frame_id) in
        let (g, r3) = get_ref r2 (object_vars globals) in
        send_or_disconnect (Response.scopes (some a) (some l) (some g))
          (record s { state = some (record p { references = r3 }) })
  ]

  abbrev pub answer_members : Res (List Variable) → M World (Unit {0})
  answer_members (good vars) = send_or_disconnect (Response.variables vars)
  answer_members (bad e) =
      notify (variables_runtime e) >> send_or_disconnect (Response.variables [])

  unfoldable pub answer_variables : Variables → M World (Unit {0})
  unfolding get_args get_locals object_to_variables list_to_variables value_to_variable
      send_or_disconnect notify
  answer_variables (arguments frame) = do
    vars ← get_args b frame
    send_or_disconnect (Response.variables vars)
  answer_variables (locals frame) = do
    vars ← get_locals b frame
    send_or_disconnect (Response.variables vars)
  answer_variables (object_vars v) = object_to_variables b v >>= answer_members
  answer_variables (list_contents v) = list_to_variables b v >>= answer_members
  answer_variables (list_pair key val) = do
    k ← value_to_variable b (named text_key) key
    v ← value_to_variable b (named text_value) val
    send_or_disconnect (Response.variables (k ∷ v ∷ []))

  unfoldable pub handle_variables : (vars : ℕ) → M World (Unit {0})
  unfolding get_variables answer_variables notify send_or_disconnect
  handle_variables vars s = elim s.state [
    | none ↦ (notify variables_not_paused >> send_or_disconnect (Response.variables [])) s
    | some p ↦ elim (get_variables p.references vars) [
      | none ↦ (notify unknown_reference >> send_or_disconnect (Response.variables [])) s
      | some v ↦ answer_variables v s
    ]
  ]

  abbrev pub current : Session World → ℕ → Option InstructionRef
  current s frame_id = elim (get_stack_frame (stacks_of s) frame_id) [
    | none ↦ none
    | some f ↦ some (instruction_ref s f)
  ]

  -- Whether execution is to pause.
  unfoldable pub handle_request : Request → M World Bool
  unfolding handle_breakpoint_set handle_breakpoint_unset handle_stacks handle_stack_frames
      handle_scopes handle_variables handle_eval get_line_number get_offset get_stack_frame
      send_or_disconnect
  handle_request disconnect s = panic
  handle_request (catch_runtimes on) s = ret (false, record s { should_catch_runtimes = on })
  handle_request (Request.breakpoint_set i condition) s =
      (handle_breakpoint_set b i condition >> pure false) s
  handle_request (Request.breakpoint_unset i) s = (handle_breakpoint_unset b i >> pure false) s
  handle_request Request.stacks s = (handle_stacks >> pure false) s
  handle_request (Request.scopes frame_id) s = (handle_scopes frame_id >> pure false) s
  handle_request (Request.variables vars) s = (handle_variables vars >> pure false) s
  handle_request (Request.eval frame_id command context) s =
      (handle_eval b frame_id command context >> pure false) s
  handle_request (Request.stack_frames stack_id start_frame count) s =
      (handle_stack_frames stack_id start_frame count >> pure false) s
  handle_request (line_number proc o) s =
      let line = get_line_number disassembler s.hooks.memory s.bytecodes s.procs proc o in
      (send_or_disconnect (Response.line_number line) >> pure false) s
  handle_request (offset proc line) s =
      let o = get_offset disassembler s.hooks.memory s.bytecodes s.procs proc line in
      (send_or_disconnect (Response.offset o) >> pure false) s
  handle_request pause s = (send_or_disconnect ack >> pure true) s
  handle_request std_def s = (send_or_disconnect (Response.std_def s.stddef) >> pure false) s
  handle_request (current_instruction frame_id) s =
      (send_or_disconnect (Response.current_instruction (current s frame_id)) >> pure false) s
  handle_request configured s = (send_or_disconnect ack >> pure false) s
  handle_request (continue kind) s = (send_or_disconnect ack >> pure false) s
