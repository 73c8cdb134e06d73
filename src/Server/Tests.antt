-- ===== src/Server/Tests.antt =====
-- A session over a world without procs, and the theorems about the server at concrete inputs.
use auxtools.Base.{
  ◌↔◌, List, get_elem?, ℕ, ◌≡◌, refl, true, false, none, some, [], ◌∷◌, arith, Text,
}
use auxtools.Value.{null_value}
use auxtools.Dmasm.{Disassembler, dbg_line, other, instruction}
use auxtools.Hooking.{Memory}
use auxtools.Procs.{Proc, Registry, populate_procs, get_proc_override, strip_path}
use auxtools.Bytecode.{Bytecodes}
use auxtools.Debug.{StackFrame, CallStacks}
use auxtools.Server.Variables.{
  locals, no_references, no_references-IsSound, Given, get_ref, get_ref-Given,
}
use auxtools.Server.Messages.{
  ProcRef, Response, notification, variables_not_paused, stacks, pause, std_def, continue,
  ContinueKind, BreakpointReason, ack,
}
use auxtools.Server.Session.{Session, connected, closed, ret}
use auxtools.Server.World.{Byond, err}
use auxtools.Server.Stacks.{
  get_stack, get_stack_base_frame_id, get_stack_frame, IsFrameOf, get_stack_frame-IsFrameOf,
}
use auxtools.Server.Lines.{
  is_listing, nodes_of, get_offset, get_line_number, get_line_number-get_offset,
}
use auxtools.Server.Loop.{process, handle_breakpoint}
use auxtools.Server.Handle.{make_frame, frames_from}
use auxtools.Server.Frames.{frames_from-get_stack_frame}
use auxtools.Server.Pausing.{process-pause}
use auxtools.Server.Quiet.{same_quiet}
use auxtools.Server.Quiet.Requests.{CallsAreQuiet}
use auxtools.Server.Ending.{EndsWith, IsEmptied, IsRunning, process-EndsWith}
use auxtools.Server.Stopping.{handle_breakpoint-EndsWith}

get_ref-Given_example :
    Given no_references
      (locals 3)
      (get_ref no_references (locals 3)).0
      (get_ref no_references (locals 3)).1
get_ref-Given_example = get_ref-Given no_references (locals 3) no_references-IsSound

abbrev a_path : Text
a_path = b'/' ∷ b'a' ∷ []

abbrev a_proc : Proc
a_proc = record { id = 0; entry = 100; path = a_path }

abbrev a_frame : ℕ → StackFrame
a_frame offset = record {
  context = 1;
  instance_ptr = 2;
  proc = a_proc;
  offset = offset;
  usr = null_value;
  src = null_value;
  dot = null_value;
  args = [];
  locals = [];
  file_name = none;
  line_number = none;
}

abbrev pub two_stacks : CallStacks
two_stacks = record { active = a_frame 4 ∷ []; suspended = (a_frame 5 ∷ a_frame 6 ∷ []) ∷ [] }

frame_found : get_stack_frame (some two_stacks) 2 ≡ some (a_frame 6)
unfolding get_stack_frame
frame_found = refl

get_stack_frame-IsFrameOf_example :
    (get_stack_frame (some two_stacks) 2 ≡ some (a_frame 6)) ↔ IsFrameOf two_stacks 2 (a_frame 6)
get_stack_frame-IsFrameOf_example = get_stack_frame-IsFrameOf two_stacks 2 (a_frame 6)

abbrev one_proc : Registry
one_proc = populate_procs (record { address = 100; raw_path = a_path } ∷ [])

abbrev marked : Disassembler
marked ws = instruction (dbg_line 12) 0 2 ∷ instruction (other 0) 2 1 ∷ []

abbrev blank : Memory
blank a = 0

abbrev no_code : Bytecodes
no_code = record { allocations = []; original = []; entry = λ j. record { ptr = 0; count = 0 } }

abbrev a_ref : ProcRef
a_ref = record { path = a_path; override_id = 0 }

offset_runs : get_offset marked blank no_code one_proc a_ref 12 ≡ some 2
unfolding get_offset populate_procs get_proc_override strip_path
offset_runs = refl

proc_runs : get_proc_override one_proc a_path 0 ≡ some a_proc
unfolding get_proc_override populate_procs strip_path
proc_runs = refl

get_line_number-get_offset_example : get_line_number marked blank no_code one_proc a_ref 2 ≡ some 12
unfolding is_listing nodes_of
get_line_number-get_offset_example =
    get_line_number-get_offset marked blank no_code one_proc a_ref 12 2 a_proc proc_runs refl
      offset_runs

abbrev pub empty_world : Byond
empty_world = record {
  World = Unit {0};
  contexts = λ w. [];
  sleeping = λ w. [];
  raw_procs = [];
  parameter_names = λ p. [];
  local_names = λ p. [];
  get_length = λ w v. 0;
  get_assoc_element = λ w v k. none;
  get_variable = λ w v t. none;
  to_text = λ w v. none;
  raw_text = λ w v. [];
  string_text = λ w i. [];
  index_value = λ i. null_value;
  disassembler = marked;
  disassembly_error = λ ws. none;
  lowercase = λ t. t;
  Expr = Unit {0};
  compile_expr = λ t names. err [];
  assemble = λ w e. (err [], w);
  fresh_buffer = λ w. 0;
  call_proc = λ p args s. ret (none, s);
  commit = λ w f slot v. w;
  parse_command = λ t. err [];
}

abbrev pub session : Session (Unit {0})
session = record {
  requests = [];
  stream = closed;
  link = 0;
  sent = [];
  should_catch_runtimes = true;
  state = none;
  in_eval = false;
  eval_error = none;
  conditional_breakpoints = [];
  hooks = record { memory = blank; original = []; deferred = none };
  bytecodes = no_code;
  procs = one_proc;
  stddef = none;
  world = tt;
}

process-pause_example :
    process empty_world 3
      (record session { stream = connected; link = 2; requests = pause ∷ stacks ∷ [] })
    ≡ ret (some true, record session { stream = connected; link = 1; sent = ack ∷ [] })
process-pause_example = process-pause empty_world (stacks ∷ []) 1 session

abbrev listening : Session (Unit {0})
listening = record session { stream = connected; link = 3 }

abbrev told : Session (Unit {0})
told = record session {
  stream = connected;
  link = 1;
  sent = notification variables_not_paused ∷ Response.variables [] ∷ [];
}

pub empty_world_is_quiet : CallsAreQuiet empty_world
empty_world_is_quiet p args s = same_quiet s refl

process-EndsWith_example : EndsWith IsEmptied (
    process empty_world 2
      (record session { stream = connected; link = 2; requests = std_def ∷ [] }))
process-EndsWith_example =
    process-EndsWith empty_world empty_world_is_quiet 2
      (record session { stream = connected; link = 2; requests = std_def ∷ [] }) refl (omega arith)

handle_breakpoint-EndsWith_example : EndsWith IsRunning (
    handle_breakpoint empty_world 3
      (0, 4)
      BreakpointReason.breakpoint
      (record session {
        stream = connected;
        link = 9;
        requests = std_def ∷ continue (ContinueKind.step_over 0) ∷ [];
      }))
handle_breakpoint-EndsWith_example =
    handle_breakpoint-EndsWith empty_world empty_world_is_quiet 3 (0, 4) BreakpointReason.breakpoint
      (record session {
        stream = connected;
        link = 9;
        requests = std_def ∷ continue (ContinueKind.step_over 0) ∷ [];
      })
      refl (omega arith)

abbrev second_stack : List StackFrame
second_stack = a_frame 5 ∷ a_frame 6 ∷ []

listed :
    get_elem? (frames_from empty_world session 1 second_stack 2 0) 1
    ≡ some (make_frame empty_world session 1 1 (a_frame 6))
unfolding frames_from
listed = refl

frames_from-get_stack_frame_example :
    (g : StackFrame) × (get_elem? second_stack 1 ≡ some g)
    × (get_stack_frame (some two_stacks) (make_frame empty_world session 1 1 (a_frame 6)).id
        ≡ some g)
    × ((make_frame empty_world session 1 1 (a_frame 6)).instruction.offset ≡ g.offset)
unfolding get_stack_base_frame_id get_stack
frames_from-get_stack_frame_example =
    frames_from-get_stack_frame empty_world session (some two_stacks) 1 2 0 1 second_stack
      (make_frame empty_world session 1 1 (a_frame 6)) refl (omega arith) listed
