-- ===== src/Server/Messages.antt =====
-- debug_server/src/server_types.rs: the messages between the debug client and the server. A string
-- that the server builds with `format!` is a constructor for each format string.
use auxtools.Base.{ℕ, Bool, Option, List, Text}
use auxtools.Value.{Value}
use auxtools.Dmasm.{Node}
use auxtools.Procs.{Proc}

pub record ProcRef : Type 0 where
  pub path : Text
  pub override_id : ℕ

pub record InstructionRef : Type 0 where
  pub proc : ProcRef
  pub offset : ℕ

pub data BreakpointReason : Type 0 where
  breakpoint step pause : BreakpointReason
  runtime : Text → BreakpointReason

pub data ContinueKind : Type 0 where
  continue : ContinueKind
  step_over step_into step_out : (stack_id : ℕ) → ContinueKind

pub data Request : Type 0 where
  disconnect configured std_def stacks pause : Request
  eval : (frame_id : Option ℕ) (command : Text) (context : Option Text) → Request
  current_instruction : (frame_id : ℕ) → Request
  breakpoint_set : InstructionRef → (condition : Option Text) → Request
  breakpoint_unset : InstructionRef → Request
  catch_runtimes : Bool → Request
  line_number : ProcRef → (offset : ℕ) → Request
  offset : ProcRef → (line : ℕ) → Request
  stack_frames : (stack_id : ℕ) (start_frame count : Option ℕ) → Request
  scopes : (frame_id : ℕ) → Request
  variables : (vars : ℕ) → Request
  continue : ContinueKind → Request

-- The runtime errors that auxtools reports while variables are read.
pub data RuntimeError : Type 0 where
  not_a_list not_a_string contains_nul assoc_failed : RuntimeError
  read_failed : Value → Text → RuntimeError
  to_string_failed : Value → RuntimeError

-- The texts that stand for a value.
pub data Shown : Type 0 where
  list_len : ℕ → Shown
  raw : Value → Shown
  plain : Text → Shown
  stringify_error : Value → RuntimeError → Shown
  entry : (key val : Shown) → Shown

pub data Name : Type 0 where
  named : Text → Name
  index : ℕ → Name
  undefined_argument : ℕ → Name

pub record Variable : Type 0 where
  pub name : Name
  pub shown : Shown
  pub variables : Option ℕ

pub record Stack : Type 0 where
  pub id : ℕ
  pub name : Text

pub record Frame : Type 0 where
  pub id : ℕ
  pub instruction : InstructionRef
  pub line : Option ℕ

pub data SetResult : Type 0 where
  success : (line : Option ℕ) → SetResult
  failed : SetResult

-- Why a command does not work on Linux: `ckey_override::Error` and `mem_profiler_stub::Error`.
pub data Failure : Type 0 where
  unsupported_byond_version unsupported_platform : Failure

-- What `handle_command` answers.
pub data Reply : Type 0 where
  dism : Proc → List Node → (error : Option Text) → Reply
  proc_not_found no_such_frame no_frame_selected no_ckey no_path unknown_profiler unknown_command :
      Reply
  success profiler_disabled : Reply
  failure : Failure → Reply
  usage : Text → Reply

pub data EvalValue : Type 0 where
  no_value : EvalValue
  reply : Reply → EvalValue
  result : Shown → EvalValue

-- The texts of notifications.
pub data Message : Type 0 where
  invalid_arguments_frame invalid_locals_frame invalid_eval_frame : ℕ → Message
  frames_not_paused variables_not_paused unknown_reference no_expr_stub : Message
  variables_runtime : RuntimeError → Message
  compile_error : Text → Message
  assemble_error : (command error : Text) → Message
  call_failed : (command : Text) → Message
  expression_runtime : Text → Message
  pausing : BreakpointReason → Message

pub data Response : Type 0 where
  ack disconnected : Response
  std_def : Option Text → Response
  eval : EvalValue → Option ℕ → Response
  current_instruction : Option InstructionRef → Response
  breakpoint_set : SetResult → Response
  breakpoint_unset : Bool → Response
  line_number : Option ℕ → Response
  offset : Option ℕ → Response
  stacks : List Stack → Response
  stack_frames : List Frame → (total_count : ℕ) → Response
  scopes : (arguments locals globals : Option ℕ) → Response
  variables : List Variable → Response
  notification : Message → Response
  breakpoint_hit : BreakpointReason → Response
