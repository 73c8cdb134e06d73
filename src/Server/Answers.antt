-- ===== src/Server/Answers.antt =====
-- debug_server/src/server.rs: the responses of `handle_request`. Each handler ends by sending its own.
use auxtools.Base.{ℕ, ◌≡◌, Bool, true, false, Option, none, some, List, [], ◌∷◌, ◌++◌, Text}
use auxtools.Value.{Value}
use auxtools.Procs.{Proc}
use auxtools.Hooking.{ok, invalid_offset, Hooks, hook_instruction, unhook_instruction}
use auxtools.Server.Messages.{
  InstructionRef, Variable, Request, configured, std_def, pause, continue, current_instruction,
  catch_runtimes, line_number, offset, Response, ack, ContinueKind, Stack, Frame, EvalValue,
  SetResult, failed, ProcRef,
}
use auxtools.Server.Variables.{Variables}
use auxtools.Server.Session.{Session, closed, Out, ret}
use auxtools.Server.World.{Byond}
use auxtools.Server.Breakpoints.{find_override, code_of}

-- The responses to a request, when it is taken up. That to a breakpoint depends on whether its proc is
-- found; a proc that BreakpointUnset does not find has the response of BreakpointSet.
pub data IsAnswerTo (b : Byond) (s : Session b.World) : Request → Response → Type 0 where
  to_configured : IsAnswerTo b s configured ack
  to_pause : IsAnswerTo b s pause ack
  to_continue : (k : ContinueKind) → IsAnswerTo b s (continue k) ack
  to_std_def : (t : Option Text) → IsAnswerTo b s std_def (Response.std_def t)
  to_stacks : (l : List Stack) → IsAnswerTo b s Request.stacks (Response.stacks l)
  to_eval :
      (f : Option ℕ) (c : Text) (x : Option Text) (v : EvalValue) (n : Option ℕ)
      → IsAnswerTo b s (Request.eval f c x) (Response.eval v n)
  to_current :
      (f : ℕ) (i : Option InstructionRef)
      → IsAnswerTo b s (current_instruction f) (Response.current_instruction i)
  to_set :
      (i : InstructionRef) (c : Option Text) (p : Proc) (h : Hooks) (line : Option ℕ)
      → find_override s i.proc.path i.proc.override_id ≡ some p
      → hook_instruction b.disassembler s.hooks (code_of s p) i.offset ≡ ok h
      → IsAnswerTo b s
          (Request.breakpoint_set i c)
          (Response.breakpoint_set (SetResult.success line))
  to_set_failed :
      (i : InstructionRef) (c : Option Text) (p : Proc)
      → find_override s i.proc.path i.proc.override_id ≡ some p
      → hook_instruction b.disassembler s.hooks (code_of s p) i.offset ≡ invalid_offset
      → IsAnswerTo b s (Request.breakpoint_set i c) (Response.breakpoint_set failed)
  to_set_missing :
      (i : InstructionRef) (c : Option Text)
      → find_override s i.proc.path i.proc.override_id ≡ none
      → IsAnswerTo b s (Request.breakpoint_set i c) (Response.breakpoint_set failed)
  to_unset :
      (i : InstructionRef) (p : Proc) (h : Hooks)
      → find_override s i.proc.path i.proc.override_id ≡ some p
      → unhook_instruction b.disassembler s.hooks (code_of s p) i.offset ≡ ok h
      → IsAnswerTo b s (Request.breakpoint_unset i) (Response.breakpoint_unset true)
  to_unset_failed :
      (i : InstructionRef) (p : Proc)
      → find_override s i.proc.path i.proc.override_id ≡ some p
      → unhook_instruction b.disassembler s.hooks (code_of s p) i.offset ≡ invalid_offset
      → IsAnswerTo b s (Request.breakpoint_unset i) (Response.breakpoint_unset false)
  to_unset_missing :
      (i : InstructionRef)
      → find_override s i.proc.path i.proc.override_id ≡ none
      → IsAnswerTo b s (Request.breakpoint_unset i) (Response.breakpoint_set failed)
  to_line :
      (p : ProcRef) (o : ℕ) (l : Option ℕ)
      → IsAnswerTo b s (line_number p o) (Response.line_number l)
  to_offset : (p : ProcRef) (l : ℕ) (o : Option ℕ) → IsAnswerTo b s (offset p l) (Response.offset o)
  to_frames :
      (i : ℕ) (f c : Option ℕ) (l : List Frame) (n : ℕ)
      → IsAnswerTo b s (Request.stack_frames i f c) (Response.stack_frames l n)
  to_scopes : (f : ℕ) (a l g : Option ℕ) → IsAnswerTo b s (Request.scopes f) (Response.scopes a l g)
  to_variables :
      (n : ℕ) (l : List Variable) → IsAnswerTo b s (Request.variables n) (Response.variables l)

-- The session `t` after the request that `s` took up: the last response is one to the request, or there
-- is no connection any more. CatchRuntimes sets its flag and does nothing else.
pub data IsAnswered (b : Byond) (s t : Session b.World) : Request → Type 0 where
  hung_up : (q : Request) → t.stream ≡ closed → IsAnswered b s t q
  answered :
      (q : Request) (before : List Response) (r : Response)
      → t.sent ≡ before ++ r ∷ []
      → IsAnswerTo b s q r
      → IsAnswered b s t q
  unanswered :
      (on : Bool)
      → t ≡ record s { should_catch_runtimes = on }
      → IsAnswered b s t (catch_runtimes on)

data AnsweredFrom (b : Byond) (s : Session b.World) {A : Type 0} (q : Request)
    (o : Out (A × Session b.World)) : Type 0 where
  whenever : ((x : A × Session b.World) → o ≡ ret x → IsAnswered b s x.1 q) → AnsweredFrom b s q o
