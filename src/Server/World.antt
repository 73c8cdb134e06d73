-- ===== src/Server/World.antt =====
-- What the server takes from code that is not in the repository: BYOND's functions and memory, the
-- dmasm compiler and disassembler, clap's parser of commands, and `str::to_lowercase`.
use auxtools.Base.{ℕ, Option, List, Text}
use auxtools.Value.{Value}
use auxtools.Dmasm.{Disassembler}
use auxtools.Debug.{Context, StackFrame}
use auxtools.Procs.{Proc, RawProc}
use auxtools.Server.Session.{M}

-- Where an argument of an evaluated expression came from: `ArgType`.
pub data Slot : Type 0 where
  dot usr src : Slot
  arg local : ℕ → Slot

pub data Result (A : Type 0) : Type 0 where
  ok : A → Result A
  err : Text → Result A

-- What clap makes of a command line.
pub data Profiler : Type 0 where
  begin : (path : Option Text) → Profiler
  end other : Profiler

pub data Command : Type 0 where
  disassemble : (proc id : Option Text) → Command
  guest_override : (ckey : Option Text) → Command
  mem_profiler : Profiler → Command
  other : Command

pub record Byond : Type 1 where
  pub World : Type 0
  -- the running proc's contexts and the sleeping procs' contexts, innermost first
  pub contexts : World → List Context
  pub sleeping : World → List (List Context)
  pub raw_procs : List RawProc
  pub parameter_names : Proc → List Text
  pub local_names : Proc → List Text
  pub get_length : World → Value → ℕ
  pub get_assoc_element : World → Value → Value → Option Value
  pub get_variable : World → Value → Text → Option Value
  -- BYOND's `to_string`, and the text of a string, a number or null
  pub to_text : World → Value → Option Text
  pub raw_text : World → Value → Text
  pub string_text : World → ℕ → Text
  -- the number value of an index
  pub index_value : ℕ → Value
  pub disassembler : Disassembler
  pub disassembly_error : List ℕ → Option Text
  pub lowercase : Text → Text
  pub Expr : Type 0
  pub compile_expr : Text → List Text → Result Expr
  pub assemble : World → Expr → Result (List ℕ) × World
  -- the address of a vector that is allocated now
  pub fresh_buffer : World → ℕ
  -- a call into BYOND runs DM code, which may do anything to the server, too
  pub call_proc : Proc → List Value → M World (Option Value)
  -- the write of an argument's new value to the frame that it came from
  pub commit : World → StackFrame → Slot → Value → World
  pub parse_command : Text → Result Command
