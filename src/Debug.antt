-- ===== src/Debug.antt =====
-- auxtools/src/debug.rs: the frames of the running and of the sleeping procs.
use auxtools.Base.{ℕ, Option, none, some, List, [], ◌∷◌, reverse, Text}
use auxtools.Value.{Value}
use auxtools.Procs.{Proc, RawProc, from_id}

pub record StackFrame : Type 0 where
  pub context : ℕ
  pub instance_ptr : ℕ
  pub proc : Proc
  pub offset : ℕ
  pub usr : Value
  pub src : Value
  pub dot : Value
  pub args : List (Option Text × Value)
  pub locals : List (Text × Value)
  pub file_name : Option Text
  pub line_number : Option ℕ

pub record CallStacks : Type 0 where
  pub active : List StackFrame
  pub suspended : List (List StackFrame)

-- An `ExecutionContext` with its `ProcInstance`, as far as the frames read them.
pub record Context : Type 0 where
  pub address : ℕ
  pub instance_ptr : ℕ
  pub proc : ℕ
  pub bytecode : ℕ
  pub bytecode_offset : ℕ
  pub usr : Value
  pub src : Value
  pub dot : Value
  pub args : List Value
  pub locals : List Value
  pub filename : Option Text
  pub line : ℕ

-- Arguments past the named ones have no name.
unfoldable pub name_args : List Text → List Value → List (Option Text × Value)
name_args names [] = []
name_args [] (v ∷ vs) = (none, v) ∷ name_args [] vs
name_args (n ∷ names) (v ∷ vs) = (some n, v) ∷ name_args names vs

-- A local without a name is a panic (`none`).
unfoldable pub name_locals : List Text → List Value → Option (List (Text × Value))
name_locals names [] = some []
name_locals [] (v ∷ vs) = none
name_locals (n ∷ names) (v ∷ vs) = elim (name_locals names vs) [
  | none ↦ none
  | some rest ↦ some ((n, v) ∷ rest)
]

abbrev line_of : Option Text → ℕ → Option ℕ
line_of none line = none
line_of (some file) line = some line

-- `StackFrame::from_context`; the names of a proc's parameters and locals are BYOND's.
unfoldable pub frame_of :
    List RawProc → (parameter_names local_names : Proc → List Text) → Context → Option StackFrame
unfolding name_args name_locals
frame_of procs parameter_names local_names c = elim (from_id procs c.proc) [
  | none ↦ none
  | some p ↦ elim (name_locals (local_names p) c.locals) [
    | none ↦ none
    | some named ↦ some (record {
      context = c.address;
      instance_ptr = c.instance_ptr;
      proc = p;
      offset = c.bytecode_offset;
      usr = c.usr;
      src = c.src;
      dot = c.dot;
      args = name_args (parameter_names p) c.args;
      locals = named;
      file_name = c.filename;
      line_number = line_of c.filename c.line;
    })
  ]
]

-- The loop of `CallStacks::from_context` over a chain of contexts, innermost first.
unfoldable pub frames_of :
    List RawProc
    → (parameter_names local_names : Proc → List Text) → List Context
    → Option (List StackFrame)
unfolding frame_of
frames_of procs pn ln [] = some []
frames_of procs pn ln (c ∷ cs) = elim (frame_of procs pn ln c) [
  | none ↦ none
  | some f ↦ elim (frames_of procs pn ln cs) [ none ↦ none | some fs ↦ some (f ∷ fs) ]
]

unfoldable pub suspended_of :
    List RawProc
    → (parameter_names local_names : Proc → List Text) → List (List Context)
    → Option (List (List StackFrame))
unfolding frames_of
suspended_of procs pn ln [] = some []
suspended_of procs pn ln (cs ∷ rest) = elim (frames_of procs pn ln cs) [
  | none ↦ none
  | some fs ↦ elim (suspended_of procs pn ln rest) [
    | none ↦ none
    | some more ↦ some (reverse fs ∷ more)
  ]
]

-- `CallStacks::new`: the frames of a sleeping proc are reversed.
unfoldable pub call_stacks :
    List RawProc
    → (parameter_names local_names : Proc → List Text)
    → (current : List Context) (suspended : List (List Context)) → Option CallStacks
unfolding frames_of suspended_of
call_stacks procs pn ln current suspended = elim (suspended_of procs pn ln suspended) [
  | none ↦ none
  | some ss ↦ elim (frames_of procs pn ln current) [
    | none ↦ none
    | some fs ↦ some (record { active = fs; suspended = ss })
  ]
]
