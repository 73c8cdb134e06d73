-- ===== src/Stepping/Decide.antt =====
-- debug_server/src/instruction_hooking.rs: the actions of the debugger, the tags of proc instances, and
-- what the current action makes of an instruction.
use auxtools.Base.{
  ℕ, ◌+◌, ◌%◌, ◌^◌, ◌-◌, Bool, true, false, not, ◌&&◌, none, some, List, [], ◌∷◌, ◌==◌,
  if◌then◌else◌, Text, get_elem?,
}
use auxtools.Debug.{Context}
use auxtools.Procs.{RawProc, from_id}
use auxtools.Sigscan.{ends_with}
use auxtools.Hooking.{opcode_dbgline}
use auxtools.Server.Messages.{BreakpointReason, step, pause}

-- `DebuggerAction`, each with the tag of the proc instance that it waits for. `rest` is `None`.
pub data DebuggerAction : Type 0 where
  rest pausing break_on_next : DebuggerAction
  stepping_over stepping_into stepping_out : (tag : ℕ) → DebuggerAction

-- `CURRENT_ACTION`, `PTR_REF_ID`, and the `mega_hack` of each proc instance by its address.
pub record Steps : Type 0 where
  pub action : DebuggerAction
  pub last_ref : ℕ
  pub tags : ℕ → ℕ

-- `ProcInstanceRef::new`: a `u16` that wraps around. The tag is the result.
unfoldable pub new_ref : (instance_ptr : ℕ) → Steps → ℕ × Steps
new_ref instance_ptr s =
    let tag : ℕ = (s.last_ref + 1) % 2 ^ 16 in
    (tag, record s { last_ref = tag; tags = λ i. if i == instance_ptr then tag else s.tags i })

-- `ProcInstanceRef::is`
unfoldable pub is : (tags : ℕ → ℕ) → (tag : ℕ) → Context → Bool
is tags tag ctx = tags ctx.instance_ptr == tag

-- A stack is the contexts from the innermost to the outermost.
unfoldable pub proc_instance_is_in_stack : (ℕ → ℕ) → List Context → ℕ → Bool
unfolding is
proc_instance_is_in_stack tags [] tag = false
proc_instance_is_in_stack tags (ctx ∷ parents) tag =
    if is tags tag ctx then true else proc_instance_is_in_stack tags parents tag

unfoldable pub proc_instance_is_suspended : (ℕ → ℕ) → List (List Context) → ℕ → Bool
unfolding proc_instance_is_in_stack
proc_instance_is_suspended tags [] tag = false
proc_instance_is_suspended tags (s ∷ stacks) tag =
    if proc_instance_is_in_stack tags s tag
    then true
    else proc_instance_is_suspended tags stacks tag

abbrev init_suffix : Text
init_suffix = b'(' ∷ b'i' ∷ b'n' ∷ b'i' ∷ b't' ∷ b')' ∷ []

-- A proc that is not there counts as generated.
unfoldable pub is_generated_proc : List RawProc → Context → Bool
unfolding from_id ends_with
is_generated_proc procs ctx = elim (from_id procs ctx.proc) [
  | none ↦ true
  | some p ↦ ends_with init_suffix p.path
]

-- The stack that a request names: 0 is the running one, which also stands for one that is not there.
unfoldable pub get_proc_ctx : (running : List Context) → List (List Context) → ℕ → List Context
get_proc_ctx running sleeping stack_id =
    if stack_id == 0
    then running
    else (elim (get_elem? sleeping (stack_id - 1)) [ none ↦ running | some stack ↦ stack ])

-- What the current action makes of an instruction: another action, or a stop.
pub data Decision : Type 0 where
  becomes : DebuggerAction → Decision
  stops : BreakpointReason → Decision

-- The `match` of `handle_instruction`, at the innermost context of a stack.
module _ (procs : List RawProc) (tags : ℕ → ℕ) (sleeping : List (List Context)) (opcode : ℕ) where
  abbrev pub is_gone : List Context → ℕ → Bool
  is_gone stack tag =
      not (proc_instance_is_in_stack tags stack tag)
      && not (proc_instance_is_suspended tags sleeping tag)

  unfoldable pub decide_over : (ctx : Context) (parents : List Context) → ℕ → Decision
  unfolding is proc_instance_is_in_stack proc_instance_is_suspended
  decide_over ctx parents tag =
      if (opcode == opcode_dbgline) && is tags tag ctx
      then becomes break_on_next
      else if is_gone (ctx ∷ parents) tag
      then stops step
      else becomes (stepping_over tag)

  unfoldable pub decide_into : (ctx : Context) (parents : List Context) → ℕ → Decision
  unfolding is proc_instance_is_in_stack proc_instance_is_suspended is_generated_proc
  decide_into ctx parents tag =
      if is_generated_proc procs ctx
      then becomes (stepping_into tag)
      else if (opcode == opcode_dbgline) && is tags tag ctx
      then becomes break_on_next
      else if is tags tag ctx
      then becomes (stepping_into tag)
      else if is_gone (ctx ∷ parents) tag
      then stops step
      else if proc_instance_is_in_stack tags (ctx ∷ parents) tag && (opcode == opcode_dbgline)
      then becomes break_on_next
      else becomes (stepping_into tag)

  unfoldable pub decide_out : (ctx : Context) (parents : List Context) → ℕ → Decision
  unfolding is proc_instance_is_in_stack proc_instance_is_suspended is_generated_proc
  decide_out ctx parents tag =
      if is_generated_proc procs ctx
      then becomes (stepping_out tag)
      else if is tags tag ctx
      then stops step
      else if is_gone (ctx ∷ parents) tag
      then becomes rest
      else becomes (stepping_out tag)

  unfoldable pub decide : (ctx : Context) (parents : List Context) → DebuggerAction → Decision
  unfolding decide_over decide_into decide_out
  decide ctx parents rest = becomes rest
  decide ctx parents pausing = stops pause
  decide ctx parents break_on_next = stops step
  decide ctx parents (stepping_over tag) = decide_over ctx parents tag
  decide ctx parents (stepping_into tag) = decide_into ctx parents tag
  decide ctx parents (stepping_out tag) = decide_out ctx parents tag
