-- ===== src/Server/Eval.antt =====
-- debug_server/src/server.rs: commands and expressions from the debug console.
use auxtools.Base.{
  ℕ, zero, suc, ◌+◌, ◌-◌, ◌*◌, ◌^◌, Bool, true, false, ◌&&◌, Option, none, some, List, [], ◌∷◌,
  ◌++◌, map, Text, text_beq, ltb, leb, if◌then◌else◌, ◌==◌, get_elem?,
}
use auxtools.Value.{Value, is_list}
use auxtools.Debug.{StackFrame}
use auxtools.Procs.{Proc, get_proc, override_id}
use auxtools.Hooking.{write_words}
use auxtools.Bytecode.{set_bytecode}
use auxtools.Server.Stacks.{get_stack_frame}
use auxtools.Server.Messages.{
  Reply, no_such_frame, no_frame_selected, no_ckey, no_path, unknown_profiler, unknown_command,
  profiler_disabled, failure, usage, unsupported_byond_version, unsupported_platform, Response,
  no_value, reply, result, invalid_eval_frame, compile_error, assemble_error, no_expr_stub,
  call_failed, expression_runtime,
}
use auxtools.Server.Session.{
  ret, panic, M, ◌>>=◌, ◌>>◌, pure, get, modify, notify, send_or_disconnect,
}
use auxtools.Server.World.{
  Byond, Slot, dot, usr, src, arg, local, ok, err, Command, disassemble, guest_override,
  mem_profiler, other, Profiler, begin,
}
use auxtools.Server.Inspect.{
  stacks_of, text_src, text_usr, text_dot, stringify, value_to_variables_ref,
}
use auxtools.Server.Breakpoints.{handle_disassemble}

abbrev digits_from : ℕ → Text → Option ℕ
digits_from n [] = if ltb n (2 ^ 32) then some n else none
digits_from n (c ∷ t) =
    let rest = digits_from (n * 10 + (c - b'0')) t in
    if leb b'0' c && leb c b'9' then rest else none

-- `parse::<u32>`
unfoldable pub parse_u32 : Text → Option ℕ
parse_u32 [] = none
parse_u32 (c ∷ []) = if c == b'+' then none else digits_from 0 (c ∷ [])
parse_u32 (c ∷ d ∷ t) = if c == b'+' then digits_from 0 (d ∷ t) else digits_from 0 (c ∷ d ∷ t)

-- An argument of the expression: its name, its value and where it came from.
abbrev pub Arg : Type 0
Arg = Text × (Value × Slot)

unfoldable pub arg_slots : ℕ → List (Option Text × Value) → List Arg
arg_slots i [] = []
arg_slots i ((none, v) ∷ rest) = arg_slots (i + 1) rest
arg_slots i ((some name, v) ∷ rest) = (name, (v, arg i)) ∷ arg_slots (i + 1) rest

unfoldable pub local_slots : ℕ → List (Text × Value) → List Arg
local_slots i [] = []
local_slots i ((name, v) ∷ rest) = (name, (v, local i)) ∷ local_slots (i + 1) rest

unfoldable pub frame_args : StackFrame → List Arg
unfolding arg_slots local_slots
frame_args f =
    (text_dot, (f.dot, dot))
    ∷ (text_usr, (f.usr, usr))
    ∷ (text_src, (f.src, src))
    ∷ (arg_slots 0 f.args ++ local_slots 0 f.locals)

abbrev name_of : Arg → Text
name_of a = a.0

abbrev value_of : Arg → Value
value_of (_, (v, _)) = v

abbrev slot_of : Arg → Slot
slot_of (_, (_, s)) = s

abbrev pub text_stub : Text
text_stub =
    b'/' ∷ b'p' ∷ b'r' ∷ b'o' ∷ b'c' ∷ b'/' ∷ b'a' ∷ b'u' ∷ b'x' ∷ b't' ∷ b'o' ∷ b'o' ∷ b'l' ∷ b's'
    ∷ b'_' ∷ b'e' ∷ b'x' ∷ b'p' ∷ b'r' ∷ b'_' ∷ b's' ∷ b't' ∷ b'u' ∷ b'b' ∷ []

abbrev text_repl : Text
text_repl = b'r' ∷ b'e' ∷ b'p' ∷ b'l' ∷ []

abbrev pub is_repl : Option Text → Bool
is_repl none = false
is_repl (some t) = text_beq t text_repl

abbrev default_id : Option Text → ℕ
default_id none = 0
default_id (some t) = elim (parse_u32 t) [ none ↦ 0 | some n ↦ n ]

module _ (b : Byond) where
  open b use {
    World, get_length, get_assoc_element, index_value, compile_expr, assemble, fresh_buffer,
    call_proc, commit, parse_command,
  }

  -- The values `i`, `i + 1`, ... of the result (`n` of them) go back to where the arguments came
  -- from. A value that cannot be read or has no argument is a panic (`none`).
  unfoldable pub commit_from :
      Option StackFrame → List Arg → Value → (n i : ℕ) → World → Option World
  commit_from f args list zero i w = some w
  commit_from f args list (suc n) i w = elim (get_assoc_element w list (index_value i)) [
    | none ↦ none
    | some v ↦ elim (get_elem? args (i - 2)) [
      | none ↦ none
      | some a ↦ elim f [
        | none ↦ none
        | some frame ↦ commit_from f args list n (i + 1) (commit w frame (slot_of a) v)
      ]
    ]
  ]

  -- What is done with the result of `/proc/auxtools_expr_stub`.
  unfoldable pub take_result :
      (command : Text) → Option StackFrame → List Arg → Option Value → M World (Option Value)
  unfolding commit_from notify
  take_result command f args none s = (notify (call_failed command) >> pure none) s
  take_result command f args (some list) s =
      if is_list list.tag
      then (elim (commit_from f args list (get_length s.world list - 1) 2 s.world) [
        | none ↦ panic
        | some w ↦ elim (get_assoc_element w list (index_value 1)) [
          | none ↦ panic
          | some v ↦ ret (some v, record s { world = w })
        ]
      ])
      else ret (none, s)

  -- `self.eval_error.take()`
  unfoldable pub report_error : M World (Unit {0})
  unfolding notify
  report_error s = elim s.eval_error [
    | none ↦ ret (tt, s)
    | some e ↦ notify (expression_runtime e) (record s { eval_error = none })
  ]

  -- The call of the stub, whose bytecode was just set.
  unfoldable pub run_stub :
      (command : Text) → Option StackFrame → List Arg → Proc → M World (Option Value)
  unfolding take_result report_error
  run_stub command f args stub = do
    modify (λ s. record s { in_eval = true; eval_error = none })
    called ← call_proc stub (map value_of args)
    v ← take_result command f args called
    modify (λ s. record s { in_eval = false })
    report_error
    pure v

  -- `proc.set_bytecode(assembly)`: the vector is in memory at its own buffer.
  unfoldable pub set_stub : Proc → List ℕ → M World (Unit {0})
  unfolding set_bytecode write_words
  set_stub stub words s =
      let fresh = fresh_buffer s.world in
      elim (set_bytecode stub.id words fresh s.bytecodes) [
        | none ↦ panic
        | some code ↦ ret (
          tt,
          record s {
            bytecodes = code;
            hooks = record s.hooks { memory = write_words s.hooks.memory fresh words };
          },
        )
      ]

  unfoldable pub eval_assembly :
      (command : Text) → Option StackFrame → List Arg → List ℕ → M World (Option Value)
  unfolding get_proc notify set_stub run_stub
  eval_assembly command f args words s = elim (get_proc s.procs text_stub) [
    | none ↦ (notify no_expr_stub >> pure none) s
    | some stub ↦ (set_stub stub words >> run_stub command f args stub) s
  ]

  -- `eval_expr` once the arguments are known.
  unfoldable pub eval_with :
      (command : Text) → Option StackFrame → List Arg → M World (Option Value)
  unfolding eval_assembly notify
  eval_with command f args s = elim (compile_expr command (map name_of args)) [
    | err e ↦ (notify (compile_error e) >> pure none) s
    | ok expr ↦
        let (assembly, w) = assemble s.world expr in
        elim assembly [
          | err e ↦ (notify (assemble_error command e) >> pure none) (record s { world = w })
          | ok words ↦ eval_assembly command f args words (record s { world = w })
        ]
  ]

  unfoldable pub eval_expr : (frame_id : Option ℕ) (command : Text) → M World (Option Value)
  unfolding eval_with frame_args get_stack_frame notify
  eval_expr none command s = eval_with command none [] s
  eval_expr (some frame_id) command s = elim (get_stack_frame (stacks_of s) frame_id) [
    | none ↦ (notify (invalid_eval_frame frame_id) >> pure none) s
    | some f ↦ eval_with command (some f) (frame_args f) s
  ]

  abbrev profiler : Profiler → Reply
  profiler (begin none) = no_path
  profiler (begin (some path)) = failure unsupported_platform
  profiler Profiler.end = profiler_disabled
  profiler Profiler.other = unknown_profiler

  -- `handle_command` once clap has parsed the line.
  unfoldable pub run_command : (frame_id : Option ℕ) → Command → M World Reply
  unfolding handle_disassemble get_stack_frame override_id
  run_command frame_id (disassemble (some proc) id) s = handle_disassemble b proc (default_id id) s
  run_command none (disassemble none id) s = ret (no_frame_selected, s)
  run_command (some frame_id) (disassemble none id) s =
      elim (get_stack_frame (stacks_of s) frame_id) [
        | none ↦ ret (no_such_frame, s)
        | some f ↦ handle_disassemble b f.proc.path (override_id s.procs f.proc) s
      ]
  run_command frame_id (guest_override none) s = ret (no_ckey, s)
  run_command frame_id (guest_override (some ckey)) s = ret (failure unsupported_byond_version, s)
  run_command frame_id (mem_profiler p) s = ret (profiler p, s)
  run_command frame_id other s = ret (unknown_command, s)

  unfoldable pub handle_command : (frame_id : Option ℕ) (command : Text) → M World Reply
  unfolding run_command
  handle_command frame_id command s = elim (parse_command command) [
    | err message ↦ ret (usage message, s)
    | ok c ↦ run_command frame_id c s
  ]

  unfoldable pub answer_eval : (context : Option Text) → Option Value → M World (Unit {0})
  unfolding stringify value_to_variables_ref send_or_disconnect
  answer_eval context none = send_or_disconnect (Response.eval no_value none)
  answer_eval context (some v) = do
    vars ← (if is_repl context then pure none else value_to_variables_ref b v)
    s ← get
    send_or_disconnect (Response.eval (result (stringify b s.world v)) vars)

  -- `handle_eval`; a command line starts with `#`.
  unfoldable pub handle_eval :
      (frame_id : Option ℕ) (command : Text) (context : Option Text) → M World (Unit {0})
  unfolding handle_command eval_expr answer_eval send_or_disconnect
  handle_eval frame_id [] context s = (eval_expr frame_id [] >>= answer_eval context) s
  handle_eval frame_id (c ∷ rest) context s =
      if c == b'#'
      then (do r ← handle_command frame_id rest; send_or_disconnect (Response.eval (reply r) none))
          s
      else (eval_expr frame_id (c ∷ rest) >>= answer_eval context) s
