-- ===== src/Server/Breakpoints.antt =====
-- debug_server/src/server.rs: requests that set and remove breakpoints, and the disassembly of a proc
-- without its breakpoints.
use auxtools.Base.{
  ℕ, ◌%◌, ◌^◌, true, false, Option, none, some, List, [], ◌∷◌, Text, insert, remove,
}
use auxtools.Procs.{Proc, get_proc_override}
use auxtools.Hooking.{
  Hooks, Hooked, ok, invalid_offset, Code, hook_instruction, unhook_instruction, get_hooked_offsets,
}
use auxtools.Server.Messages.{
  InstructionRef, SetResult, failed, Reply, dism, proc_not_found, breakpoint_set, breakpoint_unset,
}
use auxtools.Server.Session.{Session, key_eq, ret, panic, M, send_or_disconnect}
use auxtools.Server.World.{Byond}
use auxtools.Server.Lines.{get_line_number, nodes_of}
use auxtools.Hooking

abbrev pub find_override : {W : Type 0} → Session W → Text → ℕ → Option Proc
find_override s path id = get_proc_override s.procs path id

abbrev pub code_of : {W : Type 0} → Session W → Proc → Code
code_of s p = s.bytecodes.entry p.id

-- The key of a condition: the offset as a `u16`.
abbrev pub condition_key : Proc → ℕ → ℕ × ℕ
condition_key p offset = (p.id, offset % 2 ^ 16)

abbrev add_condition : ℕ × ℕ → Option Text → List ((ℕ × ℕ) × Text) → List ((ℕ × ℕ) × Text)
add_condition key none conditions = conditions
add_condition key (some c) conditions = insert key c conditions

module _ (b : Byond) where
  open b use {World, disassembler, disassembly_error}

  unfoldable pub handle_breakpoint_set :
      InstructionRef → (condition : Option Text) → M World (Unit {0})
  unfolding get_line_number hook_instruction send_or_disconnect
  handle_breakpoint_set i condition s =
      let line = get_line_number disassembler s.hooks.memory s.bytecodes s.procs i.proc i.offset in
      elim (find_override s i.proc.path i.proc.override_id) [
        | none ↦ send_or_disconnect (breakpoint_set failed) s
        | some p ↦ elim (hook_instruction disassembler s.hooks (code_of s p) i.offset) [
          | ok hooks ↦ send_or_disconnect (breakpoint_set (SetResult.success line)) (record s {
            hooks = hooks;
            conditional_breakpoints =
                add_condition (condition_key p i.offset) condition s.conditional_breakpoints;
          })
          | invalid_offset ↦ send_or_disconnect (breakpoint_set failed) s
          | Hooked.panic ↦ panic
        ]
      ]

  -- A proc that is not found is answered as if a breakpoint had been to be set.
  unfoldable pub handle_breakpoint_unset : InstructionRef → M World (Unit {0})
  unfolding unhook_instruction send_or_disconnect
  handle_breakpoint_unset i s = elim (find_override s i.proc.path i.proc.override_id) [
    | none ↦ send_or_disconnect (breakpoint_set failed) s
    | some p ↦
        let conditions = remove (condition_key p i.offset) s.conditional_breakpoints in
        elim (unhook_instruction disassembler s.hooks (code_of s p) i.offset) [
          | ok hooks ↦
              send_or_disconnect (breakpoint_unset true)
                (record s { hooks = hooks; conditional_breakpoints = conditions })
          | invalid_offset ↦
              send_or_disconnect (breakpoint_unset false)
                (record s { conditional_breakpoints = conditions })
          | Hooked.panic ↦ panic
        ]
  ]

  -- The loops of `handle_disassemble`. A breakpoint that cannot be taken out or put back is a panic.
  unfoldable pub unhook_all : Code → List ℕ → Hooks → Option Hooks
  unfolding unhook_instruction
  unhook_all c [] s = some s
  unhook_all c (offset ∷ rest) s = elim (unhook_instruction disassembler s c offset) [
    | ok t ↦ unhook_all c rest t
    | _ ↦ none
  ]

  unfoldable pub hook_all : Code → List ℕ → Hooks → Option Hooks
  unfolding hook_instruction
  hook_all c [] s = some s
  hook_all c (offset ∷ rest) s = elim (hook_instruction disassembler s c offset) [
    | ok t ↦ hook_all c rest t
    | _ ↦ none
  ]

  unfoldable pub handle_disassemble : (path : Text) (id : ℕ) → M World Reply
  unfolding unhook_all hook_all get_hooked_offsets nodes_of Hooking.bytecode
  handle_disassemble path id s = elim (find_override s path id) [
    | none ↦ ret (proc_not_found, s)
    | some p ↦
        let breaks = get_hooked_offsets disassembler s.hooks (code_of s p) in
        elim (unhook_all (code_of s p) breaks s.hooks) [
          | none ↦ panic
          | some bare ↦
              let nodes = nodes_of disassembler bare.memory s.bytecodes p in
              let error = disassembly_error (Hooking.bytecode bare.memory (code_of s p)) in
              elim (hook_all (code_of s p) breaks bare) [
                | none ↦ panic
                | some hooks ↦ ret (dism p nodes error, record s { hooks = hooks })
              ]
        ]
  ]
