-- ===== src/Hooking.antt =====
-- debug_server/src/instruction_hooking.rs: breakpoints that are written into a proc's bytecode.
-- Memory is a function from word addresses to words. A panic ends the process (it would unwind
-- through an `extern "C"` function), so it carries no state.
pub mod Memory
pub mod Shown
pub mod Invariant
pub mod Placing
pub mod Setting
pub mod Run
mod Tests
use auxtools.Base.{
  ℕ, zero, suc, ◌+◌, ◌-◌, Bool, true, false, Option, none, some, List, [], ◌∷◌, ◌++◌, ltb, leb,
  ◌==◌, if◌then◌else◌, length, get_elem?, lookup, insert, remove, nat_eq,
}
use auxtools.Dmasm.{Instruction, auxtools_debug_break, Node, instruction, label, Disassembler}

abbrev pub opcode_dbgline : ℕ
opcode_dbgline = 0x85

abbrev pub opcode_debug_break : ℕ
opcode_debug_break = 0x1337

abbrev pub opcode_debug_operand : ℕ
opcode_debug_operand = 0x1338

abbrev pub Memory : Type 0
Memory = ℕ → ℕ

-- `copy_nonoverlapping` of `ws` to address `p`.
unfoldable pub write_words : Memory → ℕ → List ℕ → Memory
write_words m p ws a =
    if leb p a then (elim (get_elem? ws (a - p)) [ some w ↦ w | none ↦ m a ]) else m a

-- `from_raw_parts(p, n).to_vec()`
unfoldable pub read_words : Memory → ℕ → ℕ → List ℕ
read_words m p zero = []
read_words m p (suc n) = m p ∷ read_words m (p + 1) n

-- `ORIGINAL_BYTECODE`, keyed by address.
abbrev pub Originals : Type 0
Originals = List (ℕ × List ℕ)

pub record Hooks : Type 0 where
  pub memory : Memory
  pub original : Originals
  -- `DEFERRED_INSTRUCTION_REPLACE`: words and the address that they go to
  pub deferred : Option (List ℕ × ℕ)

-- What `Proc::bytecode_mut_ptr` returns.
pub record Code : Type 0 where
  pub ptr : ℕ
  pub count : ℕ

pub data Hooked : Type 0 where
  ok : Hooks → Hooked
  invalid_offset : Hooked
  panic : Hooked

-- The first instruction at `offset`, with its length in words.
unfoldable pub find_instruction : ℕ → List Node → Option (Instruction × ℕ)
find_instruction offset [] = none
find_instruction offset (label ∷ nodes) = find_instruction offset nodes
find_instruction offset (instruction ins o n ∷ nodes) =
    if o == offset then some (ins, n) else find_instruction offset nodes

unfoldable pub bytecode : Memory → Code → List ℕ
unfolding read_words
bytecode m c = read_words m c.ptr c.count

-- The words of a hooked instruction: the break and an operand for each further word.
unfoldable pub break_words : ℕ → List ℕ
break_words zero = []
break_words (suc n) = opcode_debug_operand ∷ break_words n

-- `hook_instruction` once the instruction has been found to have `n` words. The slice writes panic
-- outside the bytecode.
unfoldable pub place_hook : Hooks → Code → (offset n : ℕ) → Hooked
unfolding write_words read_words break_words
place_hook s c offset n =
    let p : ℕ = c.ptr + offset in
    if s.memory p == opcode_debug_break
    then ok s
    else if leb c.count offset
    then panic
    else if ltb c.count (offset + n)
    then panic
    else ok (record {
      memory = write_words s.memory p (opcode_debug_break ∷ break_words (n - 1));
      original = insert p (read_words s.memory p n) s.original;
      deferred = s.deferred;
    })

unfoldable pub hook_instruction : Disassembler → Hooks → Code → ℕ → Hooked
unfolding find_instruction bytecode place_hook
hook_instruction disassemble s c offset =
    elim (find_instruction offset (disassemble (bytecode s.memory c))) [
      | none ↦ invalid_offset
      | some (_, n) ↦ place_hook s c offset n
    ]

-- A pending replacement of the address is dropped.
unfoldable pub forget_deferred : ℕ → Option (List ℕ × ℕ) → Option (List ℕ × ℕ)
forget_deferred p none = none
forget_deferred p (some (src, dst)) = if dst == p then none else some (src, dst)

unfoldable pub take_hook : Hooks → ℕ → Hooks
unfolding write_words forget_deferred
take_hook s p = elim (lookup p s.original) [
  | none ↦ s
  | some ws ↦ record {
    memory = write_words s.memory p ws;
    original = remove p s.original;
    deferred = forget_deferred p s.deferred;
  }
]

unfoldable pub unhook_instruction : Disassembler → Hooks → Code → ℕ → Hooked
unfolding find_instruction bytecode take_hook
unhook_instruction disassemble s c offset =
    elim (find_instruction offset (disassemble (bytecode s.memory c))) [
      | none ↦ invalid_offset
      | some _ ↦ ok (take_hook s (c.ptr + offset))
    ]

unfoldable pub break_offsets : List Node → List ℕ
break_offsets [] = []
break_offsets (label ∷ nodes) = break_offsets nodes
break_offsets (instruction auxtools_debug_break o n ∷ nodes) = o ∷ break_offsets nodes
break_offsets (instruction _ o n ∷ nodes) = break_offsets nodes

unfoldable pub get_hooked_offsets : Disassembler → Hooks → Code → List ℕ
unfolding bytecode break_offsets
get_hooked_offsets disassemble s c = break_offsets (disassemble (bytecode s.memory c))

-- The first block of `handle_instruction`: a break that was lifted for one instruction is put back.
unfoldable pub replace_deferred : Hooks → Hooks
unfolding write_words
replace_deferred s = elim s.deferred [
  | none ↦ s
  | some (src, dst) ↦ record {
    memory = write_words s.memory dst src;
    original = s.original;
    deferred = none;
  }
]

-- The last block of `handle_instruction`: at a break the original words are put in place, and the
-- break waits for the next instruction. The assertion is that nothing waits yet.
unfoldable pub lift_break : Hooks → ℕ → Hooked
unfolding write_words read_words
lift_break s p = elim (lookup p s.original) [
  | none ↦ ok s
  | some ws ↦ elim s.deferred [
    | some _ ↦ panic
    | none ↦ ok (record {
      memory = write_words s.memory p ws;
      original = s.original;
      deferred = some (read_words s.memory p (length ws), p);
    })
  ]
]

-- `instruction_hooking_shutdown` forgets what was pending; the memory is BYOND's.
unfoldable pub hooking_shutdown : Hooks → Hooks
hooking_shutdown s = record { memory = s.memory; original = []; deferred = none }
