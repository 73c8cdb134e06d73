-- ===== src/Dmasm.antt =====
-- The part of the dmasm crate's interface that debug_server reads. The crate is not in the
-- repository: its disassembler is an argument of the definitions that call it.
use auxtools.Base.{ℕ, List}

-- An instruction, as far as the program tells them apart.
pub data Instruction : Type 0 where
  dbg_line : ℕ → Instruction
  auxtools_debug_break : Instruction
  other : ℕ → Instruction

-- A node of a disassembly: an instruction with its `DebugData` (offset and number of words), or a
-- label or comment, which the program skips.
pub data Node : Type 0 where
  instruction : Instruction → (offset length : ℕ) → Node
  label : Node

abbrev pub Disassembler : Type 0
Disassembler = List ℕ → List Node
