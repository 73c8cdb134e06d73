-- ===== src/Hooking/Tests.antt =====
-- A breakpoint on an instruction of two words at address 10, run by evaluation, and the theorems
-- there.
use auxtools.Base.{
  ℕ, ◌≡◌, refl, arith, none, some, [], ◌∷◌, lookup, nat_eq, inl, ◌==◌, if◌then◌else◌,
}
use auxtools.Dmasm.{Disassembler, instruction, other}
use auxtools.Hooking.{
  Memory, Hooks, Code, ok, opcode_debug_break, opcode_debug_operand, write_words, read_words,
  hook_instruction, lift_break, replace_deferred,
}
use auxtools.Hooking.Shown.{shown}
use auxtools.Hooking.Run.{Run, start, next, hook, lift, untouched, Run-restores, Run-armed}

abbrev words : Memory
words a = if a == 10 then 7 else if a == 11 then 8 else 9

abbrev one_instruction : Disassembler
one_instruction ws = instruction (other 0) 0 2 ∷ []

abbrev code : Code
code = record { ptr = 10; count = 2 }

abbrev hooked_state : Hooks
hooked_state = record {
  memory = write_words words 10 (opcode_debug_break ∷ opcode_debug_operand ∷ []);
  original = (10, 7 ∷ 8 ∷ []) ∷ [];
  deferred = none;
}

abbrev lifted_state : Hooks
lifted_state = record {
  memory = write_words hooked_state.memory 10 (7 ∷ 8 ∷ []);
  original = (10, 7 ∷ 8 ∷ []) ∷ [];
  deferred = some (opcode_debug_break ∷ opcode_debug_operand ∷ [], 10);
}

hook_runs : hook_instruction one_instruction (untouched words) code 0 ≡ ok hooked_state
unfolding hook_instruction
hook_runs = refl

lift_runs : lift_break hooked_state 10 ≡ ok lifted_state
unfolding lift_break write_words read_words
lift_runs = refl

run : Run (untouched words) lifted_state
unfolding hook_instruction lift_break write_words read_words
run =
    next
      (next start
        (hook one_instruction code 0 (λ ins n e. (ground arith, inl (refl, tt))) hook_runs))
      (lift 10 lift_runs)

Run-restores_example :
    ((a : ℕ) → shown lifted_state.memory lifted_state.original a ≡ words a)
    × (lifted_state.original ≡ [] → (a : ℕ) → lifted_state.memory a ≡ words a)
Run-restores_example = Run-restores words lifted_state run

Run-armed_example :
    (lookup 10 (replace_deferred lifted_state).original ≡ some (7 ∷ 8 ∷ []))
    × ((replace_deferred lifted_state).memory 10 ≡ opcode_debug_break)
Run-armed_example = Run-armed words lifted_state 10 (7 ∷ 8 ∷ []) run refl
