-- ===== src/RawTypes/Names.antt =====
-- auxtools/src/proc.rs: the accessors of a proc that read its entry in BYOND's memory.
-- raw_types/procs.rs has the layout of the entry.
use auxtools.Base.{ℕ, zero, suc, ◌+◌, ◌*◌, Option, none, some, List, [], ◌∷◌, map}
use auxtools.Hooking.{Code}
use auxtools.RawTypes.Memory.{Memory, read_u32}
use auxtools.RawTypes.Misc.{Version, get_bytecode, get_locals, get_parameters}

-- `ProcEntry`: where a field starts in the entry.
abbrev pub bytecode_at : ℕ → ℕ
bytecode_at entry = entry + 0x18

abbrev pub locals_at : ℕ → ℕ
locals_at entry = entry + 0x1c

abbrev pub parameters_at : ℕ → ℕ
parameters_at entry = entry + 0x20

-- The words of an array with elements of `stride` bytes, each `offset` bytes into its element.
unfoldable pub words_at : Memory → (stride offset array : ℕ) → (count : ℕ) → List ℕ
words_at m stride offset array zero = []
words_at m stride offset array (suc count) =
    read_u32 m (array + offset) ∷ words_at m stride offset (array + stride) count

-- `StringRef::from_variable_id`: the string of a variable's name.
unfoldable pub from_variable_id : Memory → (entries id : ℕ) → ℕ
from_variable_id m entries id = read_u32 m (entries + 4 * id)

module _ (get_misc_by_id : ℕ → Option ℕ) (v : Version) (entries : ℕ) where
  -- `ParametersData` has 16 bytes, with the name 8 bytes into it.
  unfoldable pub parameter_names : (entry : ℕ) → Memory → Option (List ℕ)
  unfolding words_at from_variable_id
  parameter_names entry m =
      elim (get_parameters get_misc_by_id v (read_u32 m (parameters_at entry)) m) [
        | none ↦ none
        | some params ↦
            some (map (from_variable_id m entries) (words_at m 16 8 params.pointer params.count))
      ]

  unfoldable pub local_names : (entry : ℕ) → Memory → Option (List ℕ)
  unfolding words_at from_variable_id
  local_names entry m = elim (get_locals get_misc_by_id v (read_u32 m (locals_at entry)) m) [
    | none ↦ none
    | some names ↦
        some (map (from_variable_id m entries) (words_at m 4 0 names.pointer names.count))
  ]

module _ (get_misc_by_id : ℕ → Option ℕ) (v : Version) where
  unfoldable pub bytecode_mut_ptr : (entry : ℕ) → Memory → Option Code
  bytecode_mut_ptr entry m = get_bytecode get_misc_by_id v (read_u32 m (bytecode_at entry)) m

  -- `Proc::bytecode`
  unfoldable pub bytecode : (entry : ℕ) → Memory → Option (List ℕ)
  unfolding words_at bytecode_mut_ptr
  bytecode entry m = elim (bytecode_mut_ptr entry m) [
    | none ↦ none
    | some c ↦ some (words_at m 4 0 c.ptr c.count)
  ]
