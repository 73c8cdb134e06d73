-- ===== src/Envs.antt =====
-- debug_server/src/assemble_env.rs and disassemble_env.rs: what dmasm's assembler and disassembler ask
-- of BYOND's strings, variable names and procs. A reference that assembled code holds stays taken.
pub mod Names
mod Tests
use auxtools.Base.{
  ℕ, zero, suc, ◌+◌, Bool, true, false, Option, none, some, List, [], ◌∷◌, ◌==◌, if◌then◌else◌,
  get_elem?, Text,
}
use auxtools.Value.{Value, ValueTag}
use auxtools.Procs.{Proc, Registry, RawProc, get_proc, from_id}
use auxtools.Handles.{
  Refs, Res, good, bad, Natives, contains_nul, R, ◌>>=◌, ◌>>◌, pure, string_value, from_raw, drop,
  create_string, has_nul,
}
use auxtools.Handles.Convert.{to_dmstring}

-- The loop over the table of variable names, from an index on.
unfoldable pub index_of : (id : ℕ) → List ℕ → (i : ℕ) → Option ℕ
index_of id [] i = none
index_of id (entry ∷ rest) i =
    let later = index_of id rest (i + 1) in if entry == id then some i else later

module _ {W : Type 0} (n : Natives W) where
  -- `StringRef::from_raw`
  unfoldable pub from_bytes : Text → R W (Res Value)
  unfolding has_nul create_string
  from_bytes data_bytes s =
      if has_nul data_bytes
      then some (bad contains_nul, s)
      else (create_string n data_bytes >>= (λ v. pure (good v))) s

  -- `StringRef::data`
  unfoldable pub data_of : Value → R W Text
  data_of v s = some (n.string_text s.world v.data_id, s)

  -- `AssembleEnv`. The reference is kept: `std::mem::forget`.
  unfoldable pub get_string_index : Text → R W (Option ℕ)
  unfolding from_bytes
  get_string_index text =
      from_bytes text >>= (λ r. elim r [ bad _ ↦ pure none | good v ↦ pure (some v.data_id) ])

  -- `DisassembleEnv`
  unfoldable pub get_string_data : (index : ℕ) → R W (Option Text)
  unfolding from_raw data_of drop
  get_string_data index =
      from_raw (string_value index) >>= (λ v. data_of v >>= (λ t. drop v >> pure (some t)))

  module _ (names : W → List ℕ) where
    -- `AssembleEnv`; `names` is BYOND's table `VARIABLE_NAMES`.
    unfoldable pub get_variable_name_index : Text → R W (Option ℕ)
    unfolding get_string_index index_of
    get_variable_name_index name = get_string_index name >>= (λ r s. elim r [
      | none ↦ some (none, s)
      | some id ↦ some (index_of id (names s.world) 0, s)
    ])

    -- `DisassembleEnv`, which reads the table at an index without a test; outside of it there is no
    -- result (`none`).
    unfoldable pub get_variable_name : (index : ℕ) → R W (Option Text)
    unfolding get_string_data
    get_variable_name index s = elim (get_elem? (names s.world) index) [
      | none ↦ none
      | some id ↦ get_string_data id s
    ]

  module _ (number_text : ℕ → Text) (quoted : Text → Text) where
    -- `value_to_string_data`: the value is dropped at the end, the string before it.
    unfoldable pub value_to_string_data : Value → R W (Option Text)
    unfolding to_dmstring from_raw data_of drop
    value_to_string_data raw = from_raw raw >>= (λ v. to_dmstring n number_text quoted v >>= (λ r.
        elim r [
          | bad _ ↦ (drop v >> pure none)
          | good t ↦ data_of t >>= (λ x. drop t >> (drop v >> pure (some x)))
        ]))

-- `get_proc_index` and `get_proc_name`
unfoldable pub get_proc_index : Registry → Text → Option ℕ
get_proc_index procs path = elim (get_proc procs path) [ none ↦ none | some p ↦ some p.id ]

unfoldable pub get_proc_name : List RawProc → (index : ℕ) → Option Text
get_proc_name raw_procs index = elim (from_id raw_procs index) [
  | none ↦ none
  | some p ↦ some p.path
]
