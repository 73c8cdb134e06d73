-- ===== src/RawTypes/Misc.antt =====
-- auxtools/src/raw_types/misc.rs: the entries of BYOND's table that hold the bytecode, the locals and
-- the parameters of a proc, in the two layouts that BYOND's versions have. Pointers have 4 bytes.
use auxtools.Base.{ℕ, ◌+◌, ◌/◌, Bool, ◌||◌, Option, none, some, ltb, leb, if◌then◌else◌}
use auxtools.Hooking.{Code}
use auxtools.RawTypes.Memory.{Memory, read_u16, read_u32, write_u16, write_u32}

-- `version::get`
pub record Version : Type 0 where
  pub major : ℕ
  pub minor : ℕ

-- `major > 513 || minor >= 1539`: the entry has the second layout.
unfoldable pub has_v2 : Version → Bool
has_v2 v = ltb 513 v.major || leb 1539 v.minor

-- A number and a pointer: `Locals` and, with four times the number, `Parameters`.
pub record Sized : Type 0 where
  pub pointer : ℕ
  pub count : ℕ

-- `Misc_V1` and `Misc_V2`: where a field of the union starts in the entry. The first has the count
-- and the pointer, the second has a word of unknown use between them.
abbrev pub count_at : ℕ → ℕ
count_at misc = misc

abbrev pub v1_pointer_at : ℕ → ℕ
v1_pointer_at misc = misc + 4

abbrev pub unk_0_at : ℕ → ℕ
unk_0_at misc = misc + 4

abbrev pub v2_pointer_at : ℕ → ℕ
v2_pointer_at misc = misc + 8

unfoldable pub pointer_at : Version → ℕ → ℕ
unfolding has_v2
pointer_at v misc = if has_v2 v then v2_pointer_at misc else v1_pointer_at misc

unfoldable pub write_v1 : Memory → (misc : ℕ) → (new_bytecode count : ℕ) → Memory
write_v1 m misc new_bytecode count =
    write_u16 (write_u32 m (v1_pointer_at misc) new_bytecode) (count_at misc) count

unfoldable pub write_v2 : Memory → (misc : ℕ) → (new_bytecode count : ℕ) → Memory
write_v2 m misc new_bytecode count =
    write_u16 (write_u32 m (v2_pointer_at misc) new_bytecode) (count_at misc) count

-- `get_misc_by_id` gives the address of an entry; each function panics (`none`) if there is none.
module _ (get_misc_by_id : ℕ → Option ℕ) (v : Version) where
  -- The fields of the first layout are written in both cases.
  unfoldable pub set_bytecode : (id new_bytecode new_bytecode_count : ℕ) → Memory → Option Memory
  unfolding has_v2 write_v1 write_v2
  set_bytecode id new_bytecode new_bytecode_count m = elim (get_misc_by_id id) [
    | none ↦ none
    | some misc ↦
        let first = if has_v2 v then write_v2 m misc new_bytecode new_bytecode_count else m in
        some (write_v1 first misc new_bytecode new_bytecode_count)
  ]

  unfoldable pub get_bytecode : (id : ℕ) → Memory → Option Code
  unfolding pointer_at
  get_bytecode id m = elim (get_misc_by_id id) [
    | none ↦ none
    | some misc ↦
        some (record { ptr = read_u32 m (pointer_at v misc); count = read_u16 m (count_at misc) })
  ]

  unfoldable pub get_locals : (id : ℕ) → Memory → Option Sized
  unfolding pointer_at
  get_locals id m = elim (get_misc_by_id id) [
    | none ↦ none
    | some misc ↦
        some
          (record { pointer = read_u32 m (pointer_at v misc); count = read_u16 m (count_at misc) })
  ]

  unfoldable pub get_parameters : (id : ℕ) → Memory → Option Sized
  unfolding pointer_at
  get_parameters id m = elim (get_misc_by_id id) [
    | none ↦ none
    | some misc ↦ some (record {
      pointer = read_u32 m (pointer_at v misc);
      count = read_u16 m (count_at misc) / 4;
    })
  ]
