-- ===== src/Procs.antt =====
-- auxtools/src/proc.rs: the tables of procs by path and by override number.
pub mod Overrides
pub mod Populate
mod Tests
use auxtools.Base.{
  ℕ, zero, suc, ◌+◌, ◌-◌, Bool, true, false, ◌&&◌, Option, none, some, List, [], ◌∷◌, ◌++◌, ◌==◌,
  if◌then◌else◌, Text, text_eq, nat_eq, length, get_elem?, lookup, insert,
}

-- `entry` is the pointer into BYOND's proc array.
pub record Proc : Type 0 where
  pub id : ℕ
  pub entry : ℕ
  pub path : Text

-- An entry of BYOND's proc array: its address and the path that it names.
pub record RawProc : Type 0 where
  pub address : ℕ
  pub raw_path : Text

pub record Registry : Type 0 where
  pub by_name : List (Text × List Proc)
  pub override_ids : List (ℕ × ℕ)

abbrev pub starts_with : Text → Text → Bool
starts_with [] s = true
starts_with (p ∷ pat) [] = false
starts_with (p ∷ pat) (c ∷ s) = (p == c) && starts_with pat s

-- `str::replace`: occurrences from the left that do not overlap. `skip` bytes still belong to the
-- last occurrence.
unfoldable pub replace_from : (pat to : Text) → ℕ → Text → Text
replace_from pat to skip [] = []
replace_from pat to (suc skip) (c ∷ s) = replace_from pat to skip s
replace_from pat to zero (c ∷ s) =
    let found = to ++ replace_from pat to (length pat - 1) s in
    let kept = c ∷ replace_from pat to zero s in if starts_with pat (c ∷ s) then found else kept

abbrev pub proc_segment : Text
proc_segment = b'/' ∷ b'p' ∷ b'r' ∷ b'o' ∷ b'c' ∷ b'/' ∷ []

abbrev pub verb_segment : Text
verb_segment = b'/' ∷ b'v' ∷ b'e' ∷ b'r' ∷ b'b' ∷ b'/' ∷ []

abbrev pub slash : Text
slash = b'/' ∷ []

unfoldable pub strip_path : Text → Text
unfolding replace_from
strip_path p = replace_from verb_segment slash 0 (replace_from proc_segment slash 0 p)

-- `Proc::from_id` for an entry that is not null.
unfoldable pub from_entry : ℕ → RawProc → Proc
from_entry i e = record { id = i; entry = e.address; path = strip_path e.raw_path }

-- `Proc::from_id`
unfoldable pub from_id : List RawProc → ℕ → Option Proc
unfolding from_entry
from_id procs i = elim (get_elem? procs i) [ none ↦ none | some e ↦ some (from_entry i e) ]

-- The body of the loop of `populate_procs`.
unfoldable pub register : Proc → Registry → Registry
register p r = elim (lookup p.path r.by_name) [
  | some ps ↦ record {
    by_name = insert p.path (ps ++ p ∷ []) r.by_name;
    override_ids = insert p.id (length ps) r.override_ids;
  }
  | none ↦ record {
    by_name = insert p.path (p ∷ []) r.by_name;
    override_ids = insert p.id 0 r.override_ids;
  }
]

-- The loop from index `i`, over the entries that are left before the first null one.
unfoldable pub populate_from : ℕ → List RawProc → Registry → Registry
unfolding from_entry register
populate_from i [] r = r
populate_from i (e ∷ rest) r = populate_from (i + 1) rest (register (from_entry i e) r)

abbrev pub empty_registry : Registry
empty_registry = record { by_name = []; override_ids = [] }

unfoldable pub populate_procs : List RawProc → Registry
unfolding populate_from
populate_procs procs = populate_from 0 procs empty_registry

unfoldable pub clear_procs : Registry → Registry
clear_procs r = empty_registry

unfoldable pub get_proc_override : Registry → Text → ℕ → Option Proc
get_proc_override r path n = elim (lookup (strip_path path) r.by_name) [
  | none ↦ none
  | some ps ↦ get_elem? ps n
]

unfoldable pub get_proc : Registry → Text → Option Proc
unfolding get_proc_override
get_proc r path = get_proc_override r path 0

-- `Proc::override_id`
unfoldable pub override_id : Registry → Proc → ℕ
override_id r p = elim (lookup p.id r.override_ids) [ some n ↦ n | none ↦ 0 ]

-- `Proc::find` and `Proc::find_override`
unfoldable pub find : Registry → Text → Option Proc
unfolding get_proc
find r path = get_proc r path

unfoldable pub find_override : Registry → Text → ℕ → Option Proc
unfolding get_proc_override
find_override r path n = get_proc_override r path n
