-- ===== src/Envs/Tests.antt =====
-- debug_server/src/assemble_env.rs and disassemble_env.rs: a world with one string.
use auxtools.Base.{ℕ, ◌+◌, ◌≡◌, refl, false, none, some, List, [], ◌∷◌, Text, arith}
use auxtools.Value.{Value}
use auxtools.Handles.{Refs, Natives, one, string_value}
use auxtools.Envs.{get_variable_name_index, get_variable_name}
use auxtools.Envs.Names.{IsStringTable, get_variable_name-get_variable_name_index}

-- The state is the text of the string 5.
abbrev natives : Natives Text
natives = record {
  get_variable = λ v name w. none;
  set_variable = λ v name new w. (false, w);
  call_datum_proc_by_name = λ v name args w. (none, w);
  get_string_id = λ t w. (some 5, t);
  string_text = λ w id. w;
  create_list = λ capacity w. (none, w);
  get_assoc_element = λ l i w. (none, w);
  set_assoc_element = λ l i v w. (false, w);
  append_to_list = λ l v w. (false, w);
  remove_from_list = λ l v w. (false, w);
  call_proc_by_id = λ id args w. (none, w);
  to_string = λ v w. (none, w);
}

abbrev names : Text → List ℕ
names w = 3 ∷ 5 ∷ []

natives_table : IsStringTable natives
natives_table t w w' id e = ground (arith, e)

abbrev start : Refs Text
start = record { taken = λ u. 0; given = λ u. 0; adopted = λ u. 0; passed = λ u. 0; world = [] }

abbrev after : Refs Text
after = record start { taken = λ u. 0 + one (string_value 5) u; world = b'x' ∷ [] }

index_of_x : get_variable_name_index natives names (b'x' ∷ []) start ≡ some (some 1, after)
unfolding get_variable_name_index
index_of_x = refl

get_variable_name-get_variable_name_index_example :
    (r : Refs Text) × (get_variable_name natives names 1 after ≡ some (some (b'x' ∷ []), r))
    × ((u : Value) → r.taken u + after.given u ≡ after.taken u + r.given u)
get_variable_name-get_variable_name_index_example =
    get_variable_name-get_variable_name_index natives names natives_table (b'x' ∷ []) 1 start after
      index_of_x
