-- ===== src/Handles/Tests.antt =====
-- BYOND without lists and strings but one, and the theorems about references there.
use auxtools.Base.{ℕ, ◌+◌, ◌≡◌, refl, true, false, none, some, [], ◌∷◌, Text}
use auxtools.Value.{Value, value, mob}
use auxtools.Handles.{Refs, bad, contains_nul, Natives, call, has_nul, spaced}
use auxtools.Handles.Balance.{held_all, Kept}
use auxtools.Handles.Calls.{write, consumes, perform, perform-Kept}
use auxtools.Handles.Leaks.{IsTaken, call-IsTaken}

-- The state counts the calls.
abbrev natives : Natives ℕ
natives = record {
  get_variable = λ v name w. some v;
  set_variable = λ v name new w. (false, w + 1);
  call_datum_proc_by_name = λ v name args w. (some v, w + 1);
  get_string_id = λ t w. (some 5, w + 1);
  string_text = λ w id. b'a' ∷ [];
  create_list = λ capacity w. (some 3, w + 1);
  get_assoc_element = λ l i w. (some i, w + 1);
  set_assoc_element = λ l i v w. (true, w + 1);
  append_to_list = λ l v w. (true, w + 1);
  remove_from_list = λ l v w. (true, w + 1);
  call_proc_by_id = λ id args w. (none, w + 1);
  to_string = λ v w. (some 6, w + 1);
}

abbrev start : Refs ℕ
start = record { taken = λ u. 0; given = λ u. 0; adopted = λ u. 0; passed = λ u. 0; world = 0 }

abbrev a_mob : Value
a_mob = value mob 1

abbrev no_text : ℕ → Text
no_text n = []

abbrev as_it_is : Text → Text
as_it_is t = t

-- A write that fails.
perform-Kept_example :
    Kept
      (consumes (write a_mob 5 a_mob))
      start
      (perform natives no_text as_it_is (write a_mob 5 a_mob) start)
      held_all
perform-Kept_example = perform-Kept natives no_text as_it_is (write a_mob 5 a_mob) start tt

-- The text a, NUL.
abbrev with_nul : Text
with_nul = b'a' ∷ 0 ∷ []

has_a_nul : has_nul with_nul ≡ true
unfolding has_nul
has_a_nul = refl

call-IsTaken_example :
    (t : Refs ℕ) × (call natives a_mob with_nul (a_mob ∷ []) start ≡ some (bad contains_nul, t))
    × IsTaken (a_mob ∷ []) start t
call-IsTaken_example = call-IsTaken natives a_mob with_nul (a_mob ∷ []) start has_a_nul

-- An underscore of the name is a space in BYOND's.
spaced_name : spaced (b'a' ∷ b'_' ∷ b'b' ∷ []) ≡ b'a' ∷ b' ' ∷ b'b' ∷ []
unfolding spaced
spaced_name = refl
