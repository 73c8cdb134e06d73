-- ===== src/Handles/Calls.antt =====
-- auxtools/src/value.rs and list.rs: the references that every operation keeps, and those of a call.
use auxtools.Base.{ℕ, ◌+◌, ◌≡◌, refl, false, Option, none, some, List, [], ◌∷◌, arith, Text}
use auxtools.Value.{Value}
use auxtools.Handles.{
  Refs, Res, good, bad, Natives, R, ◌>>=◌, pure, one, string_value, from_raw, drop, get, set,
  as_list, get_number, get_string, get_list, from_string, with_size, list_get, list_set, append,
  remove, from_iter, call, has_nul,
}
use auxtools.Handles.Convert.{
  from_value, call_proc, from_vec, from_map, from_named, to_text, to_dmstring, get_type,
  is_exact_type,
}
use auxtools.Handles.Converted.{
  held_maybe, from_value-IsBalanced, from_vec-IsBalanced, from_map-IsBalanced,
  from_named-IsBalanced,
}
use auxtools.Handles.Described.{
  call_proc-IsBalanced, to_text-IsBalanced, to_dmstring-IsBalanced, get_type-IsBalanced,
  is_exact_type-IsBalanced,
}
use auxtools.Handles.Leaks.{call-Kept}
use auxtools.Handles.Balance.{
  Held, nothing, held_of, held_all, Kept, IsBalanced, bind-Kept, drop-IsBalanced,
}
use auxtools.Handles.Values.{
  get-IsBalanced, set-IsBalanced, get_number-IsBalanced, get_string-IsBalanced, get_list-IsBalanced,
  as_list-IsBalanced, from_string-IsBalanced,
}
use auxtools.Handles.Lists.{
  with_size-IsBalanced, list_get-IsBalanced, list_set-IsBalanced, append-IsBalanced,
  remove-IsBalanced, from_iter-IsBalanced,
}

-- The operations, with the values that they use. A name is a string that is held.
pub data Operation : Type 0 where
  copy release as_a_list : Value → Operation
  read read_number read_string read_list : (self : Value) (name : ℕ) → Operation
  write : (self : Value) (name : ℕ) (new : Value) → Operation
  make_string : Text → Operation
  make_list : (capacity : ℕ) → Operation
  collect : List Value → Operation
  element : (self index : Value) → Operation
  set_element : (self index new : Value) → Operation
  add take_out : (self item : Value) → Operation
  as_a_string : Value → Operation
  call_method : (self : Value) (name : Text) (args : List Value) → Operation
  invoke : (proc_id : ℕ) (args : List Value) → Operation
  copy_all : List Value → Operation
  map_of : List (Value × Value) → Operation
  named_of : List (Text × Value) → Operation
  describe as_dmstring : Value → Operation
  type_of : (self : Value) (type_name : ℕ) → Operation
  has_type : (self : Value) (type_name : ℕ) (typepath : Text) → Operation

-- What an operation consumes, each with its reference.
abbrev pub consumes : Operation → Held
consumes (copy v) = nothing
consumes (release v) = one v
consumes (as_a_list v) = nothing
consumes (read self name) = one (string_value name)
consumes (read_number self name) = one (string_value name)
consumes (read_string self name) = one (string_value name)
consumes (read_list self name) = one (string_value name)
consumes (write self name new) = λ u. one (string_value name) u + one new u
consumes (make_string t) = nothing
consumes (make_list capacity) = nothing
consumes (collect vs) = held_all vs
consumes (element self index) = one index
consumes (set_element self index new) = λ u. one index u + one new u
consumes (add self item) = one item
consumes (take_out self item) = one item
consumes (as_a_string v) = one v
consumes _ = nothing

-- The name of a proc that is called has no NUL.
abbrev pub IsNamed : Operation → Type 0
IsNamed (call_method self name args) = has_nul name ≡ false
IsNamed _ = Unit

module _ {W : Type 0} (n : Natives W) (number_text : ℕ → Text) (quoted : Text → Text) where
  -- The values that an operation leaves to its caller.
  abbrev results : {A : Type 0} → (A → List Value) → R W A → R W (List Value)
  results f m = m >>= (λ a. pure (f a))

  abbrev of_result : Res Value → List Value
  of_result (good v) = v ∷ []
  of_result (bad e) = []

  abbrev of_option : Option Value → List Value
  of_option none = []
  of_option (some v) = v ∷ []

  unfoldable pub perform : Operation → R W (List Value)
  perform (copy v) = results (λ r. r ∷ []) (from_raw v)
  perform (release v) = results (λ _. []) (drop v)
  perform (as_a_list v) = results of_result (as_list n v)
  perform (read self name) = results of_result (get n self name)
  perform (read_number self name) = results (λ _. []) (get_number n self name)
  perform (read_string self name) = results (λ _. []) (get_string n self name)
  perform (read_list self name) = results of_result (get_list n self name)
  perform (write self name new) = results (λ _. []) (set n self name new)
  perform (make_string t) = results of_result (from_string n t)
  perform (make_list capacity) = results (λ r. r ∷ []) (with_size n capacity)
  perform (collect vs) = results (λ r. r ∷ []) (from_iter n vs)
  perform (element self index) = results of_result (list_get n self index)
  perform (set_element self index new) = results (λ _. []) (list_set n self index new)
  perform (add self item) = results (λ _. []) (append n self item)
  perform (take_out self item) = results (λ _. []) (remove n self item)
  perform (as_a_string v) = results of_option (from_value n v)
  perform (call_method self name args) = results of_result (call n self name args)
  perform (invoke proc_id args) = results of_result (call_proc n proc_id args)
  perform (copy_all vs) = results (λ r. r ∷ []) (from_vec n vs)
  perform (map_of pairs) = results of_result (from_map n pairs)
  perform (named_of pairs) = results of_result (from_named n pairs)
  perform (describe v) = results (λ _. []) (to_text n number_text quoted v)
  perform (as_dmstring v) = results of_result (to_dmstring n number_text quoted v)
  perform (type_of self type_name) =
      results (λ _. []) (get_type n number_text quoted self type_name)
  perform (has_type self type_name typepath) =
      results (λ _. []) (is_exact_type n number_text quoted self type_name typepath)

  results-Kept :
      {A : Type 0} (ins : Held) (outs : A → Held) (f : A → List Value) (m : R W A)
      → ((a : A) (u : Value) → outs a u ≡ held_all (f a) u)
      → IsBalanced ins m outs
      → IsBalanced ins (results f m) held_all
  results-Kept ins outs f m same h s =
      bind-Kept ins outs held_all s (m s) (λ a. pure (f a)) (h s)
        (λ a t u. let e : outs a u ≡ held_all (f a) u = same a u in omega (arith, e))

  of_result_held : (r : Res Value) (u : Value) → held_of r u ≡ held_all (of_result r) u
  of_result_held (good v) u = omega arith
  of_result_held (bad e) u = refl

  of_option_held : (o : Option Value) (u : Value) → held_maybe o u ≡ held_all (of_option o) u
  of_option_held none u = refl
  of_option_held (some v) u = omega arith

  -- An operation that uses no reference, and leaves a result or nothing.
  gives_result :
      (m : R W (Res Value))
      → IsBalanced nothing m held_of
      → IsBalanced nothing (results of_result m) held_all
  gives_result m h = results-Kept nothing held_of of_result m of_result_held h

  gives_nothing :
      {A : Type 0} (m : R W A)
      → IsBalanced nothing m (λ _. nothing)
      → IsBalanced nothing (results (λ _. []) m) held_all
  gives_nothing m h = results-Kept nothing (λ _. nothing) (λ _. []) m (λ _ _. refl) h

  one_held : (v u : Value) → one v u ≡ held_all (v ∷ []) u
  one_held v u = omega arith

  perform-IsBalanced :
      (op : Operation) → IsNamed op → IsBalanced (consumes op) (perform op) held_all
  unfolding perform from_raw
  perform-IsBalanced (copy v) _ = λ s u. omega arith
  perform-IsBalanced (release v) _ =
      results-Kept (one v) (λ _. nothing) (λ _. []) (drop v) (λ _ _. refl) (drop-IsBalanced v)
  perform-IsBalanced (as_a_list v) _ =
      results-Kept nothing held_of of_result (as_list n v) of_result_held (as_list-IsBalanced n v)
  perform-IsBalanced (read self name) _ =
      results-Kept (one (string_value name)) held_of of_result (get n self name) of_result_held
        (get-IsBalanced n self name)
  perform-IsBalanced (read_number self name) _ =
      results-Kept (one (string_value name)) (λ _. nothing) (λ _. []) (get_number n self name)
        (λ _ _. refl) (get_number-IsBalanced n self name)
  perform-IsBalanced (read_string self name) _ =
      results-Kept (one (string_value name)) (λ _. nothing) (λ _. []) (get_string n self name)
        (λ _ _. refl) (get_string-IsBalanced n self name)
  perform-IsBalanced (read_list self name) _ =
      results-Kept (one (string_value name)) held_of of_result (get_list n self name) of_result_held
        (get_list-IsBalanced n self name)
  perform-IsBalanced (write self name new) _ =
      results-Kept (λ u. one (string_value name) u + one new u) (λ _. nothing) (λ _. [])
        (set n self name new) (λ _ _. refl) (set-IsBalanced n self name new)
  perform-IsBalanced (make_string t) _ = gives_result (from_string n t) (from_string-IsBalanced n t)
  perform-IsBalanced (make_list capacity) _ =
      results-Kept nothing one (λ r. r ∷ []) (with_size n capacity) one_held
        (with_size-IsBalanced n capacity)
  perform-IsBalanced (collect vs) _ =
      results-Kept (held_all vs) one (λ r. r ∷ []) (from_iter n vs) one_held
        (from_iter-IsBalanced n vs)
  perform-IsBalanced (element self index) _ =
      results-Kept (one index) held_of of_result (list_get n self index) of_result_held
        (list_get-IsBalanced n self index)
  perform-IsBalanced (set_element self index new) _ =
      results-Kept (λ u. one index u + one new u) (λ _. nothing) (λ _. [])
        (list_set n self index new) (λ _ _. refl) (list_set-IsBalanced n self index new)
  perform-IsBalanced (add self item) _ =
      results-Kept (one item) (λ _. nothing) (λ _. []) (append n self item) (λ _ _. refl)
        (append-IsBalanced n self item)
  perform-IsBalanced (take_out self item) _ =
      results-Kept (one item) (λ _. nothing) (λ _. []) (remove n self item) (λ _ _. refl)
        (remove-IsBalanced n self item)
  perform-IsBalanced (as_a_string v) _ =
      results-Kept (one v) held_maybe of_option (from_value n v) of_option_held
        (from_value-IsBalanced n v)
  perform-IsBalanced (call_method self name args) plain =
      gives_result (call n self name args) (call-Kept n self name args plain)
  perform-IsBalanced (invoke proc_id args) _ =
      gives_result (call_proc n proc_id args) (call_proc-IsBalanced n proc_id args)
  perform-IsBalanced (copy_all vs) _ =
      results-Kept nothing one (λ r. r ∷ []) (from_vec n vs) one_held (from_vec-IsBalanced n vs)
  perform-IsBalanced (map_of pairs) _ =
      gives_result (from_map n pairs) (from_map-IsBalanced n pairs)
  perform-IsBalanced (named_of pairs) _ =
      gives_result (from_named n pairs) (from_named-IsBalanced n pairs)
  perform-IsBalanced (describe v) _ =
      gives_nothing (to_text n number_text quoted v) (to_text-IsBalanced n number_text quoted v)
  perform-IsBalanced (as_dmstring v) _ =
      gives_result (to_dmstring n number_text quoted v)
        (to_dmstring-IsBalanced n number_text quoted v)
  perform-IsBalanced (type_of self type_name) _ =
      gives_nothing (get_type n number_text quoted self type_name)
        (get_type-IsBalanced n number_text quoted self type_name)
  perform-IsBalanced (has_type self type_name typepath) _ =
      gives_nothing (is_exact_type n number_text quoted self type_name typepath)
        (is_exact_type-IsBalanced n number_text quoted self type_name typepath)

  -- Each of these operations keeps count of the references, on every one of its branches: the clone,
  -- drop, reads, writes and conversions of a value, the making of a string, those of a list, and
  -- calls of a proc by its number or by a name that has no NUL. What it took or got from BYOND with a
  -- reference, with what it consumes, is what it gave back, what it left to BYOND as arguments of a
  -- call, and what its caller holds then. Null has no references.
  pub perform-Kept :
      (op : Operation) (s : Refs W) → IsNamed op → Kept (consumes op) s (perform op s) held_all
  perform-Kept op s named = perform-IsBalanced op named s
