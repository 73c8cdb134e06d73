-- ===== src/Server/Members.antt =====
-- debug_server/src/server.rs: the members of lists, objects and frames.
use auxtools.Base.{
  ℕ, zero, suc, ◌+◌, not, Option, none, some, List, [], ◌∷◌, ◌++◌, Text, if◌then◌else◌,
}
use auxtools.Value.{Value, ValueTag, value, is_list, tag_beq}
use auxtools.Server.Variables.{list_pair}
use auxtools.Server.Stacks.{get_stack_frame}
use auxtools.Server.Messages.{
  RuntimeError, not_a_list, not_a_string, contains_nul, assoc_failed, read_failed, entry, named,
  index, undefined_argument, Variable, invalid_arguments_frame, invalid_locals_frame,
}
use auxtools.Server.Session.{Paused, ret, panic, M, ◌>>=◌, ◌>>◌, pure, notify}
use auxtools.Server.World.{Byond}
use auxtools.Server.Inspect.{
  Res, good, bad, text_vars, text_src, text_usr, text_dot, stacks_of, is_globals, sort_by_key,
  only_type, not_type, has_nul, give_ref, stringify, value_to_variable,
}

-- `and_then` of a step that may be a runtime error.
abbrev pub on_good : {W A B : Type 0} → Res A → (A → M W (Res B)) → M W (Res B)
on_good (good a) f = f a
on_good (bad e) f = pure (bad e)

abbrev pub or_error : {A : Type 0} → Option A → RuntimeError → Res A
or_error none e = bad e
or_error (some a) e = good a

abbrev push : {A : Type 0} → A → Res (List A) → Res (List A)
push a (good rest) = good (a ∷ rest)
push a (bad e) = bad e

module _ (b : Byond) where
  open b use {
    World, get_length, get_assoc_element, get_variable, string_text, index_value, lowercase,
  }

  -- The value under a key that is not null.
  unfoldable pub assoc_value : World → Value → Value → Option Value
  assoc_value w list key = elim (get_assoc_element w list key) [
    | none ↦ none
    | some v ↦ if tag_beq v.tag ValueTag.null then none else some v
  ]

  -- The variable of the list's entry `i`, whose key is `key`.
  unfoldable pub list_variable : Paused → Value → ℕ → Value → M World Variable
  unfolding assoc_value give_ref stringify value_to_variable
  list_variable p list i key s = elim (assoc_value s.world list key) [
    | none ↦ value_to_variable b (index i) key s
    | some v ↦
        (do
          r ← give_ref p (list_pair key v)
          pure (record {
            name = index i;
            shown = entry (stringify b s.world key) (stringify b s.world v);
            variables = r;
          }))
          s
  ]

  -- The loop of `list_to_variables`: `n` entries from `i` on. Without a state it panics.
  unfoldable pub list_entries : Value → (n i : ℕ) → M World (Res (List Variable))
  unfolding list_variable
  list_entries list zero i s = ret (good [], s)
  list_entries list (suc n) i s =
      let rest = list_entries list n (i + 1) in
      elim s.state [
        | none ↦ panic
        | some p ↦ elim (get_assoc_element s.world list (index_value i)) [
          | none ↦ ret (bad assoc_failed, s)
          | some key ↦ (do v ← list_variable p list i key; vs ← rest; pure (push v vs)) s
        ]
      ]

  unfoldable pub list_to_variables : Value → M World (Res (List Variable))
  unfolding list_entries
  list_to_variables v s = elim s.state [
    | none ↦ panic
    | some _ ↦
        if is_list v.tag then list_entries v (get_length s.world v) 1 s else ret (bad not_a_list, s)
  ]

  -- `value.vars`, which for the globals is a list of its own.
  unfoldable pub vars_list : World → Value → Res Value
  unfolding is_globals
  vars_list w v =
      if is_globals v
      then good (value ValueTag.global_vars 0)
      else or_error (get_variable w v text_vars) (read_failed v text_vars)

  -- `vars.get(i)?.as_string()?` and the member of that name.
  unfoldable pub member : World → (obj vars : Value) → ℕ → Res (Text × Value)
  member w obj vars i = elim (get_assoc_element w vars (index_value i)) [
    | none ↦ bad assoc_failed
    | some name ↦
        if not (tag_beq name.tag ValueTag.string)
        then bad not_a_string
        else let text = string_text w name.data_id in
          if has_nul text then bad contains_nul else (elim (get_variable w obj text) [
            | none ↦ bad (read_failed obj text)
            | some v ↦ good (text, v)
          ])
  ]

  unfoldable pub member_variables : (obj vars : Value) → (n i : ℕ) → M World (Res (List Variable))
  unfolding member value_to_variable
  member_variables obj vars zero i s = ret (good [], s)
  member_variables obj vars (suc n) i s =
      let rest = member_variables obj vars n (i + 1) in
      elim (member s.world obj vars i) [
        | bad e ↦ ret (bad e, s)
        | good (name, v) ↦
            (do m ← value_to_variable b (named name) v; vs ← rest; pure (push m vs)) s
      ]

  -- `type` stands first, and the others follow by their names in lower case.
  abbrev pub in_order : Res (List Variable) → Res (List Variable)
  in_order (bad e) = bad e
  in_order (good vs) = good (only_type vs ++ sort_by_key lowercase (not_type vs))

  unfoldable pub object_to_variables : Value → M World (Res (List Variable))
  unfolding vars_list member_variables only_type not_type sort_by_key
  object_to_variables v s = elim (vars_list s.world v) [
    | bad e ↦ ret (bad e, s)
    | good vars ↦
        if is_list vars.tag
        then (do ms ← member_variables v vars (get_length s.world vars) 1; pure (in_order ms)) s
        else ret (bad not_a_list, s)
  ]

  -- The arguments of a frame; `unnamed` of them had no name so far.
  unfoldable pub arg_variables : ℕ → List (Option Text × Value) → M World (List Variable)
  unfolding value_to_variable
  arg_variables unnamed [] = pure []
  arg_variables unnamed ((some name, v) ∷ rest) = do
    m ← value_to_variable b (named name) v
    ms ← arg_variables unnamed rest
    pure (m ∷ ms)
  arg_variables unnamed ((none, v) ∷ rest) = do
    m ← value_to_variable b (undefined_argument (unnamed + 1)) v
    ms ← arg_variables (unnamed + 1) rest
    pure (m ∷ ms)

  unfoldable pub local_variables : List (Text × Value) → M World (List Variable)
  unfolding value_to_variable
  local_variables [] = pure []
  local_variables ((name, v) ∷ rest) = do
    m ← value_to_variable b (named name) v
    ms ← local_variables rest
    pure (m ∷ ms)

  unfoldable pub get_args : ℕ → M World (List Variable)
  unfolding get_stack_frame arg_variables value_to_variable notify
  get_args frame_index s = elim (get_stack_frame (stacks_of s) frame_index) [
    | none ↦ (do notify (invalid_arguments_frame frame_index); pure []) s
    | some frame ↦
        (do
          src ← value_to_variable b (named text_src) frame.src
          usr ← value_to_variable b (named text_usr) frame.usr
          args ← arg_variables 0 frame.args
          pure (src ∷ usr ∷ args))
          s
  ]

  unfoldable pub get_locals : ℕ → M World (List Variable)
  unfolding get_stack_frame local_variables value_to_variable notify
  get_locals frame_index s = elim (get_stack_frame (stacks_of s) frame_index) [
    | none ↦ (do notify (invalid_locals_frame frame_index); pure []) s
    | some frame ↦
        (do
          dot ← value_to_variable b (named text_dot) frame.dot
          locals ← local_variables frame.locals
          pure (dot ∷ locals))
          s
  ]
