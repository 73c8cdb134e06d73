-- ===== src/Server/Inspect.antt =====
-- debug_server/src/server.rs: values as variables that the client displays.
use auxtools.Base.{
  ℕ, Bool, true, false, ◌&&◌, Option, none, some, List, [], ◌∷◌, Text, text_eq, text_beq, ltb, ◌==◌,
  if◌then◌else◌,
}
use auxtools.Value.{Value, ValueTag, is_list, tag_beq}
use auxtools.Debug.{CallStacks}
use auxtools.Server.Variables.{Variables, object_vars, list_contents, get_ref}
use auxtools.Server.Messages.{
  RuntimeError, to_string_failed, Shown, list_len, raw, plain, stringify_error, Name, named,
  Variable,
}
use auxtools.Server.Session.{Session, Paused, ret, M, ◌>>=◌, pure, get}
use auxtools.Server.World.{Byond}

pub data Res (A : Type 0) : Type 0 where
  good : A → Res A
  bad : RuntimeError → Res A

abbrev pub text_vars : Text
text_vars = b'v' ∷ b'a' ∷ b'r' ∷ b's' ∷ []

abbrev text_type : Text
text_type = b't' ∷ b'y' ∷ b'p' ∷ b'e' ∷ []

abbrev pub text_src : Text
text_src = b's' ∷ b'r' ∷ b'c' ∷ []

abbrev pub text_usr : Text
text_usr = b'u' ∷ b's' ∷ b'r' ∷ []

abbrev pub text_dot : Text
text_dot = b'.' ∷ []

abbrev pub text_key : Text
text_key = b'k' ∷ b'e' ∷ b'y' ∷ []

abbrev pub text_value : Text
text_value = b'v' ∷ b'a' ∷ b'l' ∷ b'u' ∷ b'e' ∷ []

abbrev pub stacks_of : {W : Type 0} → Session W → Option CallStacks
stacks_of s = elim s.state [ none ↦ none | some p ↦ some p.stacks ]

unfoldable pub is_globals : Value → Bool
is_globals v = tag_beq v.tag ValueTag.world && (v.data_id == 1)

unfoldable pub is_formatted : ValueTag → Bool
is_formatted ValueTag.null = true
is_formatted ValueTag.number = true
is_formatted ValueTag.string = true
is_formatted _ = false

-- Variables in the order of their keys; equal keys keep their order.
unfoldable pub text_leb : Text → Text → Bool
text_leb [] t = true
text_leb (a ∷ s) [] = false
text_leb (a ∷ s) (b ∷ t) = if a == b then text_leb s t else ltb a b

abbrev pub key_of : Name → Text
key_of (named t) = t
key_of _ = []

module _ (key : Text → Text) where
  unfoldable pub insert_sorted : Variable → List Variable → List Variable
  unfolding text_leb
  insert_sorted v [] = v ∷ []
  insert_sorted v (u ∷ us) =
      if text_leb (key (key_of v.name)) (key (key_of u.name))
      then v ∷ u ∷ us
      else u ∷ insert_sorted v us

  unfoldable pub sort_by_key : List Variable → List Variable
  unfolding insert_sorted
  sort_by_key [] = []
  sort_by_key (v ∷ vs) = insert_sorted v (sort_by_key vs)

abbrev pub is_type : Name → Bool
is_type (named t) = text_beq t text_type
is_type _ = false

unfoldable pub only_type : List Variable → List Variable
only_type [] = []
only_type (v ∷ vs) = if is_type v.name then v ∷ only_type vs else only_type vs

unfoldable pub not_type : List Variable → List Variable
not_type [] = []
not_type (v ∷ vs) = if is_type v.name then not_type vs else v ∷ not_type vs

abbrev pub has_nul : Text → Bool
has_nul [] = false
has_nul (c ∷ t) = if c == 0 then true else has_nul t

-- The entry of `state.get_ref` while execution is paused.
unfoldable pub give_ref : {W : Type 0} → Paused → Variables → M W (Option ℕ)
give_ref p vars s =
    let (r, refs) = get_ref p.references vars in
    ret (some r, record s { state = some (record p { references = refs }) })

module _ (b : Byond) where
  open b use {
    World, get_length, get_assoc_element, get_variable, to_text, raw_text, string_text, index_value,
    lowercase,
  }

  unfoldable pub is_object : World → Value → Bool
  unfolding is_globals
  is_object w v =
      if is_globals v
      then true
      else (elim (get_variable w v text_vars) [ some _ ↦ true | none ↦ false ])

  -- `Value::to_string`
  unfoldable pub value_text : World → Value → Res Text
  unfolding is_formatted
  value_text w v =
      if is_formatted v.tag
      then good (raw_text w v)
      else (elim (to_text w v) [ some t ↦ good t | none ↦ bad (to_string_failed v) ])

  unfoldable pub stringify : World → Value → Shown
  unfolding value_text
  stringify w v = if is_list v.tag then list_len (get_length w v) else (elim (value_text w v) [
    | good [] ↦ raw v
    | good (c ∷ t) ↦ plain (c ∷ t)
    | bad e ↦ stringify_error v e
  ])

  unfoldable pub value_to_variables_ref : Value → M World (Option ℕ)
  unfolding is_object give_ref
  value_to_variables_ref v s = elim s.state [
    | none ↦ ret (none, s)
    | some p ↦
        if is_list v.tag
        then give_ref p (list_contents v) s
        else if is_object s.world v
        then give_ref p (object_vars v) s
        else ret (none, s)
  ]

  unfoldable pub value_to_variable : Name → Value → M World Variable
  unfolding stringify value_to_variables_ref
  value_to_variable name v = do
    s ← get
    let shown = stringify s.world v
    vars ← value_to_variables_ref v
    pure (record { name = name; shown = shown; variables = vars })
