-- ===== src/Handles/Convert.antt =====
-- auxtools/src/value.rs, value_from.rs, string.rs and proc.rs: conversions between native data and
-- values, and `Proc::call`. How a number is printed and a text is quoted are arguments: they are
-- Rust's.
use auxtools.Base.{ℕ, Bool, false, Option, none, some, List, [], ◌∷◌, if◌then◌else◌, Text, text_beq}
use auxtools.Value.{Value, string, number, null, tag_beq}
use auxtools.Handles.{
  Refs, Res, good, bad, Natives, to_string_failed, R, ◌>>=◌, ◌>>◌, pure, string_value, from_raw,
  drop, text_of, get, from_string, take_all, answered_by_id, with_size, list_set, append,
}

module _ {W : Type 0} (n : Natives W) where
  -- `StringRef::from_value`, which consumes the value.
  unfoldable pub from_value : Value → R W (Option Value)
  unfolding from_raw drop
  from_value v =
      if tag_beq v.tag string
      then from_raw v >>= (λ r. drop v >> pure (some r))
      else (drop v >> pure none)

  -- `StringRef::clone`; `none` from `from_value` is unwrapped.
  unfoldable pub clone_string : (id : ℕ) → R W Value
  unfolding from_raw from_value
  clone_string id =
      from_raw (string_value id)
      >>= (λ v. from_value v >>= (λ o s. elim o [ none ↦ none | some r ↦ some (r, s) ]))

  -- `Proc::call`
  unfoldable pub call_proc : (proc_id : ℕ) → List Value → R W (Res Value)
  unfolding take_all answered_by_id
  call_proc proc_id args = take_all n args >> answered_by_id n proc_id args

  -- `From<&Vec<T>>` for a vector of values, each of which is cloned.
  unfoldable pub append_clones : (self : Value) → List Value → R W (Unit {0})
  unfolding from_raw append
  append_clones self [] = pure tt
  append_clones self (v ∷ vs) = from_raw v >>= (λ c. append n self c >> append_clones self vs)

  unfoldable pub from_vec : List Value → R W Value
  unfolding with_size append_clones
  from_vec vs = with_size n 0 >>= (λ l. append_clones l vs >> pure l)

  -- The loops over a map; an error ends them.
  unfoldable pub set_pairs : (self : Value) → List (Value × Value) → R W (Res (Unit {0}))
  unfolding from_raw list_set
  set_pairs self [] = pure (good tt)
  set_pairs self ((k, v) ∷ rest) = from_raw k >>= (λ key. from_raw v >>= (λ c.
      list_set n self key c
      >>= (λ r s. elim r [ bad e ↦ pure (bad e) s | good _ ↦ set_pairs self rest s ])))

  -- A key with a NUL is refused by `StringRef::new`.
  unfoldable pub set_named : (self : Value) → List (Text × Value) → R W (Res (Unit {0}))
  unfolding from_string from_raw list_set
  set_named self [] = pure (good tt)
  set_named self ((k, v) ∷ rest) = from_string n k >>= (λ o. elim o [
    | bad e ↦ pure (bad e)
    | good key ↦ from_raw v >>= (λ c.
        list_set n self key c
        >>= (λ r s. elim r [ bad e ↦ pure (bad e) s | good _ ↦ set_named self rest s ]))
  ])

  -- The new list is dropped when the loop has failed.
  unfoldable pub finish_map : (self : Value) → Res (Unit {0}) → R W (Res Value)
  unfolding drop
  finish_map self (bad e) = drop self >> pure (bad e)
  finish_map self (good _) = pure (good self)

  -- `TryFrom<&HashMap<A, B>>` for maps between values and from strings.
  unfoldable pub from_map : List (Value × Value) → R W (Res Value)
  unfolding with_size set_pairs finish_map
  from_map pairs = with_size n 0 >>= (λ l. set_pairs l pairs >>= finish_map l)

  unfoldable pub from_named : List (Text × Value) → R W (Res Value)
  unfolding with_size set_named finish_map
  from_named pairs = with_size n 0 >>= (λ l. set_named l pairs >>= finish_map l)

  module _ (number_text : ℕ → Text) (quoted : Text → Text) where
    -- The tags that are shown without BYOND's help, and how.
    unfoldable pub simple_text : Value → W → Option Text
    simple_text v w =
        if tag_beq v.tag null
        then some (b'n' ∷ b'u' ∷ b'l' ∷ b'l' ∷ [])
        else if tag_beq v.tag number
        then some (number_text v.data_id)
        else if tag_beq v.tag string
        then some (quoted (n.string_text w v.data_id))
        else none

    -- `to_string`
    unfoldable pub to_text : Value → R W (Res Text)
    unfolding simple_text text_of
    to_text v s = elim (simple_text v s.world) [
      | some t ↦ pure (good t) s
      | none ↦
          let (id, w) = n.to_string v s.world in
          let t : Refs W = record s { world = w } in
          elim id [
            | none ↦ pure (bad (to_string_failed v)) t
            | some i ↦ (text_of n i >>= (λ x. pure (good x))) t
          ]
    ]

    unfoldable pub to_dmstring : Value → R W (Res Value)
    unfolding simple_text from_string from_raw
    to_dmstring v s = elim (simple_text v s.world) [
      | some t ↦ from_string n t s
      | none ↦
          let (id, w) = n.to_string v s.world in
          let t : Refs W = record s { world = w } in
          elim id [
            | none ↦ pure (bad (to_string_failed v)) t
            | some i ↦ (from_raw (string_value i) >>= (λ r. pure (good r))) t
          ]
    ]

    -- `type_name` is the interned string of the name `type`; `get` is given a clone.
    unfoldable pub get_type : (self : Value) (type_name : ℕ) → R W (Res Text)
    unfolding clone_string get to_text drop
    get_type self type_name =
        clone_string type_name
        >> (get n self type_name >>= (λ r s. elim r [
          | bad e ↦ pure (bad e) s
          | good v ↦ (to_text v >>= (λ t. drop v >> pure t)) s
        ]))

    unfoldable pub is_exact_type : (self : Value) (type_name : ℕ) → (typepath : Text) → R W Bool
    unfolding get_type
    is_exact_type self type_name typepath =
        get_type self type_name
        >>= (λ r. elim r [ bad _ ↦ pure false | good t ↦ pure (text_beq t typepath) ])
