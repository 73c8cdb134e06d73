-- ===== src/Handles.antt =====
-- auxtools/src/value.rs, list.rs and string.rs: values that are held by native code, each with a
-- reference that BYOND counts. A value that goes out of scope gives its reference back (`Drop`).
pub mod Balance
pub mod Values
pub mod Lists
pub mod Calls
pub mod Leaks
pub mod Convert
pub mod Converted
pub mod Described
mod Tests
use auxtools.Base.{
  ℕ, zero, suc, ◌+◌, Bool, true, false, Option, none, some, List, [], ◌∷◌, ◌==◌, if◌then◌else◌,
  Text, map,
}
use auxtools.Value.{
  Value, ValueTag, value, null_value, null, string, number, list, is_list, tag_beq, value_beq,
}

-- How often native code took a reference (`inc_ref_count`) and gave one back (`dec_ref_count`), how
-- often BYOND returned a value with a reference, and how often a reference was left to BYOND; and
-- BYOND's own state.
pub record Refs (W : Type 0) : Type 0 where
  pub taken : Value → ℕ
  pub given : Value → ℕ
  pub adopted : Value → ℕ
  pub passed : Value → ℕ
  pub world : W

-- The runtime errors.
pub data Failure : Type 0 where
  could_not_read could_not_write : Value → Text → Failure
  not_a_number not_a_string not_a_list call_failed contains_nul : Failure
  to_string_failed : Value → Failure
  list_failed : Failure

pub data Res (A : Type 0) : Type 0 where
  good : A → Res A
  bad : Failure → Res A

-- BYOND's functions; `none` and `false` are results other than 1. A string is its number.
pub record Natives (W : Type 0) : Type 0 where
  pub get_variable : Value → ℕ → W → Option Value
  pub set_variable : Value → ℕ → Value → W → Bool × W
  pub call_datum_proc_by_name : Value → (name : ℕ) → List Value → W → Option Value × W
  pub get_string_id : Text → W → Option ℕ × W
  pub string_text : W → ℕ → Text
  pub create_list : ℕ → W → Option ℕ × W
  pub get_assoc_element : Value → Value → W → Option Value × W
  pub set_assoc_element : Value → Value → Value → W → Bool × W
  pub append_to_list : Value → Value → W → Bool × W
  pub remove_from_list : Value → Value → W → Bool × W
  pub call_proc_by_id : (proc_id : ℕ) → List Value → W → Option Value × W
  pub to_string : Value → W → Option ℕ × W

-- The references of a value: one for the value itself. Null has none.
unfoldable pub one : Value → Value → ℕ
one v u = if tag_beq v.tag null then 0 else (if value_beq v u then 1 else 0)

-- What `CString::new` refuses.
unfoldable pub has_nul : Text → Bool
has_nul [] = false
has_nul (c ∷ s) = let rest = has_nul s in if c == 0 then true else rest

-- `replace("_", " ")`
unfoldable pub spaced : Text → Text
spaced [] = []
spaced (c ∷ s) = (if c == b'_' then b' ' else c) ∷ spaced s

abbrev pub string_value : ℕ → Value
string_value id = value string id

-- A panic (`none`) ends the process.
abbrev pub R : Type 0 → Type 0 → Type 0
R W A = Refs W → Option (A × Refs W)

module _ {W : Type 0} where
  infixl 5 ◌>>=◌ ◌>>◌
  abbrev pub ◌>>=◌ : {A B : Type 0} → R W A → (A → R W B) → R W B
  ◌>>=◌ m f s = elim (m s) [ none ↦ none | some (a, t) ↦ f a t ]

  abbrev pub ◌>>◌ : {A B : Type 0} → R W A → R W B → R W B
  ◌>>◌ m k s = elim (m s) [ none ↦ none | some (a, t) ↦ k t ]

  abbrev pub pure : {A : Type 0} → A → R W A
  pure a s = some (a, s)

  -- `Value::new`, `from_raw` and `clone`
  unfoldable pub from_raw : Value → R W Value
  from_raw v s = some (v, record s { taken = λ u. s.taken u + one v u })

  unfoldable pub from_raw_owned : Value → R W Value
  from_raw_owned v s = some (v, record s { adopted = λ u. s.adopted u + one v u })

  -- `Drop`
  unfoldable pub drop : Value → R W (Unit {0})
  drop v s = some (tt, record s { given = λ u. s.given u + one v u })

  module _ (n : Natives W) where
    -- `String::from(StringRef::from_id(id))`: the reference is held for the conversion alone.
    unfoldable pub text_of : ℕ → R W Text
    unfolding from_raw drop
    text_of id = do v ← from_raw (string_value id); drop v; λ s. some (n.string_text s.world id, s)

    unfoldable pub get_by_id : Value → ℕ → R W (Res Value)
    unfolding text_of from_raw
    get_by_id self name_id s = elim (n.get_variable self name_id s.world) [
      | none ↦ (text_of name_id >>= (λ varname. pure (bad (could_not_read self varname)))) s
      | some val ↦ (from_raw val >>= (λ v. pure (good v))) s
    ]

    unfoldable pub set_by_id : Value → ℕ → Value → R W (Res (Unit {0}))
    unfolding text_of
    set_by_id self name_id new_value s =
        let (done, w) = n.set_variable self name_id new_value s.world in
        if done
        then some (good tt, record s { world = w })
        else (text_of name_id >>= (λ varname. pure (bad (could_not_write self varname))))
            (record s { world = w })

    -- `get`: the name is dropped at its end.
    unfoldable pub get : Value → (name : ℕ) → R W (Res Value)
    unfolding get_by_id drop
    get self name = get_by_id self name >>= (λ r. drop (string_value name) >> pure r)

    -- `set`: the name and the new value are.
    unfoldable pub set : Value → (name : ℕ) → Value → R W (Res (Unit {0}))
    unfolding set_by_id drop
    set self name v =
        set_by_id self name v >>= (λ r. drop (string_value name) >> (drop v >> pure r))

    -- `List::from_value`
    unfoldable pub as_list : Value → R W (Res Value)
    unfolding from_raw
    as_list v = if is_list v.tag then from_raw v >>= (λ l. pure (good l)) else pure (bad not_a_list)

    unfoldable pub as_string : Value → R W (Res Text)
    unfolding text_of
    as_string v =
        if tag_beq v.tag string
        then text_of v.data_id >>= (λ t. pure (good t))
        else pure (bad not_a_string)

    -- The number as its bits.
    unfoldable pub as_number : Value → R W (Res ℕ)
    as_number v = if tag_beq v.tag number then pure (good v.data_id) else pure (bad not_a_number)

    -- A value is read, converted, and dropped.
    unfoldable pub get_number : Value → (name : ℕ) → R W (Res ℕ)
    unfolding get as_number drop
    get_number self name = get self name >>= (λ r. elim r [
      | bad e ↦ pure (bad e)
      | good v ↦ as_number v >>= (λ t. drop v >> pure t)
    ])

    unfoldable pub get_string : Value → (name : ℕ) → R W (Res Text)
    unfolding get as_string drop
    get_string self name = get self name >>= (λ r. elim r [
      | bad e ↦ pure (bad e)
      | good v ↦ as_string v >>= (λ t. drop v >> pure t)
    ])

    unfoldable pub get_list : Value → (name : ℕ) → R W (Res Value)
    unfolding get as_list drop
    get_list self name =
        get self name
        >>= (λ r. elim r [ bad e ↦ pure (bad e) | good v ↦ as_list v >>= (λ l. drop v >> pure l) ])

    -- `from_string` for a text without a NUL.
    unfoldable pub create_string : Text → R W Value
    unfolding from_raw
    create_string t s =
        let (id, w) = n.get_string_id t s.world in
        elim id [ none ↦ none | some i ↦ from_raw (string_value i) (record s { world = w }) ]

    unfoldable pub from_string : Text → R W (Res Value)
    unfolding has_nul create_string
    from_string t =
        if has_nul t then pure (bad contains_nul) else (create_string t >>= (λ v. pure (good v)))

    -- A reference of each argument is taken, for the call.
    unfoldable pub take_all : List Value → R W (Unit {0})
    unfolding from_raw
    take_all [] = pure tt
    take_all (v ∷ vs) = from_raw v >> take_all vs

    unfoldable pub leave_all : List Value → Refs W → Refs W
    leave_all [] s = s
    leave_all (v ∷ vs) s = leave_all vs (record s { passed = λ u. s.passed u + one v u })

    -- The proc of a name that is given already, for arguments that are taken. The references are
    -- BYOND's then, whatever the call gives. The null that is made for `usr` is dropped.
    unfoldable pub call_by_id : Value → (name : ℕ) → List Value → R W (Res Value)
    unfolding leave_all from_raw_owned drop
    call_by_id self name args s =
        let (result, w) = n.call_datum_proc_by_name self name args s.world in
        let t : Refs W = leave_all args (record s { world = w }) in
        (drop null_value >> (elim result [
          | none ↦ pure (bad call_failed)
          | some v ↦ from_raw_owned v >>= (λ r. pure (good r))
        ]))
          t

    -- `Proc::call`, for arguments that are taken: as in `Value::call`, the references are BYOND's
    -- then. The nulls that are made for `usr` and `src` are dropped.
    unfoldable pub answered_by_id : (proc_id : ℕ) → List Value → R W (Res Value)
    unfolding leave_all from_raw_owned drop
    answered_by_id proc_id args s =
        let (result, w) = n.call_proc_by_id proc_id args s.world in
        let t : Refs W = leave_all args (record s { world = w }) in
        (drop null_value
            >> (drop null_value >> (elim result [
              | none ↦ pure (bad call_failed)
              | some v ↦ from_raw_owned v >>= (λ r. pure (good r))
            ])))
          t

    -- What `call` does with the result of `StringRef::new`.
    unfoldable pub call_named : Value → List Value → Res Value → R W (Res Value)
    unfolding call_by_id drop
    call_named self args (bad e) = pure (bad e)
    call_named self args (good name_ref) =
        call_by_id self name_ref.data_id args >>= (λ r. drop name_ref >> pure r)

    unfoldable pub call : Value → (procname : Text) → List Value → R W (Res Value)
    unfolding take_all spaced from_string call_named
    call self procname args =
        take_all args >> (from_string (spaced procname) >>= call_named self args)

    -- `List::with_size`
    unfoldable pub with_size : ℕ → R W Value
    unfolding from_raw_owned
    with_size capacity s =
        let (id, w) = n.create_list capacity s.world in
        elim id [ none ↦ none | some i ↦ from_raw_owned (value list i) (record s { world = w }) ]

    -- `List::get`: the index is dropped.
    unfoldable pub list_get : (self index : Value) → R W (Res Value)
    unfolding from_raw_owned drop
    list_get self index s =
        let (found, w) = n.get_assoc_element self index s.world in
        let t : Refs W = record s { world = w } in
        elim found [
          | none ↦ (drop index >> pure (bad list_failed)) t
          | some v ↦ (from_raw_owned v >>= (λ r. drop index >> pure (good r))) t
        ]

    -- `List::set`: the key and the value are dropped.
    unfoldable pub list_set : (self index v : Value) → R W (Res (Unit {0}))
    unfolding drop
    list_set self index v s =
        let (done, w) = n.set_assoc_element self index v s.world in
        (drop v >> (drop index >> pure (if done then good tt else bad list_failed)))
          (record s { world = w })

    unfoldable pub append : (self v : Value) → R W (Unit {0})
    unfolding drop
    append self v s =
        let (done, w) = n.append_to_list self v s.world in
        if done then drop v (record s { world = w }) else none

    unfoldable pub remove : (self v : Value) → R W (Unit {0})
    unfolding drop
    remove self v s =
        let (done, w) = n.remove_from_list self v s.world in
        if done then drop v (record s { world = w }) else none

    -- `FromIterator`
    unfoldable pub append_all : (self : Value) → List Value → R W (Unit {0})
    unfolding append
    append_all self [] = pure tt
    append_all self (v ∷ vs) = append self v >> append_all self vs

    unfoldable pub from_iter : List Value → R W Value
    unfolding with_size append_all
    from_iter vs = with_size 0 >>= (λ l. append_all l vs >> pure l)
