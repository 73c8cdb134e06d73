-- ===== src/Handles/Values.antt =====
-- auxtools/src/value.rs: the references that operations on values keep.
use auxtools.Base.{
  ℕ, ◌+◌, ◌≡◌, refl, ap, Bool, true, false, Option, none, some, arith, if◌then◌else◌, Text,
}
use auxtools.Value.{Value, tag_beq, string, number, is_list}
use auxtools.Handles.{
  Refs, Res, good, bad, Failure, Natives, could_not_read, could_not_write, not_a_list, not_a_string,
  not_a_number, R, ◌>>=◌, ◌>>◌, pure, one, string_value, from_raw, drop, text_of, get_by_id,
  set_by_id, get, set, as_list, as_string, as_number, get_number, get_string, get_list, from_string,
  create_string, has_nul, contains_nul,
}
use auxtools.Handles.Balance.{Held, nothing, held_of, Kept, IsBalanced, bind-Kept, keep}

module _ {W : Type 0} (n : Natives W) where
  pub text_of-IsBalanced : (id : ℕ) → IsBalanced nothing (text_of n id) (λ _. nothing)
  unfolding text_of from_raw drop
  text_of-IsBalanced id s u = omega arith

  pub get_by_id-IsBalanced :
      (self : Value) (id : ℕ) → IsBalanced nothing (get_by_id n self id) held_of
  unfolding get_by_id from_raw text_of drop
  get_by_id-IsBalanced self id s = by_result (n.get_variable self id s.world)
    where
      by_result :
          (o : Option Value)
          → Kept nothing s
              (elim o as (λ _. Option (Res Value × Refs W)) [
                | none ↦ (text_of n id >>= (λ varname. pure (bad (could_not_read self varname)))) s
                | some val ↦ (from_raw val >>= (λ v. pure (good v))) s
              ])
              held_of
      by_result none = λ u. omega arith
      by_result (some v) = λ u. omega arith

  pub get-IsBalanced :
      (self : Value) (name : ℕ) → IsBalanced (one (string_value name)) (get n self name) held_of
  unfolding get drop
  get-IsBalanced self name s =
      bind-Kept (one (string_value name)) (λ r u. held_of r u + one (string_value name) u) held_of s
        (get_by_id n self name s) (λ r. drop (string_value name) >> pure r)
        (keep (one (string_value name)) held_of s (get_by_id n self name s)
          (get_by_id-IsBalanced self name s))
        (λ r t u. omega arith)

  pub set_by_id-IsBalanced :
      (self : Value) (id : ℕ) (v : Value)
      → IsBalanced nothing (set_by_id n self id v) (λ _. nothing)
  unfolding set_by_id from_raw text_of drop
  set_by_id-IsBalanced self id v s = by_result (n.set_variable self id v s.world)
    where
      by_result :
          (o : Bool × W)
          → Kept nothing s
              (if o.0
                then some (good tt, record s { world = o.1 })
                else (text_of n id >>= (λ varname. pure (bad (could_not_write self varname))))
                    (record s { world = o.1 }))
              (λ _. nothing)
      by_result (true, w) = λ u. omega arith
      by_result (false, w) = λ u. omega arith

  pub set-IsBalanced :
      (self : Value) (name : ℕ) (v : Value)
      → IsBalanced (λ u. one (string_value name) u + one v u) (set n self name v) (λ _. nothing)
  unfolding set drop
  set-IsBalanced self name v s =
      bind-Kept (λ u. one (string_value name) u + one v u)
        (λ r u. nothing u + (one (string_value name) u + one v u)) (λ _. nothing) s
        (set_by_id n self name v s) (λ r. drop (string_value name) >> (drop v >> pure r))
        (keep (λ u. one (string_value name) u + one v u) (λ _. nothing) s
          (set_by_id n self name v s) (set_by_id-IsBalanced self name v s))
        (λ r t u. omega arith)

  pub as_list-IsBalanced : (v : Value) → IsBalanced nothing (as_list n v) held_of
  unfolding as_list from_raw
  as_list-IsBalanced v s = by_tag (is_list v.tag)
    where
      by_tag :
          (c : Bool)
          → Kept nothing s
              ((if c then from_raw v >>= (λ l. pure (good l)) else pure (bad not_a_list)) s)
              held_of
      by_tag true = λ u. omega arith
      by_tag false = λ u. omega arith

  pub as_string-IsBalanced : (v : Value) → IsBalanced nothing (as_string n v) (λ _. nothing)
  unfolding as_string text_of from_raw drop
  as_string-IsBalanced v s = by_tag (tag_beq v.tag string)
    where
      by_tag :
          (c : Bool)
          → Kept nothing s
              ((if c then text_of n v.data_id >>= (λ t. pure (good t)) else pure (bad not_a_string))
                s)
              (λ _. nothing)
      by_tag true = λ u. omega arith
      by_tag false = λ u. omega arith

  -- A value that is read, converted, and dropped.
  read_and_drop :
      {A : Type 0} (self : Value) (name : ℕ) (as_what : Value → R W (Res A)) (outs : Res A → Held)
      → ((e : Failure) → outs (bad e) ≡ nothing)
      → ((v : Value) → IsBalanced nothing (as_what v) outs)
      → IsBalanced
          (one (string_value name))
          (get n self name >>= (λ r. elim r [
            | bad e ↦ pure (bad e)
            | good v ↦ as_what v >>= (λ t. drop v >> pure t)
          ]))
          outs
  unfolding drop
  read_and_drop {A = A} self name as_what outs errors h s =
      bind-Kept (one (string_value name)) held_of outs s (get n self name s) _
        (get-IsBalanced self name s) by_result
    where
      by_result :
          (r : Res Value)
          → IsBalanced
              (held_of r)
              (elim r as (λ _. R W (Res A)) [
                | bad e ↦ pure (bad e)
                | good v ↦ as_what v >>= (λ t. drop v >> pure t)
              ])
              outs
      by_result (bad e) t =
          λ u. let z : outs (bad e) u ≡ 0 = ap (λ (f : Held). f u) (errors e) in omega (arith, z)
      by_result (good v) t =
          bind-Kept (one v) (λ a u. outs a u + one v u) outs t (as_what v t) (λ a. drop v >> pure a)
            (keep (one v) outs t (as_what v t) (h v t)) (λ a r u. omega arith)

  as_number-IsBalanced : (v : Value) → IsBalanced nothing (as_number n v) (λ _. nothing)
  unfolding as_number
  as_number-IsBalanced v s = by_tag (tag_beq v.tag number)
    where
      by_tag :
          (c : Bool)
          → Kept nothing s
              ((if c then pure (good v.data_id) else pure (bad not_a_number)) s)
              (λ _. nothing)
      by_tag true = λ u. omega arith
      by_tag false = λ u. omega arith

  pub get_number-IsBalanced :
      (self : Value) (name : ℕ)
      → IsBalanced (one (string_value name)) (get_number n self name) (λ _. nothing)
  unfolding get_number
  get_number-IsBalanced self name =
      read_and_drop self name (as_number n) (λ _. nothing) (λ e. refl) as_number-IsBalanced

  pub get_string-IsBalanced :
      (self : Value) (name : ℕ)
      → IsBalanced (one (string_value name)) (get_string n self name) (λ _. nothing)
  unfolding get_string
  get_string-IsBalanced self name =
      read_and_drop self name (as_string n) (λ _. nothing) (λ e. refl) as_string-IsBalanced

  pub get_list-IsBalanced :
      (self : Value) (name : ℕ)
      → IsBalanced (one (string_value name)) (get_list n self name) held_of
  unfolding get_list
  get_list-IsBalanced self name =
      read_and_drop self name (as_list n) held_of (λ e. refl) as_list-IsBalanced

  pub create_string-IsBalanced : (t : Text) → IsBalanced nothing (create_string n t) one
  unfolding create_string from_raw
  create_string-IsBalanced t s = by_result (n.get_string_id t s.world)
    where
      by_result :
          (o : Option ℕ × W)
          → Kept nothing s
              (elim o.0 as (λ _. Option (Value × Refs W)) [
                | none ↦ none
                | some i ↦ from_raw (string_value i) (record s { world = o.1 })
              ])
              one
      by_result (none, w) = tt
      by_result (some i, w) = λ u. omega arith

  pub from_string-IsBalanced : (t : Text) → IsBalanced nothing (from_string n t) held_of
  unfolding from_string
  from_string-IsBalanced t s = by_nul (has_nul t)
    where
      by_nul :
          (c : Bool)
          → Kept nothing s
              ((if c then pure (bad contains_nul) else (create_string n t >>= (λ v. pure (good v))))
                s)
              held_of
      by_nul true = λ u. omega arith
      by_nul false =
          bind-Kept nothing one held_of s (create_string n t s) _ (create_string-IsBalanced t s)
            (λ v q u. omega arith)
