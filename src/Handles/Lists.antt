-- ===== src/Handles/Lists.antt =====
-- auxtools/src/list.rs: the references that operations on lists keep.
use auxtools.Base.{
  ℕ, ◌+◌, Bool, true, false, Option, none, some, List, [], ◌∷◌, arith, if◌then◌else◌,
}
use auxtools.Value.{Value, value, list}
use auxtools.Handles.{
  Refs, Res, good, bad, Natives, list_failed, ◌>>=◌, ◌>>◌, pure, one, from_raw_owned, drop,
  with_size, list_get, list_set, append, remove, append_all, from_iter,
}
use auxtools.Handles.Balance.{
  nothing, held_of, held_all, Kept, IsBalanced, bind-Kept, keep, frame-Kept, same_held,
}

module _ {W : Type 0} (n : Natives W) where
  pub with_size-IsBalanced : (capacity : ℕ) → IsBalanced nothing (with_size n capacity) one
  unfolding with_size from_raw_owned
  with_size-IsBalanced capacity s = by_result (n.create_list capacity s.world)
    where
      by_result :
          (o : Option ℕ × W)
          → Kept nothing s
              (elim o.0 as (λ _. Option (Value × Refs W)) [
                | none ↦ none
                | some i ↦ from_raw_owned (value list i) (record s { world = o.1 })
              ])
              one
      by_result (none, w) = tt
      by_result (some i, w) = λ u. omega arith

  pub list_get-IsBalanced :
      (self index : Value) → IsBalanced (one index) (list_get n self index) held_of
  unfolding list_get from_raw_owned drop
  list_get-IsBalanced self index s = by_result (n.get_assoc_element self index s.world)
    where
      by_result :
          (o : Option Value × W)
          → Kept
              (one index)
              s
              (elim o.0 as (λ _. Option (Res Value × Refs W)) [
                | none ↦ (drop index >> pure (bad list_failed)) (record s { world = o.1 })
                | some v ↦
                    (from_raw_owned v >>= (λ r. drop index >> pure (good r)))
                      (record s { world = o.1 })
              ])
              held_of
      by_result (none, w) = λ u. omega arith
      by_result (some v, w) = λ u. omega arith

  pub list_set-IsBalanced :
      (self index v : Value)
      → IsBalanced (λ u. one index u + one v u) (list_set n self index v) (λ _. nothing)
  unfolding list_set drop
  list_set-IsBalanced self index v s u = omega arith

  pub append-IsBalanced : (self v : Value) → IsBalanced (one v) (append n self v) (λ _. nothing)
  unfolding append drop
  append-IsBalanced self v s = by_result (n.append_to_list self v s.world)
    where
      by_result :
          (o : Bool × W)
          → Kept (one v) s (if o.0 then drop v (record s { world = o.1 }) else none) (λ _. nothing)
      by_result (true, w) = λ u. omega arith
      by_result (false, w) = tt

  pub remove-IsBalanced : (self v : Value) → IsBalanced (one v) (remove n self v) (λ _. nothing)
  unfolding remove drop
  remove-IsBalanced self v s = by_result (n.remove_from_list self v s.world)
    where
      by_result :
          (o : Bool × W)
          → Kept (one v) s (if o.0 then drop v (record s { world = o.1 }) else none) (λ _. nothing)
      by_result (true, w) = λ u. omega arith
      by_result (false, w) = tt

  pub append_all-IsBalanced :
      (self : Value) (vs : List Value)
      → IsBalanced (held_all vs) (append_all n self vs) (λ _. nothing)
  unfolding append_all
  append_all-IsBalanced self [] s = λ u. omega arith
  append_all-IsBalanced self (v ∷ vs) s =
      bind-Kept (held_all (v ∷ vs)) (λ _ u. nothing u + held_all vs u) (λ _. nothing) s
        (append n self v s) (λ _. append_all n self vs)
        (frame-Kept (one v) (held_all vs) (λ _. nothing) s (append n self v s)
          (append-IsBalanced self v s))
        (λ _ t.
          same_held (λ u. nothing u + held_all vs u) (held_all vs) (λ _. nothing) t
            (append_all n self vs t) (λ u. omega arith) (append_all-IsBalanced self vs t))

  pub from_iter-IsBalanced : (vs : List Value) → IsBalanced (held_all vs) (from_iter n vs) one
  unfolding from_iter
  from_iter-IsBalanced vs s =
      bind-Kept (held_all vs) (λ l u. one l u + held_all vs u) one s (with_size n 0 s)
        (λ l. append_all n l vs >> pure l)
        (keep (held_all vs) one s (with_size n 0 s) (with_size-IsBalanced 0 s))
        (λ l t.
          bind-Kept (λ u. one l u + held_all vs u) (λ _ u. nothing u + one l u) one t
            (append_all n l vs t) (λ _. pure l)
            (same_held (λ u. one l u + held_all vs u) (λ u. held_all vs u + one l u)
              (λ _ u. nothing u + one l u) t (append_all n l vs t) (λ u. omega arith)
              (frame-Kept (held_all vs) (one l) (λ _. nothing) t (append_all n l vs t)
                (append_all-IsBalanced l vs t)))
            (λ _ r u. omega arith))
