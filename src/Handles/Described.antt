-- ===== src/Handles/Described.antt =====
-- auxtools/src/value.rs and proc.rs: the references that descriptions of values and `Proc::call` keep.
use auxtools.Base.{ℕ, ◌+◌, Bool, false, Option, none, some, List, arith, Text, text_beq}
use auxtools.Value.{Value}
use auxtools.Handles.{
  Refs, Res, good, bad, Natives, to_string_failed, R, ◌>>=◌, ◌>>◌, pure, one, string_value,
  from_raw, drop, text_of, get, from_string, take_all,
}
use auxtools.Handles.Convert.{
  clone_string, call_proc, simple_text, to_text, to_dmstring, get_type, is_exact_type,
}
use auxtools.Handles.Balance.{nothing, held_of, held_all, Kept, IsBalanced, bind-Kept, keep}
use auxtools.Handles.Values.{get-IsBalanced, from_string-IsBalanced}
use auxtools.Handles.Converted.{clone_string-IsBalanced}
use auxtools.Handles.Leaks.{take_all-IsBalanced, answered_by_id-IsBalanced}

module _ {W : Type 0} (n : Natives W) where
  pub call_proc-IsBalanced :
      (proc_id : ℕ) (args : List Value) → IsBalanced nothing (call_proc n proc_id args) held_of
  unfolding call_proc
  call_proc-IsBalanced proc_id args s =
      bind-Kept nothing (λ _. held_all args) held_of s (take_all n args s) _
        (take_all-IsBalanced n args s) (λ _. answered_by_id-IsBalanced n proc_id args)

  module _ (number_text : ℕ → Text) (quoted : Text → Text) where
    pub to_text-IsBalanced :
        (v : Value) → IsBalanced nothing (to_text n number_text quoted v) (λ _. nothing)
    unfolding to_text text_of from_raw drop
    to_text-IsBalanced v s =
        by_tag (simple_text n number_text quoted v s.world) (n.to_string v s.world)
      where
        by_tag :
            (o : Option Text) (p : Option ℕ × W)
            → Kept nothing s
                (elim o as (λ _. Option (Res Text × Refs W)) [
                  | some t ↦ pure (good t) s
                  | none ↦ elim p.0 as (λ _. Option (Res Text × Refs W)) [
                    | none ↦ pure (bad (to_string_failed v)) (record s { world = p.1 })
                    | some i ↦ (text_of n i >>= (λ x. pure (good x))) (record s { world = p.1 })
                  ]
                ])
                (λ _. nothing)
        by_tag (some t) p = λ u. omega arith
        by_tag none (none, w) = λ u. omega arith
        by_tag none (some i, w) = λ u. omega arith

    pub to_dmstring-IsBalanced :
        (v : Value) → IsBalanced nothing (to_dmstring n number_text quoted v) held_of
    unfolding to_dmstring from_raw
    to_dmstring-IsBalanced v s =
        by_tag (simple_text n number_text quoted v s.world) (n.to_string v s.world)
      where
        by_tag :
            (o : Option Text) (p : Option ℕ × W)
            → Kept nothing s
                (elim o as (λ _. Option (Res Value × Refs W)) [
                  | some t ↦ from_string n t s
                  | none ↦ elim p.0 as (λ _. Option (Res Value × Refs W)) [
                    | none ↦ pure (bad (to_string_failed v)) (record s { world = p.1 })
                    | some i ↦
                        (from_raw (string_value i) >>= (λ r. pure (good r)))
                          (record s { world = p.1 })
                  ]
                ])
                held_of
        by_tag (some t) p = from_string-IsBalanced n t s
        by_tag none (none, w) = λ u. omega arith
        by_tag none (some i, w) = λ u. omega arith

    pub get_type-IsBalanced :
        (self : Value) (type_name : ℕ)
        → IsBalanced nothing (get_type n number_text quoted self type_name) (λ _. nothing)
    unfolding get_type drop
    get_type-IsBalanced self type_name s =
        bind-Kept nothing (λ _. one (string_value type_name)) (λ _. nothing) s
          (clone_string n type_name s) _ (clone_string-IsBalanced n type_name s)
          (λ _ t.
            bind-Kept (one (string_value type_name)) held_of (λ _. nothing) t
              (get n self type_name t) _ (get-IsBalanced n self type_name t) described)
      where
        described :
            (r : Res Value)
            → IsBalanced
                (held_of r)
                (λ q. elim r as (λ _. Option (Res Text × Refs W)) [
                  | bad e ↦ pure (bad e) q
                  | good v ↦ (to_text n number_text quoted v >>= (λ t. drop v >> pure t)) q
                ])
                (λ _. nothing)
        described (bad e) q = λ u. omega arith
        described (good v) q =
            bind-Kept (one v) (λ _ u. nothing u + one v u) (λ _. nothing) q
              (to_text n number_text quoted v q) _
              (keep (one v) (λ _. nothing) q (to_text n number_text quoted v q)
                (to_text-IsBalanced v q))
              (λ t p u. omega arith)

    pub is_exact_type-IsBalanced :
        (self : Value) (type_name : ℕ) (typepath : Text)
        → IsBalanced nothing
            (is_exact_type n number_text quoted self type_name typepath)
            (λ _. nothing)
    unfolding is_exact_type
    is_exact_type-IsBalanced self type_name typepath s =
        bind-Kept nothing (λ _. nothing) (λ _. nothing) s
          (get_type n number_text quoted self type_name s) _ (get_type-IsBalanced self type_name s)
          compared
      where
        compared :
            (r : Res Text)
            → IsBalanced nothing
                (elim r as (λ _. R W Bool) [
                  | bad _ ↦ pure false
                  | good t ↦ pure (text_beq t typepath)
                ])
                (λ _. nothing)
        compared (bad e) q = λ u. omega arith
        compared (good t) q = λ u. omega arith
