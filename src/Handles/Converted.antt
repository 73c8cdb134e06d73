-- ===== src/Handles/Converted.antt =====
-- auxtools/src/value.rs, value_from.rs and proc.rs: the references that conversions and `Proc::call`
-- keep.
use auxtools.Base.{
  ℕ, ◌+◌, Bool, true, false, Option, none, some, List, [], ◌∷◌, arith, if◌then◌else◌, Text,
}
use auxtools.Value.{Value, string, tag_beq, as_u8}
use auxtools.Handles.{
  Refs, Res, good, bad, Natives, R, ◌>>=◌, ◌>>◌, pure, one, string_value, from_raw, drop,
  from_string, with_size, list_set, append,
}
use auxtools.Handles.Convert.{
  from_value, clone_string, append_clones, from_vec, set_pairs, set_named, finish_map, from_map,
  from_named,
}
use auxtools.Handles.Balance.{Held, nothing, held_of, Kept, IsBalanced, bind-Kept, keep, same_held}
use auxtools.Handles.Values.{from_string-IsBalanced}
use auxtools.Handles.Lists.{with_size-IsBalanced, list_set-IsBalanced, append-IsBalanced}

abbrev pub held_maybe : Option Value → Held
held_maybe none = nothing
held_maybe (some v) = one v

from_raw-IsBalanced : {W : Type 0} (v : Value) → IsBalanced {W = W} nothing (from_raw v) one
unfolding from_raw
from_raw-IsBalanced v s u = omega arith

module _ {W : Type 0} (n : Natives W) where
  pub from_value-IsBalanced : (v : Value) → IsBalanced (one v) (from_value n v) held_maybe
  unfolding from_value from_raw drop
  from_value-IsBalanced v s = by_tag (tag_beq v.tag string)
    where
      by_tag :
          (b : Bool)
          → Kept
              (one v)
              s
              ((if b then from_raw v >>= (λ r. drop v >> pure (some r)) else (drop v >> pure none))
                s)
              held_maybe
      by_tag true = λ u. omega arith
      by_tag false = λ u. omega arith

  -- A value that is copied, used and gone: the copy is the operation's own.
  pub with_copy :
      {B : Type 0} (v : Value) (outs : B → Held) (f : Value → R W B)
      → ((c : Value) → IsBalanced (one c) (f c) outs)
      → IsBalanced nothing (from_raw v >>= f) outs
  with_copy v outs f h s = bind-Kept nothing one outs s (from_raw v s) f (from_raw-IsBalanced v s) h

  pub clone_string-IsBalanced :
      (id : ℕ) → IsBalanced nothing (clone_string n id) (λ _. one (string_value id))
  unfolding clone_string from_value from_raw drop as_u8
  clone_string-IsBalanced id s = λ u. omega arith

  append_clones-IsBalanced :
      (self : Value) (vs : List Value) → IsBalanced nothing (append_clones n self vs) (λ _. nothing)
  unfolding append_clones
  append_clones-IsBalanced self [] = λ s u. omega arith
  append_clones-IsBalanced self (v ∷ vs) =
      with_copy v (λ _. nothing) _
        (λ c s.
          bind-Kept (one c) (λ _. nothing) (λ _. nothing) s (append n self c s) _
            (append-IsBalanced n self c s) (λ _. append_clones-IsBalanced self vs))

  pub from_vec-IsBalanced : (vs : List Value) → IsBalanced nothing (from_vec n vs) one
  unfolding from_vec
  from_vec-IsBalanced vs s =
      bind-Kept nothing one one s (with_size n 0 s) _ (with_size-IsBalanced n 0 s) (λ l t.
        bind-Kept (one l) (λ _ u. nothing u + one l u) one t (append_clones n l vs t) _
          (keep (one l) (λ _. nothing) t (append_clones n l vs t) (append_clones-IsBalanced l vs t))
          (λ _ r u. omega arith))

  set_copies-IsBalanced :
      (self k v : Value) (rest : Res (Unit {0}) → R W (Res (Unit {0})))
      → ((r : Res (Unit {0})) → IsBalanced nothing (rest r) (λ _. nothing))
      → (key : Value)
      → IsBalanced (one key) (from_raw v >>= (λ c. list_set n self key c >>= rest)) (λ _. nothing)
  set_copies-IsBalanced self k v rest h key s =
      bind-Kept (one key) (λ c u. one c u + one key u) (λ _. nothing) s (from_raw v s) _
        (keep (one key) one s (from_raw v s) (from_raw-IsBalanced v s))
        (λ c t.
          bind-Kept (λ u. one c u + one key u) (λ _. nothing) (λ _. nothing) t
            (list_set n self key c t) rest
            (same_held (λ u. one c u + one key u) (λ u. one key u + one c u) (λ _. nothing) t
              (list_set n self key c t) (λ u. omega arith) (list_set-IsBalanced n self key c t))
            h)

  -- What follows a `set`.
  after_set-IsBalanced :
      (rest : R W (Res (Unit {0})))
      → IsBalanced nothing rest (λ _. nothing)
      → (r : Res (Unit {0}))
      → IsBalanced nothing
          (λ s. elim r as (λ _. Option (Res (Unit {0}) × Refs W)) [
            | bad e ↦ pure (bad e) s
            | good _ ↦ rest s
          ])
          (λ _. nothing)
  after_set-IsBalanced rest h (bad e) s = λ u. omega arith
  after_set-IsBalanced rest h (good _) s = h s

  set_pairs-IsBalanced :
      (self : Value) (pairs : List (Value × Value))
      → IsBalanced nothing (set_pairs n self pairs) (λ _. nothing)
  unfolding set_pairs
  set_pairs-IsBalanced self [] = λ s u. omega arith
  set_pairs-IsBalanced self ((k, v) ∷ rest) =
      with_copy k (λ _. nothing) _
        (set_copies-IsBalanced self k v _
          (after_set-IsBalanced (set_pairs n self rest) (set_pairs-IsBalanced self rest)))

  set_named-IsBalanced :
      (self : Value) (pairs : List (Text × Value))
      → IsBalanced nothing (set_named n self pairs) (λ _. nothing)
  unfolding set_named
  set_named-IsBalanced self [] = λ s u. omega arith
  set_named-IsBalanced self ((k, v) ∷ rest) = λ s.
      bind-Kept nothing held_of (λ _. nothing) s (from_string n k s) _
        (from_string-IsBalanced n k s) (by_key (set_named-IsBalanced self rest))
    where
      by_key :
          IsBalanced nothing (set_named n self rest) (λ _. nothing)
          → (o : Res Value)
          → IsBalanced
              (held_of o)
              (elim o as (λ _. R W (Res (Unit {0}))) [
                | bad e ↦ pure (bad e)
                | good key ↦ from_raw v >>= (λ c. list_set n self key c >>= (λ r s. elim r [
                  | bad e ↦ pure (bad e) s
                  | good _ ↦ set_named n self rest s
                ]))
              ])
              (λ _. nothing)
      by_key h (bad e) = λ s u. omega arith
      by_key h (good key) =
          set_copies-IsBalanced self key v _ (after_set-IsBalanced (set_named n self rest) h) key

  finish_map-IsBalanced :
      (self : Value) (r : Res (Unit {0}))
      → IsBalanced (λ u. nothing u + one self u) (finish_map n self r) held_of
  unfolding finish_map drop
  finish_map-IsBalanced self (bad e) s = λ u. omega arith
  finish_map-IsBalanced self (good _) s = λ u. omega arith

  -- A new list, filled by a loop that may fail.
  filled-IsBalanced :
      (fill : Value → R W (Res (Unit {0})))
      → ((l : Value) → IsBalanced nothing (fill l) (λ _. nothing))
      → IsBalanced nothing (with_size n 0 >>= (λ l. fill l >>= finish_map n l)) held_of
  filled-IsBalanced fill h s =
      bind-Kept nothing one held_of s (with_size n 0 s) _ (with_size-IsBalanced n 0 s) (λ l t.
        bind-Kept (one l) (λ _ u. nothing u + one l u) held_of t (fill l t) _
          (keep (one l) (λ _. nothing) t (fill l t) (h l t)) (finish_map-IsBalanced l))

  pub from_map-IsBalanced :
      (pairs : List (Value × Value)) → IsBalanced nothing (from_map n pairs) held_of
  unfolding from_map
  from_map-IsBalanced pairs =
      filled-IsBalanced (λ l. set_pairs n l pairs) (λ l. set_pairs-IsBalanced l pairs)

  pub from_named-IsBalanced :
      (pairs : List (Text × Value)) → IsBalanced nothing (from_named n pairs) held_of
  unfolding from_named
  from_named-IsBalanced pairs =
      filled-IsBalanced (λ l. set_named n l pairs) (λ l. set_named-IsBalanced l pairs)
