-- ===== src/Handles/Leaks.antt =====
-- auxtools/src/value.rs: the references of the arguments of `Value::call`.
use auxtools.Base.{
  ℕ, ◌+◌, ◌≡◌, refl, sym, subst, ap, ◌∙◌, true, false, Option, none, some, List, [], ◌∷◌, arith,
  Text,
}
use auxtools.Value.{Value, null_value, as_u8}
use auxtools.Handles.{
  Refs, Res, good, bad, contains_nul, call_failed, Natives, ◌>>=◌, ◌>>◌, pure, one, from_raw,
  from_raw_owned, drop, has_nul, spaced, create_string, from_string, take_all, leave_all,
  call_by_id, call_named, call, answered_by_id, R,
}
use auxtools.Handles.Balance.{
  nothing, held_of, held_all, Kept, IsBalanced, bind-Kept, keep, frame-Kept, same_held,
}
use auxtools.Handles.Values.{create_string-IsBalanced}

-- Only references were taken, one of each value for each time it stands in the list.
pub record IsTaken {W : Type 0} (vs : List Value) (s t : Refs W) : Type 0 where
  pub taken : (u : Value) → t.taken u ≡ s.taken u + held_all vs u
  pub given : t.given ≡ s.given
  pub adopted : t.adopted ≡ s.adopted
  pub passed : t.passed ≡ s.passed

has_nul-spaced : (t : Text) → has_nul (spaced t) ≡ has_nul t
unfolding has_nul spaced
has_nul-spaced [] = refl
has_nul-spaced (c ∷ t) = ground (arith, has_nul-spaced t)

module _ {W : Type 0} (n : Natives W) where
  take_all-IsTaken :
      (vs : List Value) (s : Refs W)
      → (t : Refs W) × (take_all n vs s ≡ some (tt, t)) × IsTaken vs s t
  unfolding take_all from_raw
  take_all-IsTaken [] s =
      (s, refl, record { taken = λ u. omega arith; given = refl; adopted = refl; passed = refl })
  take_all-IsTaken (v ∷ vs) s =
      let (t, e, h) = take_all-IsTaken vs (record s { taken = λ u. s.taken u + one v u }) in
      (
        t,
        e,
        record {
          taken = λ u. omega (arith, h.taken u);
          given = h.given;
          adopted = h.adopted;
          passed = h.passed;
        },
      )

  -- A call of a proc whose name has a NUL fails, and the references of its arguments stay taken:
  -- nothing gives them back, and BYOND has not been left them.
  pub call-IsTaken :
      (self : Value) (procname : Text) (args : List Value) (s : Refs W)
      → has_nul procname ≡ true
      → (t : Refs W) × (call n self procname args s ≡ some (bad contains_nul, t)) × IsTaken args s t
  unfolding call call_named from_string
  call-IsTaken self procname args s nul =
      let (t, e, h) = take_all-IsTaken args s in
      let refused : has_nul (spaced procname) ≡ true = has_nul-spaced procname ∙ nul in
      (t, ground (arith, e, refused), h)

  record IsLeft (vs : List Value) (s t : Refs W) : Type 0 where
    left : (u : Value) → t.passed u ≡ s.passed u + held_all vs u
    taken : (u : Value) → t.taken u ≡ s.taken u
    given : (u : Value) → t.given u ≡ s.given u
    adopted : (u : Value) → t.adopted u ≡ s.adopted u

  leave_all-IsLeft : (vs : List Value) (s : Refs W) → IsLeft vs s (leave_all n vs s)
  unfolding leave_all
  leave_all-IsLeft [] s = record {
    left = λ u. omega arith;
    taken = λ u. refl;
    given = λ u. refl;
    adopted = λ u. refl;
  }
  leave_all-IsLeft (v ∷ vs) s =
      let h = leave_all-IsLeft vs (record s { passed = λ u. s.passed u + one v u }) in
      record {
        left = λ u. omega (arith, h.left u);
        taken = h.taken;
        given = h.given;
        adopted = h.adopted;
      }

  -- Only counts matter, not BYOND's state.
  world-IsLeft :
      (vs : List Value) (s : Refs W) (w : W) → IsLeft vs s (leave_all n vs (record s { world = w }))
  world-IsLeft vs s w =
      let h = leave_all-IsLeft vs (record s { world = w }) in
      record { left = h.left; taken = h.taken; given = h.given; adopted = h.adopted }

  -- A null that is dropped changes no count.
  null-IsLeft :
      (vs : List Value) (s t : Refs W)
      → IsLeft vs s t
      → IsLeft vs s (record t { given = λ u. t.given u + one null_value u })
  unfolding one as_u8
  null-IsLeft vs s t h = record {
    left = h.left;
    taken = h.taken;
    given = λ u. omega (arith, h.given u);
    adopted = h.adopted;
  }

  -- The answer of a call, whose arguments are BYOND's then.
  answered-Kept :
      (args : List Value) (s t : Refs W) (o : Option Value)
      → IsLeft args s t
      → Kept
          (held_all args)
          s
          ((elim o as (λ _. R W (Res Value)) [
            | none ↦ pure (bad call_failed)
            | some v ↦ from_raw_owned v >>= (λ r. pure (good r))
          ])
            t)
          held_of
  unfolding from_raw_owned
  answered-Kept args s t none h = λ u. omega (arith, h.left u, h.taken u, h.given u, h.adopted u)
  answered-Kept args s t (some v) h =
      λ u. omega (arith, h.left u, h.taken u, h.given u, h.adopted u)

  call_by_id-IsBalanced :
      (self : Value) (name : ℕ) (args : List Value)
      → IsBalanced (held_all args) (call_by_id n self name args) held_of
  unfolding call_by_id drop
  call_by_id-IsBalanced self name args s =
      let o = n.call_datum_proc_by_name self name args s.world in
      let t : Refs W = record s { world = o.1 } in
      let u = leave_all n args t in
      answered-Kept args s (record u { given = λ x. u.given x + one null_value x }) o.0
        (null-IsLeft args s u (world-IsLeft args s o.1))

  -- What `Proc::call` does with the references of its arguments.
  pub answered_by_id-IsBalanced :
      (proc_id : ℕ) (args : List Value)
      → IsBalanced (held_all args) (answered_by_id n proc_id args) held_of
  unfolding answered_by_id drop
  answered_by_id-IsBalanced proc_id args s =
      let o = n.call_proc_by_id proc_id args s.world in
      let t : Refs W = record s { world = o.1 } in
      let u = leave_all n args t in
      let v : Refs W = record u { given = λ x. u.given x + one null_value x } in
      answered-Kept args s (record v { given = λ x. v.given x + one null_value x }) o.0
        (null-IsLeft args s v (null-IsLeft args s u (world-IsLeft args s o.1)))

  at : {f g : Value → ℕ} → f ≡ g → (u : Value) → f u ≡ g u
  at e u = ap (λ (h : Value → ℕ). h u) e

  pub take_all-IsBalanced :
      (vs : List Value) → IsBalanced nothing (take_all n vs) (λ _. held_all vs)
  take_all-IsBalanced vs s =
      let (t, e, h) = take_all-IsTaken vs s in
      subst (λ o. Kept nothing s o (λ _. held_all vs)) (sym e)
        (λ u. omega (arith, h.taken u, at h.given u, at h.adopted u, at h.passed u))

  call_named-IsBalanced :
      (self : Value) (args : List Value) (name : Value)
      → IsBalanced (λ u. one name u + held_all args u) (call_named n self args (good name)) held_of
  unfolding call_named drop
  call_named-IsBalanced self args name r =
      bind-Kept (λ u. one name u + held_all args u) (λ a u. held_of a u + one name u) held_of r
        (call_by_id n self name.data_id args r) (λ a. drop name >> pure a)
        (same_held (λ u. one name u + held_all args u) (λ u. held_all args u + one name u)
          (λ a u. held_of a u + one name u) r (call_by_id n self name.data_id args r)
          (λ u. omega arith)
          (frame-Kept (held_all args) (one name) held_of r (call_by_id n self name.data_id args r)
            (call_by_id-IsBalanced self name.data_id args r)))
        (λ a q u. omega arith)

  -- A text without a NUL is made a string.
  from_string_plain :
      {B : Type 0} (t : Text) (k : Res Value → R W B) (s : Refs W)
      → has_nul t ≡ false
      → (from_string n t >>= k) s ≡ (create_string n t >>= (λ v. k (good v))) s
  unfolding from_string
  from_string_plain t k s plain = by_result (create_string n t s) (ground (arith, plain))
    where
      by_result :
          (o : Option (Value × Refs W))
          → from_string n t s ≡ elim o as (λ _. Option (Res Value × Refs W)) [
            | none ↦ none
            | some (v, q) ↦ some (good v, q)
          ]
          → (from_string n t >>= k) s ≡ elim o [ none ↦ none | some (v, q) ↦ k (good v) q ]
      by_result none e = ground (arith, e)
      by_result (some (v, q)) e = ground (arith, e)

  -- A call of a proc whose name has no NUL loses no reference: those of the arguments that were taken
  -- are left to BYOND, and a result comes with its own.
  pub call-Kept :
      (self : Value) (procname : Text) (args : List Value)
      → has_nul procname ≡ false
      → (s : Refs W) → Kept nothing s (call n self procname args s) held_of
  unfolding call
  call-Kept self procname args plain s =
      let name = spaced procname in
      let same : has_nul name ≡ false = has_nul-spaced procname ∙ plain in
      bind-Kept nothing (λ _. held_all args) held_of s (take_all n args s) _
        (take_all-IsBalanced args s)
        (λ _ t.
          subst (λ o. Kept (held_all args) t o held_of)
            (sym (from_string_plain name (call_named n self args) t same))
            (bind-Kept (held_all args) (λ v u. one v u + held_all args u) held_of t
              (create_string n name t) _
              (keep (held_all args) one t (create_string n name t)
                (create_string-IsBalanced n name t))
              (call_named-IsBalanced self args)))
