-- ===== src/Procs/Overrides.antt =====
-- auxtools/src/proc.rs: the tables while `populate_procs` fills them.
use auxtools.Base.{
  ℕ, zero, suc, ◌+◌, ◌<◌, ◌≡◌, ◌≢◌, refl, ap, sym, ◌∙◌, subst, ◌⊎◌, inl, inr, none, some, List, [],
  ◌∷◌, ◌++◌, arith, ==_iff, Text, text_beq, text_beq_iff, text_eq, nat_eq, length, get_elem?,
  lookup, insert, lookup-insert, Option-cases, Bool-cases, get_elem?-append_left, lt_of_get_elem?,
}
use auxtools.Procs.{Proc, Registry, register}

-- The proc stands in the list of its path at its override number.
pub record Holds (r : Registry) (p : Proc) (k : ℕ) : Type 0 where
  pub siblings : List Proc
  pub listed : lookup p.path r.by_name ≡ some siblings
  pub at_k : get_elem? siblings k ≡ some p
  pub numbered : lookup p.id r.override_ids ≡ some k

-- Exactly the procs below `n` are listed, each under its own path and number.
pub record IsGood (n : ℕ) (r : Registry) : Type 0 where
  pub only :
      (path : Text) (ps : List Proc) (k : ℕ) (p : Proc)
      → lookup path r.by_name ≡ some ps
      → get_elem? ps k ≡ some p
      → (p.path ≡ path) × (p.id < n) × (lookup p.id r.override_ids ≡ some k)

pub siblings_of : Registry → Text → List Proc
siblings_of r path = elim (lookup path r.by_name) [ some ps ↦ ps | none ↦ [] ]

register_lem :
    (p : Proc) (r : Registry)
    → register p r ≡ record {
      by_name = insert p.path (siblings_of r p.path ++ p ∷ []) r.by_name;
      override_ids = insert p.id (length (siblings_of r p.path)) r.override_ids;
    }
unfolding register siblings_of
register_lem p r = ground arith

last_of :
    (ps : List Proc) (p q : Proc) (k : ℕ)
    → get_elem? (ps ++ p ∷ []) k ≡ some q
    → ((k < length ps) × (get_elem? ps k ≡ some q)) ⊎ ((k ≡ length ps) × (p ≡ q))
last_of [] p q zero h = inr (refl, ground arith)
last_of [] p q (suc k) h = ground arith
last_of (x ∷ ps) p q zero h = inl (omega arith, h)
last_of (x ∷ ps) p q (suc k) h = ground (arith, last_of ps p q k)

listed_at : (ps : List Proc) (p : Proc) → get_elem? (ps ++ p ∷ []) (length ps) ≡ some p
listed_at [] p = refl
listed_at (x ∷ ps) p = listed_at ps p

pub register-Holds :
    (p : Proc) (r : Registry) → Holds (register p r) p (length (siblings_of r p.path))
register-Holds p r =
    subst (λ t. Holds t p (length (siblings_of r p.path))) (sym (register_lem p r))
      (record {
        siblings = siblings_of r p.path ++ p ∷ [];
        listed = ground (arith, text_beq_iff p.path p.path);
        at_k = listed_at (siblings_of r p.path) p;
        numbered = ground (arith, ==_iff p.id p.id);
      })

siblings_of-some :
    (r : Registry) (path : Text) (ps : List Proc)
    → lookup path r.by_name ≡ some ps
    → siblings_of r path ≡ ps
unfolding siblings_of
siblings_of-some r path ps h = ground arith

-- A proc that was found stays at its place when another one is registered.
pub kept_Holds :
    (p q : Proc) (k : ℕ) (r : Registry) → Holds r q k → p.id ≢ q.id → Holds (register p r) q k
kept_Holds p q k r v ne =
    subst (λ t. Holds t q k) (sym (register_lem p r))
      (elim (Bool-cases (text_beq p.path q.path)) [
        | inl same ↦
            let e : siblings_of r p.path ≡ v.siblings =
              siblings_of-some r p.path v.siblings
                (ap (λ t. lookup t r.by_name) ((text_beq_iff p.path q.path).0 same) ∙ v.listed) in
            record {
              siblings = siblings_of r p.path ++ p ∷ [];
              listed =
                  ground
                    (arith, lookup-insert p.path q.path (siblings_of r p.path ++ p ∷ []) r.by_name);
              at_k = rw e (
                  get_elem?-append_left v.siblings (p ∷ []) k
                    (lt_of_get_elem? v.siblings k q v.at_k)
                  ∙ v.at_k);
              numbered = numbers;
            }
        | inr other ↦ record {
          siblings = v.siblings;
          listed = ground (
            arith,
            v.listed,
            lookup-insert p.path q.path (siblings_of r p.path ++ p ∷ []) r.by_name,
          );
          at_k = v.at_k;
          numbered = numbers;
        }
      ])
  where
    numbers : lookup q.id (insert p.id (length (siblings_of r p.path)) r.override_ids) ≡ some k
    numbers =
        ground (
          arith,
          v.numbered,
          lookup-insert p.id q.id (length (siblings_of r p.path)) r.override_ids,
        )

siblings_none :
    (r : Registry) (path : Text) → lookup path r.by_name ≡ none → siblings_of r path ≡ []
unfolding siblings_of
siblings_none r path h = ground arith

-- What stands in the siblings of a path is listed under it.
sibling_only :
    {n : ℕ} {r : Registry} (path : Text) (k : ℕ) (q : Proc)
    → IsGood n r
    → get_elem? (siblings_of r path) k ≡ some q
    → (q.path ≡ path) × (q.id < n) × (lookup q.id r.override_ids ≡ some k)
sibling_only {r} path k q g h = elim (Option-cases (lookup path r.by_name)) [
  | inl e ↦ absurd (ground (arith, siblings_none r path e))
  | inr (ps, e) ↦
      g.only path ps k q e (ap (λ l. get_elem? l k) (sym (siblings_of-some r path ps e)) ∙ h)
]

pub register-IsGood : (p : Proc) (r : Registry) → IsGood p.id r → IsGood (p.id + 1) (register p r)
register-IsGood p r g = subst (IsGood (p.id + 1)) (sym (register_lem p r)) (record {
  only = λ path ps k q listed at_k. elim (Bool-cases (text_beq p.path path)) [
    | inl same ↦
        let e : siblings_of r p.path ++ p ∷ [] ≡ ps =
          ground (arith, lookup-insert p.path path (siblings_of r p.path ++ p ∷ []) r.by_name) in
        let here : p.path ≡ path = (text_beq_iff p.path path).0 same in
        elim (last_of (siblings_of r p.path) p q k (ap (λ l. get_elem? l k) e ∙ at_k)) [
          | inl (small, old) ↦
              let (a, b, c) = sibling_only p.path k q g old in
              (
                a ∙ here,
                omega arith,
                ground (
                  arith,
                  c,
                  lookup-insert p.id q.id (length (siblings_of r p.path)) r.override_ids,
                ),
              )
          | inr (last, new) ↦ (
            ap (λ (t : Proc). t.path) (sym new) ∙ here,
            ground arith,
            ground (arith, lookup-insert p.id q.id (length (siblings_of r p.path)) r.override_ids),
          )
        ]
    | inr other ↦
        let (a, b, c) =
          g.only path ps k q
            (ground (arith, lookup-insert p.path path (siblings_of r p.path ++ p ∷ []) r.by_name))
            at_k in
        (
          a,
          omega arith,
          ground (arith, c, lookup-insert p.id q.id (length (siblings_of r p.path)) r.override_ids),
        )
  ];
})
