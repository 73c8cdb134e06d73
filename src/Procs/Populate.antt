-- ===== src/Procs/Populate.antt =====
-- `populate_procs` and the lookups that follow it.
use auxtools.Base.{
  ℕ, zero, suc, ◌+◌, ◌<◌, ◌≡◌, subst, inl, inr, some, List, [], ◌∷◌, arith, Text, text_eq, nat_eq,
  get_elem?, lookup, Option-cases,
}
use auxtools.Procs.{
  Proc, RawProc, Registry, strip_path, from_entry, register, populate_from, empty_registry,
  populate_procs, get_proc_override, override_id, from_id,
}
use auxtools.Procs.Overrides.{Holds, IsGood, register-Holds, kept_Holds, register-IsGood}

abbrev IsFound : Registry → Proc → Type 0
IsFound r p = (k : ℕ) × Holds r p k

-- A proc registered before index `i` stays.
populate-kept :
    (i : ℕ) (procs : List RawProc) (r : Registry) (p : Proc)
    → p.id < i
    → IsFound r p
    → IsFound (populate_from i procs r) p
unfolding populate_from
populate-kept i [] r p h f = f
populate-kept i (e ∷ rest) r p h (k, f) =
    populate-kept (i + 1) rest (register (from_entry i e) r) p (omega arith)
      (k, kept_Holds (from_entry i e) p k r f (unfold from_entry in λ eq. omega (arith, eq)))

populate-IsFound :
    (i j : ℕ) (procs : List RawProc) (r : Registry) (e : RawProc)
    → get_elem? procs j ≡ some e
    → IsFound (populate_from i procs r) (from_entry (i + j) e)
unfolding populate_from
populate-IsFound i j [] r e h = ground arith
populate-IsFound i zero (x ∷ rest) r e h =
    let same : from_entry i x ≡ from_entry (i + 0) e = ground arith in
    populate-kept (i + 1) rest (register (from_entry i x) r) (from_entry (i + 0) e)
      (unfold from_entry in omega arith)
      (subst (IsFound (register (from_entry i x) r)) same (_, register-Holds (from_entry i x) r))
populate-IsFound i (suc j) (x ∷ rest) r e h =
    let n : i + 1 + j ≡ i + suc j = omega arith in
    subst (λ k. IsFound (populate_from (i + 1) rest (register (from_entry i x) r)) (from_entry k e))
      n (populate-IsFound (i + 1) j rest (register (from_entry i x) r) e h)

populate-IsGood :
    (i : ℕ) (procs : List RawProc) (r : Registry)
    → IsGood i r
    → (n : ℕ) × IsGood n (populate_from i procs r)
unfolding populate_from
populate-IsGood i [] r g = (i, g)
populate-IsGood i (e ∷ rest) r g =
    populate-IsGood (i + 1) rest (register (from_entry i e) r)
      (unfold from_entry in register-IsGood (from_entry i e) r g)

found_by_path :
    (r : Registry) (p : Proc)
    → strip_path p.path ≡ p.path
    → IsFound r p
    → get_proc_override r p.path (override_id r p) ≡ some p
unfolding get_proc_override override_id
found_by_path r p plain (k, f) =
    let path : lookup (strip_path p.path) r.by_name ≡ some f.siblings = rw plain f.listed in
    ground (arith, f.numbered, f.at_k, path)

-- After `populate_procs`, each proc of BYOND's array is found by its own path and its own override
-- number, if stripping its path once more does not change it.
pub get_proc_override-override_id :
    (procs : List RawProc) (i : ℕ) (p : Proc)
    → from_id procs i ≡ some p
    → strip_path p.path ≡ p.path
    → get_proc_override (populate_procs procs) p.path (override_id (populate_procs procs) p)
      ≡ some p
unfolding populate_procs from_id
get_proc_override-override_id procs i p h plain = elim (Option-cases (get_elem? procs i)) [
  | inl e ↦ ground arith
  | inr (x, e) ↦
      let n : 0 + i ≡ i = omega arith in
      let same : from_entry (0 + i) x ≡ p = rw n (ground arith) in
      found_by_path (populate_from 0 procs empty_registry) p plain (
        subst (IsFound (populate_from 0 procs empty_registry)) same
          (populate-IsFound 0 i procs empty_registry x e))
]

-- Conversely a proc that a lookup returns has the stripped path that was asked for and the override
-- number that was asked for.
pub get_proc_override_sound :
    (procs : List RawProc) (path : Text) (k : ℕ) (p : Proc)
    → get_proc_override (populate_procs procs) path k ≡ some p
    → (p.path ≡ strip_path path) × (override_id (populate_procs procs) p ≡ k)
unfolding populate_procs get_proc_override override_id
get_proc_override_sound procs path k p h =
    let (n, g) =
      populate-IsGood 0 procs empty_registry (record { only = λ q ps j x l e. ground arith }) in
    elim (Option-cases (lookup (strip_path path) (populate_from 0 procs empty_registry).by_name)) [
      | inl e ↦ ground arith
      | inr (ps, e) ↦
          let (a, b, c) = g.only (strip_path path) ps k p e (ground arith) in (a, ground (arith, c))
    ]
