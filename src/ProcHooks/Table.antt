-- ===== src/ProcHooks/Table.antt =====
-- auxtools/src/hooks.rs: the table after any registrations, and the calls it answers.
use auxtools.Base.{
  ℕ, ◌≡◌, subst, ◌∙◌, ap, Option, none, some, List, [], ◌∷◌, ◌==◌, ==_iff, if◌then◌else◌, arith,
  nat_eq, lookup, insert, lookup-insert, Option-cases, inl, inr,
}
use auxtools.Value.{Value}
use auxtools.Procs.{Proc}
use auxtools.ProcHooks.{
  Hooked, ok, err, hook_by_id, Call, ProcHook, Installed, Caller, Called, returned, intercept,
  run_hook, call_proc_by_id_hook,
}

-- Registrations one after the other, whether they succeed or not.
unfoldable pub hook_each : {H : Type 0} → List (ℕ × H) → Hooked H → Hooked H
hook_each [] hooks = hooks
hook_each ((id, h) ∷ rest) hooks = elim (hook_by_id id h hooks) [
  | ok more ↦ hook_each rest more
  | err e ↦ hook_each rest hooks
]

-- The first entry of an id, of all that were ever asked for.
unfoldable pub first : {H : Type 0} → ℕ → List (ℕ × H) → Option H
first id [] = none
first id ((i, h) ∷ rest) = if i == id then some h else first id rest

-- An entry that is there stays.
abbrev kept_or : {H : Type 0} → Option H → Option H → Option H
kept_or none o = o
kept_or (some h) o = some h

lookup-hook_each :
    {H : Type 0} (id : ℕ) (asked : List (ℕ × H)) (hooks : Hooked H)
    → lookup id (hook_each asked hooks) ≡ kept_or (lookup id hooks) (first id asked)
unfolding hook_each first hook_by_id
lookup-hook_each id [] hooks = ground arith
lookup-hook_each id ((i, h) ∷ rest) hooks = elim (Option-cases (lookup i hooks)) [
  | inl free ↦ ground (
    arith,
    lookup-hook_each id rest (insert i h hooks),
    lookup-insert i id h hooks,
    ==_iff i id,
    λ (p : i ≡ id). subst (λ j. lookup j hooks ≡ none) p free,
    free,
  )
  | inr (g, taken) ↦ ground (
    arith,
    lookup-hook_each id rest hooks,
    ==_iff i id,
    λ (p : i ≡ id). subst (λ j. lookup j hooks ≡ some g) p taken,
    taken,
  )
]

-- What a call of a proc does: the interceptor may answer it; if it does not, the first hook that was
-- asked for the proc answers it, and a proc that has none is left to BYOND.
unfoldable pub answer :
    {W : Type 0}
    → Caller W
    → Option Proc
    → Option (ProcHook W)
    → Call
    → (ℕ × Option Value) × W
    → Called W
unfolding run_hook
answer caller stack_trace h c ((code, written), w) =
    if code == 1
    then returned 1 written w
    else (elim h [ none ↦ returned 0 written w | some f ↦ run_hook caller stack_trace f c w ])

-- A call is answered by the interceptor, if its code is 1; else by the hook that was registered for
-- the proc first, whatever was registered for it later; else it is left to BYOND. The table holds
-- what any registrations make of an empty one.
pub call_proc_by_id_hook-answer :
    {W : Type 0} (caller : Caller W) (stack_trace : Option Proc) (s : Installed W)
    (asked : List (ℕ × ProcHook W)) (c : Call) (w : W)
    → s.hooks ≡ hook_each asked []
    → call_proc_by_id_hook caller stack_trace s c w
      ≡ answer caller stack_trace (first c.proc_id asked) c (intercept s c w)
unfolding call_proc_by_id_hook answer
call_proc_by_id_hook-answer caller stack_trace s asked c w h =
    let table : lookup c.proc_id s.hooks ≡ first c.proc_id asked =
      ap (lookup c.proc_id) h ∙ lookup-hook_each c.proc_id asked [] in
    ap
      (λ o.
        if (intercept s c w).0.0 == 1
        then returned 1 (intercept s c w).0.1 (intercept s c w).1
        else (elim o [
          | none ↦ returned 0 (intercept s c w).0.1 (intercept s c w).1
          | some f ↦ run_hook caller stack_trace f c (intercept s c w).1
        ]))
      table
