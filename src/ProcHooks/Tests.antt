-- ===== src/ProcHooks/Tests.antt =====
-- Two hooks of one proc, and the theorem there.
use auxtools.Base.{ℕ, ◌+◌, ◌≡◌, refl, none, List, [], ◌∷◌}
use auxtools.Value.{null_value}
use auxtools.ProcHooks.{
  DmResult, Call, ProcHook, Installed, Caller, Called, returned, intercept, call_proc_by_id_hook,
  hook_by_id,
}
use auxtools.ProcHooks
use auxtools.ProcHooks.Table.{hook_each, first, answer, call_proc_by_id_hook-answer}

-- A hook that counts in the state.
abbrev adds : ℕ → ProcHook ℕ
adds n src usr args w = (ProcHooks.DmResult.ok src, w + n)

abbrev asked : List (ℕ × ProcHook ℕ)
asked = (4, adds 1) ∷ (4, adds 10) ∷ []

abbrev installed : Installed ℕ
installed = record { hooks = (4, adds 1) ∷ []; interceptor = none }

abbrev caller : Caller ℕ
caller = record { from_string = λ t w. (none, w); call = λ p vs w. (none, w) }

abbrev call_of_four : Call
call_of_four = record { usr = null_value; proc_type = 0; proc_id = 4; src = null_value; args = [] }

asked_for : installed.hooks ≡ hook_each asked []
unfolding hook_each hook_by_id
asked_for = refl

call_proc_by_id_hook-answer_example :
    call_proc_by_id_hook caller none installed call_of_four 5
    ≡ answer caller none (first 4 asked) call_of_four (intercept installed call_of_four 5)
call_proc_by_id_hook-answer_example =
    call_proc_by_id_hook-answer caller none installed asked call_of_four 5 asked_for
