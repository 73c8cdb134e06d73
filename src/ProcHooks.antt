-- ===== src/ProcHooks.antt =====
-- auxtools/src/hooks.rs: procs whose calls go to a function of the library.
pub mod Table
mod Tests
use auxtools.Base.{
  ℕ, ◌+◌, Bool, true, false, Option, none, some, List, [], ◌∷◌, ◌==◌, if◌then◌else◌, Text, nat_eq,
  lookup, insert,
}
use auxtools.Value.{Value, null_value}
use auxtools.Procs.{Proc, Registry, get_proc}

pub data HookFailure : Type 0 where
  proc_not_found already_hooked : HookFailure

-- `PROC_HOOKS`; a hook is whatever a hook is to its user.
abbrev pub Hooked : Type 0 → Type 0
Hooked H = List (ℕ × H)

pub data Result (A : Type 0) : Type 0 where
  ok : A → Result A
  err : HookFailure → Result A

unfoldable pub hook_by_id : {H : Type 0} → ℕ → H → Hooked H → Result (Hooked H)
hook_by_id id h hooks = elim (lookup id hooks) [
  | none ↦ ok (insert id h hooks)
  | some _ ↦ err already_hooked
]

unfoldable pub hook : {H : Type 0} → Registry → Text → H → Hooked H → Result (Hooked H)
unfolding hook_by_id
hook procs name h hooks = elim (get_proc procs name) [
  | some p ↦ hook_by_id p.id h hooks
  | none ↦ err proc_not_found
]

-- `Proc::hook`
unfoldable pub hook_proc : {H : Type 0} → Proc → H → Hooked H → Result (Hooked H)
unfolding hook_by_id
hook_proc p h hooks = hook_by_id p.id h hooks

-- The trampolines to BYOND's own functions, by which `hooks::init` remembers them.
pub record Originals : Type 0 where
  pub runtime_original : ℕ
  pub call_proc_by_id_original : ℕ
  pub call_proc_by_id_original2 : ℕ

-- `hooks::init` on Linux; `detour` gives the trampoline to a function that is detoured, if that
-- works. What does not is unwrapped: a panic (`none`).
unfoldable pub init :
    (detour : ℕ → Option ℕ) (runtime call_proc_by_id call_proc_by_id2 : ℕ) → Option Originals
init detour runtime call_proc_by_id call_proc_by_id2 = elim (detour runtime) [
  | none ↦ none
  | some r ↦ elim (detour call_proc_by_id) [
    | none ↦ none
    | some c ↦ elim (detour call_proc_by_id2) [
      | none ↦ none
      | some d ↦ some (record {
        runtime_original = r;
        call_proc_by_id_original = c;
        call_proc_by_id_original2 = d;
      })
    ]
  ]
]

-- What `call_proc_by_id_hook` is given of a call.
pub record Call : Type 0 where
  pub usr : Value
  pub proc_type : ℕ
  pub proc_id : ℕ
  pub src : Value
  pub args : List Value

pub data DmResult : Type 0 where
  ok : Value → DmResult
  err : (message : Text) → DmResult

-- `ProcHook`: the arguments are `src`, `usr` and the call's arguments. It runs over the state `W` of
-- BYOND and of the library's user.
abbrev pub ProcHook : Type 0 → Type 0
ProcHook W = (src usr : Value) (args : List Value) → W → DmResult × W

-- `CallProcByIdInterceptor`: its code, and what it writes to `ret`.
abbrev pub Interceptor : Type 0 → Type 0
Interceptor W = Call → W → (ℕ × Option Value) × W

pub record Installed (W : Type 0) : Type 0 where
  pub hooks : Hooked (ProcHook W)
  pub interceptor : Option (Interceptor W)

-- What the error path calls: `Value::from_string` and `Proc::call`. `none` is an error.
pub record Caller (W : Type 0) : Type 0 where
  pub from_string : Text → W → Option Value × W
  pub call : Proc → List Value → W → Option Value × W

-- The code that is returned (0 lets BYOND make the call) and what was written to `ret`.
pub data Called (W : Type 0) : Type 0 where
  returned : (code : ℕ) (ret : Option Value) → W → Called W
  panic : Called W

module _ {W : Type 0} where
  unfoldable pub install_interceptor : Interceptor W → Installed W → Installed W
  install_interceptor f s = record s { interceptor = some f }

  unfoldable pub clear_hooks : Installed W → Installed W
  clear_hooks s = record { hooks = []; interceptor = none }

  unfoldable pub intercept : Installed W → Call → W → (ℕ × Option Value) × W
  intercept s c w = elim s.interceptor [ none ↦ ((0, none), w) | some f ↦ f c w ]

  -- A hook's error is reported by a call of `stack_trace`, each step of which is unwrapped.
  unfoldable pub report : Caller W → Option Proc → Text → W → Called W
  report caller stack_trace message w = elim stack_trace [
    | none ↦ panic
    | some p ↦
        let (text, w1) = caller.from_string message w in
        elim text [
          | none ↦ panic
          | some v ↦
              let (result, w2) = caller.call p (v ∷ []) w1 in
              elim result [ none ↦ panic | some _ ↦ returned 1 (some null_value) w2 ]
        ]
  ]

  unfoldable pub run_hook : Caller W → Option Proc → ProcHook W → Call → W → Called W
  unfolding report
  run_hook caller stack_trace h c w =
      let (result, w1) = h c.src c.usr c.args w in
      elim result [
        | ok v ↦ returned 1 (some v) w1
        | err message ↦ report caller stack_trace message w1
      ]

  unfoldable pub call_proc_by_id_hook :
      Caller W → (stack_trace : Option Proc) → Installed W → Call → W → Called W
  unfolding intercept run_hook
  call_proc_by_id_hook caller stack_trace s c w =
      let ((code, written), w1) = intercept s c w in
      if code == 1 then returned 1 written w1 else (elim (lookup c.proc_id s.hooks) [
        | none ↦ returned 0 written w1
        | some h ↦ run_hook caller stack_trace h c w1
      ])

  -- The functions that are declared with `runtime_handler`, in the order of the inventory.
  unfoldable pub on_runtime : List (Text → W → W) → Text → W → W
  on_runtime [] error w = w
  on_runtime (f ∷ fs) error w = on_runtime fs error (f error w)
