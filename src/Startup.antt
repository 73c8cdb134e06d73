-- ===== src/Startup.antt =====
-- auxtools/src/lib.rs and init.rs: `auxtools_init` and `auxtools_shutdown`, on Linux. The functions
-- that users of the library register run over a state `U` of theirs.
pub mod Signatures
pub mod Scanning
pub mod Located
pub mod Levels
pub mod Cycle
pub mod Reload
mod Tests
use auxtools.Base.{ℕ, Bool, true, false, Option, none, some, List, [], ◌∷◌, if◌then◌else◌, Text}
use auxtools.Procs.{RawProc, Registry, populate_from, clear_procs}
use auxtools.Hooking.{Code}
use auxtools.Bytecode.{Bytecodes, init, shutdown}
use auxtools.ProcHooks.{HookFailure, Hooked, ok, err, hook}
use auxtools.Startup.Scanning.{
  Process, Failure, version, Found, found, failed, panicked, Funcs, find_funcs, find_variable_names,
}

-- `InitLevel`, whose `None` is `no_init`: nothing is left to do.
pub data InitLevel : Type 0 where
  full partial no_init : InitLevel

-- What the reply of `auxtools_init` says.
pub data Reply : Type 0 where
  success : Reply
  scan_failed : Failure → Reply
  hook_failed : (proc_path : Text) → HookFailure → Reply
  init_failed : Text → Reply

-- What the library is started with: the process, BYOND's procs, the hooks that are declared with a
-- path, and the functions that are declared with `init` and `shutdown`, each in the order of its
-- inventory. The detours and the creation of strings panic when they fail.
pub record Host (H U : Type 0) : Type 0 where
  pub process : Process
  pub raw_procs : List RawProc
  pub compile_time_hooks : List (Text × H)
  pub full_inits : List (U → Option Text × U)
  pub partial_inits : List (U → Option Text × U)
  pub partial_shutdowns : List (U → U)
  pub interned : List Text
  pub detours_work : Bool
  pub string_id : Text → Option ℕ

pub record Library (H U : Type 0) : Type 0 where
  -- `REQUIRED_INIT`
  pub level : InitLevel
  pub funcs : Option Funcs
  -- whether the detours of `hooks::init` are in place
  pub detoured : Bool
  pub variable_names : ℕ
  pub procs : Registry
  pub hooks : Hooked H
  -- whether an interceptor is installed
  pub intercepted : Bool
  -- `BYTECODE_ALLOCATIONS`; BYOND's table of bytecode is there at all times
  pub bytecodes : Option Bytecodes
  pub entry : ℕ → Code
  pub strings : List (Text × ℕ)
  pub user : U

-- The reply and the library after it, or a panic.
pub data Replied (H U : Type 0) : Type 0 where
  replied : Reply → Library H U → Replied H U
  panic : Replied H U

-- `run_full_init` and `run_partial_init`: the first error ends them.
unfoldable pub run_inits : {U : Type 0} → List (U → Option Text × U) → U → Option Text × U
run_inits [] u = (none, u)
run_inits (f ∷ fs) u =
    let rest = run_inits fs (f u).1 in elim (f u).0 [ none ↦ rest | some e ↦ (some e, (f u).1) ]

unfoldable pub run_partial_shutdown : {U : Type 0} → List (U → U) → U → U
run_partial_shutdown [] u = u
run_partial_shutdown (f ∷ fs) u = run_partial_shutdown fs (f u)

unfoldable pub setup_interned_strings : (Text → Option ℕ) → List Text → Option (List (Text × ℕ))
setup_interned_strings string_id [] = some []
setup_interned_strings string_id (t ∷ ts) = elim (string_id t) [
  | none ↦ none
  | some id ↦ elim (setup_interned_strings string_id ts) [
    | none ↦ none
    | some rest ↦ some ((t, id) ∷ rest)
  ]
]

-- The loop over the hooks with a path: the reply of the first that fails, and the table.
unfoldable pub hook_all :
    {H : Type 0} → Registry → List (Text × H) → Hooked H → Option Reply × Hooked H
unfolding hook
hook_all procs [] hooks = (none, hooks)
hook_all procs ((path, h) ∷ rest) hooks = elim (hook procs path h hooks) [
  | ok more ↦ hook_all procs rest more
  | err e ↦ (some (hook_failed path e), hooks)
]

module _ {H U : Type 0} (host : Host H U) where
  -- What is done after the levels: the allocator of bytecode, the strings, and the users' functions.
  unfoldable pub run_user : List (U → Option Text × U) → Library H U → Replied H U
  unfolding run_inits
  run_user fs s =
      let (e, u) = run_inits fs s.user in
      elim e [
        | none ↦ replied success (record s { user = u })
        | some message ↦ replied (init_failed message) (record s { user = u })
      ]

  unfoldable pub then_partial : Replied H U → Replied H U
  unfolding run_user
  then_partial (replied success s) = run_user host.partial_inits s
  then_partial (replied r s) = replied r s
  then_partial panic = panic

  unfoldable pub finish : (did_full : Bool) → Library H U → Replied H U
  unfolding setup_interned_strings run_user then_partial
  finish did_full s = elim (setup_interned_strings host.string_id host.interned) [
    | none ↦ panic
    | some strings ↦
        let t = record s {
          bytecodes = some (init (record { allocations = []; original = []; entry = s.entry }));
          strings = strings;
        } in
        then_partial (if did_full then run_user host.full_inits t else replied success t)
  ]

  -- The partial level.
  unfoldable pub partial_init : (did_full : Bool) → Library H U → Replied H U
  unfolding find_variable_names populate_from hook_all finish
  partial_init did_full s = elim (find_variable_names host.process) [
    | panicked ↦ panic
    | failed e ↦ replied (scan_failed e) s
    | found names ↦
        let procs = populate_from 0 host.raw_procs s.procs in
        let (failure, hooks) = hook_all procs host.compile_time_hooks s.hooks in
        let t = record s { variable_names = names; procs = procs; hooks = hooks } in
        elim failure [
          | some r ↦ replied r t
          | none ↦ finish did_full (record t { level = no_init })
        ]
  ]

  -- The full level, up to the change to the partial one.
  unfoldable pub full_init : Library H U → Replied H U
  unfolding find_funcs
  full_init s = elim host.process.version_error [
    | some e ↦ replied (scan_failed (version e)) s
    | none ↦ elim (find_funcs host.process) [
      | panicked ↦ panic
      | failed e ↦ replied (scan_failed e) s
      | found funcs ↦
          if host.detours_work
          then replied success (record s { funcs = some funcs; detoured = true; level = partial })
          else panic
    ]
  ]

  unfoldable pub then_init : Replied H U → Replied H U
  unfolding partial_init
  then_init (replied success s) = partial_init true s
  then_init (replied r s) = replied r s
  then_init panic = panic

  unfoldable pub auxtools_init : Library H U → Replied H U
  unfolding full_init then_init partial_init
  auxtools_init s = elim s.level [
    | no_init ↦ replied success s
    | partial ↦ partial_init false s
    | full ↦ then_init (full_init s)
  ]

  -- `active` are the bytecode pointers of the running procs. The bytecode manager panics when it was
  -- not initialised.
  unfoldable pub auxtools_shutdown : (active : List ℕ) → Library H U → Replied H U
  unfolding run_partial_shutdown shutdown clear_procs
  auxtools_shutdown active s = elim s.bytecodes [
    | none ↦ panic
    | some code ↦ replied success (record s {
      level = partial;
      variable_names = 0;
      procs = clear_procs s.procs;
      hooks = [];
      intercepted = false;
      bytecodes = none;
      entry = (shutdown active code).0;
      strings = [];
      user = run_partial_shutdown host.partial_shutdowns s.user;
    })
  ]
