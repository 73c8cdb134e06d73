-- ===== src/Loading.antt =====
-- auxtools/src/version.rs, debug_server/src/stddef.rs, instruction_hooking.rs, ckey_override.rs and
-- mem_profiler.rs: what is looked up and hooked in BYOND's library when debugging starts. The loader,
-- the detours and the decoding of UTF-8 are arguments.
pub mod Guest
mod Tests
use auxtools.Base.{
  ℕ, ◌+◌, Bool, true, false, not, ◌&&◌, Option, none, some, List, [], ◌∷◌, if◌then◌else◌, Text,
}
use auxtools.RawTypes.Misc.{Version}
use auxtools.MemProfiler.{Profiler, begin}

-- The errors of the functions that are declared with `init`, and of `version::init`.
pub data Error : Type 0 where
  no_module no_version_symbol no_build_symbol no_stddef_symbol stddef_not_text : Error
  no_execute_instruction no_detour detour_not_enabled : Error

pub data Result (A : Type 0) : Type 0 where
  ok : A → Result A
  err : Error → Result A

pub data Symbol : Type 0 where
  get_byond_version get_byond_build std_def_dm : Symbol

-- `dlopen` and `dlsym`, whose null is `none`, and what a function at an address returns.
pub record Loader : Type 0 where
  pub dlopen : Option ℕ
  pub dlsym : (handle : ℕ) → Symbol → Option ℕ
  pub call : (function : ℕ) → ℕ
  pub c_str_at : (pointer : ℕ) → List ℕ

module _ (l : Loader) where
  -- `version::init`: the version, if both functions are found.
  unfoldable pub version_init : Result Version
  version_init = elim l.dlopen [
    | none ↦ err no_module
    | some handle ↦ elim (l.dlsym handle get_byond_version) [
      | none ↦ err no_version_symbol
      | some version ↦ elim (l.dlsym handle get_byond_build) [
        | none ↦ err no_build_symbol
        | some build ↦ ok (record { major = l.call version; minor = l.call build })
      ]
    ]
  ]

  -- `stddef_init`: the text that `get_stddef` gives from then on.
  unfoldable pub stddef_init : (to_str : List ℕ → Option Text) → Result Text
  stddef_init to_str = elim l.dlopen [
    | none ↦ err no_module
    | some handle ↦ elim (l.dlsym handle std_def_dm) [
      | none ↦ err no_stddef_symbol
      | some f ↦ elim (to_str (l.c_str_at (l.call f))) [
        | some text ↦ ok text
        | none ↦ err stddef_not_text
      ]
    ]
  ]

-- `RawDetour::new` and `enable`: the trampoline, if there is one, and whether it is enabled.
pub record Detour : Type 0 where
  pub trampoline : Option ℕ
  pub enabled : Bool

-- `instruction_hooking_init`, given what the scanner finds: `execute_instruction_original`.
unfoldable pub instruction_hooking_init : (found : Option ℕ) → (detour : ℕ → Detour) → Result ℕ
instruction_hooking_init none detour = err no_execute_instruction
instruction_hooking_init (some execute_instruction) detour =
    elim (detour execute_instruction).trampoline [
      | none ↦ err no_detour
      | some original ↦
          if (detour execute_instruction).enabled then ok original else err detour_not_enabled
    ]

-- The statics of the memory profiler: `DONE`, `THREAD_ID`, and whether the allocator is hooked.
pub record AllocatorHooks : Type 0 where
  pub done : Bool
  pub thread_id : ℕ
  pub hooked : Bool

-- The five functions of the allocator, `none` for null.
pub record Allocator : Type 0 where
  pub malloc : Option ℕ
  pub realloc : Option ℕ
  pub free : Option ℕ
  pub new : Option ℕ
  pub delete : Option ℕ

abbrev is_there : Option ℕ → Bool
is_there none = false
is_there (some _) = true

unfoldable pub all_there : Allocator → Bool
all_there a =
    is_there a.malloc
    && is_there a.realloc
    && is_there a.free
    && is_there a.new
    && is_there a.delete

-- `setup_hooks`, given the module's functions if it is loaded; `none` is the panic of a detour.
unfoldable pub setup_hooks :
    (thread : ℕ) (loaded : Option Allocator) (detours_work : Bool)
    → AllocatorHooks
    → Option AllocatorHooks
unfolding all_there
setup_hooks thread loaded detours_work s =
    let started = record s { done = true; thread_id = thread } in
    if s.done then some s else (elim loaded [
      | none ↦ some started
      | some allocator ↦
          if not (all_there allocator)
          then some started
          else if detours_work
          then some (record started { hooked = true })
          else none
    ])

-- `begin`
unfoldable pub begin_profiling :
    (thread : ℕ) (loaded : Option Allocator) (detours_work created : Bool)
    → AllocatorHooks × Profiler
    → Option (AllocatorHooks × Profiler)
unfolding setup_hooks begin
begin_profiling thread loaded detours_work created (s, state) =
    elim (setup_hooks thread loaded detours_work s) [
      | none ↦ none
      | some t ↦ some (t, begin created state)
    ]
