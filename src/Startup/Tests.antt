-- ===== src/Startup/Tests.antt =====
-- A process that holds one signature, a library with one proc and one hook, and the theorems there.
use auxtools.Base.{
  ℕ, zero, suc, ◌+◌, ◌≡◌, refl, true, false, Option, none, some, List, [], ◌∷◌, arith, Text, inr,
}
use auxtools.Sigscan.{find_linux}
use auxtools.Procs.{
  RawProc, Registry, populate_procs, populate_from, empty_registry, clear_procs, strip_path,
}
use auxtools.Hooking.{Code}
use auxtools.Bytecode.{Bytecodes, init, put, set_bytecode, shutdown}
use auxtools.Bytecode.Shutdown.{Call, run}
use auxtools.Startup.Signatures.{SignatureName, variable_names_514}
use auxtools.Startup.Scanning.{Process, found, with_scanner, find_variable_names}
use auxtools.Startup.{
  partial, no_init, success, init_failed, Host, Library, replied, auxtools_init, auxtools_shutdown,
  hook_all,
}
use auxtools.Startup.Located.{EachFound, with_scanner-EachFound}
use auxtools.Startup.Cycle.{auxtools_init_again}
use auxtools.Startup.Reload.{IsBare, auxtools_init-auxtools_shutdown}

abbrev library_name : Text
library_name = b'l' ∷ b'i' ∷ b'b' ∷ b'b' ∷ b'y' ∷ b'o' ∷ b'n' ∷ b'd' ∷ b'.' ∷ b's' ∷ b'o' ∷ []

abbrev bytes_from : List ℕ → ℕ → ℕ
bytes_from [] n = 0
bytes_from (b ∷ bs) zero = b
bytes_from (b ∷ bs) (suc n) = bytes_from bs n

abbrev image : List ℕ
image =
    0xa1 ∷ 1 ∷ 2 ∷ 0 ∷ 0 ∷ 0x8b ∷ 0x13 ∷ 0x8b ∷ 0x39 ∷ 0x8b ∷ 0x75 ∷ 5 ∷ 0x8b ∷ 0x14 ∷ 5 ∷ 0x89
    ∷ 0x7d ∷ 5 ∷ 0x8b ∷ 0x3c ∷ 5 ∷ 0x83 ∷ 0xee ∷ 0x02 ∷ []

abbrev process : Process
process = record {
  memory = bytes_from image;
  modules =
      record {
        name = library_name;
        addr = 0;
        headers = record { is_load = true; vaddr = 0; memsz = 24 } ∷ [];
      }
      ∷ [];
  build = 1560;
  version_error = none;
}

finds_names : find_variable_names process ≡ found 513
unfolding find_variable_names find_linux
finds_names = refl

abbrev path : Text
path = b'/' ∷ b'p' ∷ []

-- A user's function that counts its runs and fails.
abbrev failing : ℕ → Option Text × ℕ
failing n = (some path, n + 1)

abbrev host : Host ℕ ℕ
host = record {
  process = process;
  raw_procs = record { address = 100; raw_path = path } ∷ [];
  compile_time_hooks = (path, 7) ∷ [];
  full_inits = [];
  partial_inits = failing ∷ [];
  partial_shutdowns = [];
  interned = [];
  detours_work = true;
  string_id = λ t. none;
}

abbrev entries : ℕ → Code
entries j = record { ptr = 10 + j; count = 1 }

abbrev library : Library ℕ ℕ
library = record {
  level = partial;
  funcs = none;
  detoured = true;
  variable_names = 0;
  procs = empty_registry;
  hooks = [];
  intercepted = false;
  bytecodes = none;
  entry = entries;
  strings = [];
  user = 0;
}

library-IsBare : IsBare library
library-IsBare = record { level = λ e. ground arith; procs = refl; hooks = refl }

-- The bytecode manager before any call.
abbrev no_changes : Bytecodes
no_changes = record { allocations = []; original = []; entry = entries }

abbrev started : Library ℕ ℕ
started = record library {
  level = no_init;
  variable_names = 513;
  procs = populate_procs host.raw_procs;
  hooks = (0, 7) ∷ [];
  bytecodes = some no_changes;
  user = 1;
}

starts : auxtools_init host library ≡ replied (init_failed path) started
unfolding auxtools_init find_variable_names find_linux populate_procs populate_from hook_all
    auxtools.Procs.get_proc strip_path init
starts = refl

auxtools_init_again_example : auxtools_init host started ≡ replied success started
auxtools_init_again_example =
    auxtools_init_again host library started (init_failed path) host starts (inr (path, refl))

-- One call of the bytecode manager, a shutdown, and an initialisation.
abbrev calls : List Call
calls = record { id = 3; words = 1 ∷ 2 ∷ []; buffer = 8 } ∷ []

abbrev changed : Bytecodes
changed = record {
  allocations = (1 ∷ 2 ∷ [], 8) ∷ [];
  original = (3, record { ptr = 13; count = 1 }) ∷ [];
  entry = put entries 3 (record { ptr = 8; count = 2 });
}

calls_succeed : run calls (init no_changes) ≡ some changed
unfolding run init set_bytecode
calls_succeed = refl

abbrev used : Library ℕ ℕ
used = record started { bytecodes = some changed; entry = changed.entry }

abbrev stopped : Library ℕ ℕ
stopped = record library { entry = (shutdown [] changed).0; user = 1 }

stops : auxtools_shutdown host [] used ≡ replied success stopped
unfolding auxtools_shutdown clear_procs
stops = refl

abbrev restarted : Library ℕ ℕ
restarted = record started {
  entry = (shutdown [] changed).0;
  bytecodes = some (record { allocations = []; original = []; entry = (shutdown [] changed).0 });
  user = 2;
}

restarts : auxtools_init host stopped ≡ replied (init_failed path) restarted
unfolding auxtools_init find_variable_names find_linux populate_procs populate_from hook_all
    auxtools.Procs.get_proc strip_path init
restarts = refl

auxtools_init-auxtools_shutdown_example :
    (restarted.procs ≡ started.procs)
    × (restarted.hooks ≡ started.hooks)
    × ((j : ℕ) → restarted.entry j ≡ entries j)
auxtools_init-auxtools_shutdown_example =
    auxtools_init-auxtools_shutdown host library started used stopped restarted (init_failed path)
      (init_failed path) success [] calls changed library-IsBare starts (inr (path, refl))
      calls_succeed refl stops restarts (inr (path, refl))

abbrev found_names : List (SignatureName × ℕ)
found_names = (variable_names_514, 0) ∷ []

scans : with_scanner process (variable_names_514 ∷ []) ≡ found found_names
unfolding with_scanner find_linux
scans = refl

with_scanner-EachFound_example : EachFound process 0 24 (variable_names_514 ∷ []) found_names
unfolding find_linux
with_scanner-EachFound_example =
    with_scanner-EachFound process 0 24 (variable_names_514 ∷ []) found_names refl scans
