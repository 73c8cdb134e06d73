-- ===== src/Startup/Scanning.antt =====
-- auxtools/src/lib.rs: where `auxtools_init` finds BYOND's functions, on Linux.
use auxtools.Base.{
  ℕ, ◌+◌, ◌*◌, ◌%◌, ◌^◌, Option, none, some, List, [], ◌∷◌, ◌==◌, ltb, if◌then◌else◌, Text,
}
use auxtools.Sigscan.{Outcome, done, panic, out_of_fuel, LoadedModule, find_linux}
use auxtools.Startup.Signatures.{
  SignatureName, signature_of, get_proc_array_entry, get_string_id, call_proc_by_id,
  call_proc_by_id2, get_variable, get_string_table_entry, call_datum_proc_by_name,
  dec_ref_count_513, dec_ref_count_514, inc_ref_count, get_assoc_element, set_assoc_element,
  create_list, append_to_list, remove_from_list, get_length, get_misc_by_id, runtime,
  suspended_procs, suspended_procs_buffer, to_string_514, to_string_513, set_variable_514,
  set_variable_513, current_execution_context, variable_names_514, variable_names_513,
}

-- The process that the library is loaded into: its memory by bytes, the loaded modules, and what
-- `version::init` finds (the build, or an error).
pub record Process : Type 0 where
  pub memory : ℕ → ℕ
  pub modules : List LoadedModule
  pub build : ℕ
  pub version_error : Option Text

pub data Failure : Type 0 where
  version : Text → Failure
  missing : SignatureName → Failure
  no_to_string no_set_variable no_current_execution_context no_variable_names : Failure

-- A step of the search; the process ends by a panic.
pub data Found (A : Type 0) : Type 0 where
  found : A → Found A
  failed : Failure → Found A
  panicked : Found A

infixl 5 ◌>>=◌
abbrev pub ◌>>=◌ : {A B : Type 0} → Found A → (A → Found B) → Found B
found a >>= f = f a
failed e >>= f = failed e
panicked >>= f = panicked

abbrev pub pure : {A : Type 0} → A → Found A
pure a = found a

abbrev pub byondcore : Text
byondcore = b'l' ∷ b'i' ∷ b'b' ∷ b'b' ∷ b'y' ∷ b'o' ∷ b'n' ∷ b'd' ∷ b'.' ∷ b's' ∷ b'o' ∷ []

-- `byondcore.find(..)`
unfoldable pub find : Process → SignatureName → Outcome
unfolding signature_of
find p name = find_linux p.memory byondcore p.modules (signature_of name)

-- A position that is found is passed on; the search never runs out of fuel.
unfoldable pub position : {A : Type 0} → Outcome → (ℕ → Found A) → Found A → Found A
position (done (some ptr)) f missed = f ptr
position (done none) f missed = missed
position panic f missed = panicked
position out_of_fuel f missed = panicked

unfoldable pub read_u32 : (ℕ → ℕ) → ℕ → ℕ
read_u32 memory a =
    memory a + 256 * memory (a + 1) + 65536 * memory (a + 2) + 16777216 * memory (a + 3)

-- `find_function`
unfoldable pub find_function : Process → SignatureName → Found ℕ
unfolding find position
find_function p name = position (find p name) found (failed (missing name))

-- `find_function_by_call`: the target of the call instruction that was found.
unfoldable pub call_target : (ℕ → ℕ) → ℕ → ℕ
unfolding read_u32
call_target memory ptr = (ptr + 5 + read_u32 memory (ptr + 1)) % 2 ^ 32

unfoldable pub find_function_by_call : Process → SignatureName → Found ℕ
unfolding find position call_target
find_function_by_call p name =
    position (find p name) (λ ptr. found (call_target p.memory ptr)) (failed (missing name))

-- `with_scanner` and `with_scanner_by_call`, over the names in turn.
unfoldable pub with_scanner : Process → List SignatureName → Found (List (SignatureName × ℕ))
unfolding find_function
with_scanner p [] = found []
with_scanner p (n ∷ ns) = do
  ptr ← find_function p n
  rest ← with_scanner p ns
  pure ((n, ptr) ∷ rest)

unfoldable pub with_scanner_by_call :
    Process → List SignatureName → Found (List (SignatureName × ℕ))
unfolding find_function_by_call
with_scanner_by_call p [] = found []
with_scanner_by_call p (n ∷ ns) = do
  ptr ← find_function_by_call p n
  rest ← with_scanner_by_call p ns
  pure ((n, ptr) ∷ rest)

abbrev pub direct_names : List SignatureName
direct_names =
    get_string_id ∷ get_variable ∷ get_string_table_entry ∷ call_datum_proc_by_name
    ∷ get_assoc_element ∷ set_assoc_element ∷ append_to_list ∷ remove_from_list ∷ get_length
    ∷ create_list ∷ suspended_procs ∷ suspended_procs_buffer ∷ []

abbrev pub called_names : List SignatureName
called_names =
    call_proc_by_id ∷ call_proc_by_id2 ∷ get_proc_array_entry ∷ inc_ref_count ∷ get_misc_by_id
    ∷ runtime ∷ []

-- A signature by BYOND's build.
unfoldable pub by_build : Process → (before since : SignatureName) → SignatureName
by_build p before since = if ltb p.build 1543 then before else since

-- A pointer that stays null unless the search succeeds, and is tested for null.
unfoldable pub not_null : Failure → ℕ → Found ℕ
not_null e ptr = if ptr == 0 then failed e else found ptr

unfoldable pub find_not_null : Process → SignatureName → (ℕ → ℕ) → Failure → Found ℕ
unfolding find position not_null
find_not_null p name read e = position (find p name) (λ ptr. not_null e (read ptr)) (failed e)

unfoldable pub find_variable_names : Process → Found ℕ
unfolding find_not_null read_u32
find_variable_names p =
    if ltb p.build 1543
    then find_not_null p variable_names_513 (λ ptr. read_u32 p.memory (ptr + 2)) no_variable_names
    else find_not_null p variable_names_514 (λ ptr. read_u32 p.memory (ptr + 1)) no_variable_names

-- The addresses that the full initialisation finds. `SUSPENDED_PROCS` and its buffer are read from
-- the code at two of the direct ones.
pub record Funcs : Type 0 where
  pub direct : List (SignatureName × ℕ)
  pub called : List (SignatureName × ℕ)
  pub dec_ref_count : ℕ
  pub to_string : ℕ
  pub set_variable : ℕ
  pub context : ℕ

-- The searches of the full initialisation.
unfoldable pub find_funcs : Process → Found Funcs
unfolding with_scanner with_scanner_by_call by_build find_not_null read_u32 find_function_by_call
find_funcs p = do
  direct ← with_scanner p direct_names
  called ← with_scanner_by_call p called_names
  dec_ref_count ← find_function_by_call p (by_build p dec_ref_count_513 dec_ref_count_514)
  to_string ← find_not_null p (by_build p to_string_513 to_string_514) (λ ptr. ptr) no_to_string
  set_variable ←
      find_not_null p (by_build p set_variable_513 set_variable_514) (λ ptr. ptr) no_set_variable
  context ←
      find_not_null p current_execution_context (λ ptr. read_u32 p.memory (ptr + 1))
        no_current_execution_context
  pure (record {
    direct = direct;
    called = called;
    dec_ref_count = dec_ref_count;
    to_string = to_string;
    set_variable = set_variable;
    context = context;
  })
