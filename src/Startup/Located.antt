-- ===== src/Startup/Located.antt =====
-- auxtools/src/lib.rs: what the searches of `auxtools_init` return, against the memory.
use auxtools.Base.{ℕ, ◌+◌, ◌<◌, ◌≡◌, refl, sym, subst, none, some, List, [], ◌∷◌, arith, length}
use auxtools.Sigscan.{Outcome, done, panic, out_of_fuel, locate}
use auxtools.Sigscan.Scan.{Answer, Answered}
use auxtools.Sigscan.Find.{find_linux-Answered}
use auxtools.Startup.Signatures.{
  SignatureName, signature_of, get_proc_array_entry, get_string_id, call_proc_by_id,
  call_proc_by_id2, get_variable, get_string_table_entry, call_datum_proc_by_name,
  dec_ref_count_513, dec_ref_count_514, inc_ref_count, get_assoc_element, set_assoc_element,
  create_list, append_to_list, remove_from_list, get_length, get_misc_by_id, runtime,
  suspended_procs, suspended_procs_buffer, to_string_514, to_string_513, set_variable_514,
  set_variable_513, current_execution_context, variable_names_514, variable_names_513,
}
use auxtools.Startup.Scanning.{
  Process, Found, found, failed, panicked, find, find_function, with_scanner, byondcore, position,
  ◌>>=◌, missing,
}

-- Each name has the one address from the start of the area to one byte past its end at which its
-- signature stands.
abbrev pub EachFound :
    (p : Process) (start len : ℕ) → List SignatureName → List (SignatureName × ℕ) → Type 0
EachFound p start len [] [] = Unit
EachFound p start len [] (q ∷ qs) = ⊥
EachFound p start len (n ∷ ns) [] = ⊥
EachFound p start len (n ∷ ns) ((m, ptr) ∷ rest) =
    (n ≡ m)
    × Answer p.memory (signature_of n) start (start + len) (some ptr)
    × EachFound p start len ns rest

length-signature_of : (n : SignatureName) → 0 < length (signature_of n)
unfolding signature_of
length-signature_of get_proc_array_entry = omega arith
length-signature_of get_string_id = omega arith
length-signature_of call_proc_by_id = omega arith
length-signature_of call_proc_by_id2 = omega arith
length-signature_of get_variable = omega arith
length-signature_of get_string_table_entry = omega arith
length-signature_of call_datum_proc_by_name = omega arith
length-signature_of dec_ref_count_513 = omega arith
length-signature_of dec_ref_count_514 = omega arith
length-signature_of inc_ref_count = omega arith
length-signature_of get_assoc_element = omega arith
length-signature_of set_assoc_element = omega arith
length-signature_of create_list = omega arith
length-signature_of append_to_list = omega arith
length-signature_of remove_from_list = omega arith
length-signature_of get_length = omega arith
length-signature_of get_misc_by_id = omega arith
length-signature_of runtime = omega arith
length-signature_of suspended_procs = omega arith
length-signature_of suspended_procs_buffer = omega arith
length-signature_of to_string_514 = omega arith
length-signature_of to_string_513 = omega arith
length-signature_of set_variable_514 = omega arith
length-signature_of set_variable_513 = omega arith
length-signature_of current_execution_context = omega arith
length-signature_of variable_names_514 = omega arith
length-signature_of variable_names_513 = omega arith

-- The search of one signature.
find-Answered :
    (p : Process) (start len : ℕ) (n : SignatureName)
    → locate byondcore p.modules (0, 0) ≡ some (start, len)
    → Answered p.memory (signature_of n) start (start + len) (find p n)
unfolding find
find-Answered p start len n at =
    find_linux-Answered p.memory byondcore p.modules (signature_of n) start len
      (length-signature_of n) at

find_function-Answer :
    (p : Process) (start len : ℕ) (n : SignatureName) (ptr : ℕ)
    → locate byondcore p.modules (0, 0) ≡ some (start, len)
    → find_function p n ≡ found ptr
    → Answer p.memory (signature_of n) start (start + len) (some ptr)
unfolding find_function position
find_function-Answer p start len n ptr at h = go (find p n) (find-Answered p start len n at) h
  where
    go :
        (o : Outcome)
        → Answered p.memory (signature_of n) start (start + len) o
        → position o found (failed (missing n)) ≡ found ptr
        → Answer p.memory (signature_of n) start (start + len) (some ptr)
    go (done (some q)) a e =
        subst (λ x. Answer p.memory (signature_of n) start (start + len) (some x)) (ground arith) a
    go (done none) a e = absurd (ground arith)
    go panic a e = absurd a
    go out_of_fuel a e = absurd a

-- The two steps of a search that succeeds.
with_scanner-step :
    (p : Process) (n : SignatureName) (ns : List SignatureName) (all : List (SignatureName × ℕ))
    → with_scanner p (n ∷ ns) ≡ found all
    → (ptr : ℕ) × (rest : List (SignatureName × ℕ)) × (find_function p n ≡ found ptr)
      × (with_scanner p ns ≡ found rest)
      × (all ≡ (n, ptr) ∷ rest)
unfolding with_scanner
with_scanner-step p n ns all h = go (find_function p n) (with_scanner p ns) refl refl (ground arith)
  where
    go :
        (a : Found ℕ) (b : Found (List (SignatureName × ℕ)))
        → find_function p n ≡ a
        → with_scanner p ns ≡ b
        → (a >>= λ ptr. b >>= λ rest. found ((n, ptr) ∷ rest)) ≡ found all
        → (ptr : ℕ) × (rest : List (SignatureName × ℕ)) × (find_function p n ≡ found ptr)
          × (with_scanner p ns ≡ found rest)
          × (all ≡ (n, ptr) ∷ rest)
    go (found ptr) (found rest) e f k = (ptr, rest, e, f, ground arith)
    go (found ptr) (failed x) e f k = absurd (ground arith)
    go (found ptr) panicked e f k = absurd (ground arith)
    go (failed x) b e f k = absurd (ground arith)
    go panicked b e f k = absurd (ground arith)

-- When the search area of BYOND's module is known, each address in a list that `with_scanner` finds is
-- the one place from the start of the area to one byte past its end at which the signature of that
-- name stands.
pub with_scanner-EachFound :
    (p : Process) (start len : ℕ) (ns : List SignatureName) (found_at : List (SignatureName × ℕ))
    → locate byondcore p.modules (0, 0) ≡ some (start, len)
    → with_scanner p ns ≡ found found_at
    → EachFound p start len ns found_at
unfolding with_scanner
with_scanner-EachFound p start len [] found_at at h =
    let e : found_at ≡ [] = ground arith in subst (EachFound p start len []) (sym e) tt
with_scanner-EachFound p start len (n ∷ ns) found_at at h =
    let (ptr, rest, e, f, same) = with_scanner-step p n ns found_at h in
    subst (EachFound p start len (n ∷ ns)) (sym same) (
      refl,
      find_function-Answer p start len n ptr at e,
      with_scanner-EachFound p start len ns rest at f,
    )
