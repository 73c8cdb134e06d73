-- ===== src/Procs/Tests.antt =====
-- Two procs of one path, run by evaluation, and the theorems there.
use auxtools.Base.{◌≡◌, refl, some, List, [], ◌∷◌, Text}
use auxtools.Procs.{
  Proc, RawProc, strip_path, populate_procs, get_proc_override, override_id, from_id,
}
use auxtools.Procs.Populate.{get_proc_override-override_id, get_proc_override_sound}

abbrev raw_hello : Text
raw_hello = b'/' ∷ b'p' ∷ b'r' ∷ b'o' ∷ b'c' ∷ b'/' ∷ b'h' ∷ b'i' ∷ []

abbrev hello : Text
hello = b'/' ∷ b'h' ∷ b'i' ∷ []

abbrev two_procs : List RawProc
two_procs =
    record { address = 100; raw_path = raw_hello }
    ∷ record { address = 200; raw_path = raw_hello }
    ∷ []

abbrev second : Proc
second = record { id = 1; entry = 200; path = hello }

lookup_runs : get_proc_override (populate_procs two_procs) raw_hello 1 ≡ some second
unfolding get_proc_override populate_procs strip_path
lookup_runs = refl

get_proc_override-override_id_example :
    get_proc_override
      (populate_procs two_procs)
      hello
      (override_id (populate_procs two_procs) second)
    ≡ some second
unfolding from_id strip_path
get_proc_override-override_id_example = get_proc_override-override_id two_procs 1 second refl refl

get_proc_override_sound_example :
    (hello ≡ strip_path raw_hello) × (override_id (populate_procs two_procs) second ≡ 1)
get_proc_override_sound_example = get_proc_override_sound two_procs raw_hello 1 second lookup_runs
