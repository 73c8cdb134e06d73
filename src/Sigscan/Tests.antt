-- ===== src/Sigscan/Tests.antt =====
-- Searches in a module of four bytes, and the theorems there.
use auxtools.Base.{ℕ, ◌≡◌, refl, true, none, some, List, [], ◌∷◌, arith, ◌==◌, if◌then◌else◌}
use auxtools.Sigscan.{Signature, done, find_windows, LoadedModule, locate, find_linux}
use auxtools.Sigscan.Scan.{Answered}
use auxtools.Sigscan.Find.{find_windows-Answered, find_linux-Answered}

abbrev bytes : ℕ → ℕ
bytes a = if a == 105 then 7 else if a == 106 then 8 else 0

abbrev signature : Signature
signature = some 7 ∷ none ∷ []

find_windows_runs : find_windows bytes 104 4 signature ≡ done (some 105)
unfolding find_windows
find_windows_runs = refl

find_windows-Answered_example :
    Answered bytes signature 104 107 (find_windows bytes 104 4 signature)
find_windows-Answered_example =
    find_windows-Answered bytes 104 4 signature (omega arith) (omega arith)

abbrev modules : List LoadedModule
modules =
    record {
      name = b'l' ∷ b'i' ∷ b'b' ∷ [];
      addr = 100;
      headers = record { is_load = true; vaddr = 4; memsz = 3 } ∷ [];
    }
    ∷ []

locate_runs : locate (b'b' ∷ []) modules (0, 0) ≡ some (104, 3)
unfolding locate
locate_runs = refl

find_linux-Answered_example :
    Answered bytes signature 104 107 (find_linux bytes (b'b' ∷ []) modules signature)
find_linux-Answered_example =
    find_linux-Answered bytes (b'b' ∷ []) modules signature 104 3 (omega arith) locate_runs
