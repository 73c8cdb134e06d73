-- ===== src/MemProfiler/Tests.antt =====
-- Two procs and a few allocations, and the theorems there.
use auxtools.Base.{
  ℕ, ◌≡◌, refl, true, false, none, some, List, [], ◌∷◌, ltb, if◌then◌else◌, get_elem?, Text, nat_eq,
  lookup,
}
use auxtools.Procs.{Proc}
use auxtools.MemProfiler.{Live, total_up}
use auxtools.MemProfiler.Totals.{height}
use auxtools.MemProfiler.Live.{
  Call, malloc, free, realloc, record_calls, latest, lookup-record_calls,
}
use auxtools.MemProfiler.Report.{total_of, total_up-total_of}

abbrev calls : List Call
calls =
    free true 8
    ∷ realloc true (some 1) 16 24 5
    ∷ malloc false (some 1) 24 7
    ∷ malloc true (some 0) 16 3
    ∷ malloc true (some 1) 8 2
    ∷ []

lookup-record_calls_example :
    (live : Live) × (record_calls calls ≡ some live) × (lookup 24 live ≡ latest 24 calls)
lookup-record_calls_example = lookup-record_calls calls 24

reallocated : latest 24 calls ≡ some (record { proc = 1; size = 5 })
unfolding latest
reallocated = refl

abbrev two_live : Live
two_live = (8, record { proc = 1; size = 2 }) ∷ (24, record { proc = 1; size = 5 }) ∷ []

total_up-total_of_example :
    get_elem? (total_up two_live []) 1
    ≡ (if ltb 1 (height two_live) then some (total_of 1 two_live) else none)
total_up-total_of_example = total_up-total_of two_live 1

adds_up : get_elem? (total_up two_live []) 1 ≡ some (1, 7)
unfolding total_up
adds_up = refl

abbrev named : ℕ → ℕ → Text → Proc
named id entry path = record { id = id; entry = entry; path = path }
