-- ===== src/MemProfiler.antt =====
-- debug_server/src/mem_profiler.rs: the memory that BYOND's procs hold. The detours and the file are
-- left out: what the hooks are told by the allocator are arguments, and the report is its lines.
pub mod Live
pub mod Totals
pub mod Report
mod Tests
use auxtools.Base.{
  ℕ, zero, suc, ◌+◌, ◌%◌, ◌^◌, Bool, true, false, Option, none, some, List, [], ◌∷◌, length, leb,
  if◌then◌else◌, Text, nat_eq, insert, remove,
}
use auxtools.Procs.{Proc, RawProc, from_id}

pub record Allocation : Type 0 where
  pub proc : ℕ
  pub size : ℕ

-- `State`: `live_allocs`, by address.
abbrev pub Live : Type 0
Live = List (ℕ × Allocation)

-- `STATE`
abbrev pub Profiler : Type 0
Profiler = Option Live

-- The hooks find the proc that runs now, if one does.
unfoldable pub allocate : (current_proc_id : Option ℕ) → (ptr size : ℕ) → Live → Live
allocate none ptr size live = live
allocate (some p) ptr size live = insert ptr (record { proc = p; size = size }) live

unfoldable pub free : (ptr : ℕ) → Live → Live
free ptr live = remove ptr live

-- The allocator is called first, so that the address is what it returned. Calls on other threads
-- are not recorded.
unfoldable pub malloc_hook : (on_thread : Bool) → Option ℕ → (ptr size : ℕ) → Profiler → Profiler
unfolding allocate
malloc_hook false current ptr size state = state
malloc_hook true current ptr size none = none
malloc_hook true current ptr size (some live) = some (allocate current ptr size live)

unfoldable pub new_hook : (on_thread : Bool) → Option ℕ → (ptr size : ℕ) → Profiler → Profiler
unfolding allocate
new_hook false current ptr size state = state
new_hook true current ptr size none = none
new_hook true current ptr size (some live) = some (allocate current ptr size live)

unfoldable pub realloc_hook :
    (on_thread : Bool) → Option ℕ → (ptr new_ptr size : ℕ) → Profiler → Profiler
unfolding allocate free
realloc_hook false current ptr new_ptr size state = state
realloc_hook true current ptr new_ptr size none = none
realloc_hook true current ptr new_ptr size (some live) =
    some (allocate current new_ptr size (free ptr live))

unfoldable pub free_hook : (on_thread : Bool) → (ptr : ℕ) → Profiler → Profiler
unfolding free
free_hook false ptr state = state
free_hook true ptr none = none
free_hook true ptr (some live) = some (free ptr live)

unfoldable pub delete_hook : (on_thread : Bool) → (ptr : ℕ) → Profiler → Profiler
unfolding free
delete_hook false ptr state = state
delete_hook true ptr none = none
delete_hook true ptr (some live) = some (free ptr live)

-- The totals by proc id, each with a proc: `resize` fills gaps with proc 0.
abbrev pub Totals : Type 0
Totals = List (ℕ × ℕ)

-- `Vec::resize`
unfoldable pub resize : {A : Type 0} → ℕ → A → List A → List A
resize zero x xs = []
resize (suc n) x [] = x ∷ resize n x []
resize (suc n) x (y ∷ ys) = y ∷ resize n x ys

-- A change of one entry, which is there.
unfoldable pub change_at : {A : Type 0} → ℕ → (A → A) → List A → List A
change_at i f [] = []
change_at zero f (x ∷ xs) = f x ∷ xs
change_at (suc i) f (x ∷ xs) = x ∷ change_at i f xs

unfoldable pub count_in : Allocation → ℕ × ℕ → ℕ × ℕ
count_in a (proc, total) = (a.proc, (total + a.size) % 2 ^ 64)

-- The body of the first loop of `dump`.
unfoldable pub add_total : Allocation → Totals → Totals
unfolding resize change_at count_in
add_total a totals =
    change_at a.proc (count_in a)
      (if leb (length totals) a.proc then resize (a.proc + 1) (0, 0) totals else totals)

-- The loop, over the map in the order in which it is listed.
unfoldable pub total_up : Live → Totals → Totals
unfolding add_total
total_up [] totals = totals
total_up ((ptr, a) ∷ live) totals = total_up live (add_total a totals)

-- `sort_by`, which is stable.
unfoldable pub sort_in : ℕ × ℕ → Totals → Totals
sort_in x [] = x ∷ []
sort_in x (y ∷ ys) = if leb x.1 y.1 then x ∷ y ∷ ys else y ∷ sort_in x ys

unfoldable pub sort_by_total : Totals → Totals
unfolding sort_in
sort_by_total [] = []
sort_by_total (x ∷ xs) = sort_in x (sort_by_total xs)

-- The lines of the report; an id without a proc has none.
unfoldable pub lines : List RawProc → Totals → List (Text × ℕ)
unfolding from_id
lines procs [] = []
lines procs ((proc, total) ∷ totals) =
    let rest = lines procs totals in
    elim (from_id procs proc) [ none ↦ rest | some p ↦ (p.path, total) ∷ rest ]

unfoldable pub dump : List RawProc → Live → List (Text × ℕ)
unfolding total_up sort_by_total lines
dump procs live = lines procs (sort_by_total (total_up live []))

-- Nothing changes when the file cannot be created.
unfoldable pub begin : (created : Bool) → Profiler → Profiler
begin true state = some []
begin false state = state

-- `end`: the report, if there was a recording.
unfoldable pub end : List RawProc → Profiler → Option (List (Text × ℕ)) × Profiler
unfolding dump
end procs none = (none, none)
end procs (some live) = (some (dump procs live), none)

-- `shutdown`: a recording is dropped without a report.
unfoldable pub shutdown : Profiler → Profiler
shutdown state = none

-- `current_proc_id`, given the running context's proc instance and its proc; `none` is null.
unfoldable pub current_proc_id : (context : Option (Option ℕ)) → Option ℕ
current_proc_id none = none
current_proc_id (some none) = none
current_proc_id (some (some proc)) = some proc
