-- ===== src/MemProfiler/Live.antt =====
-- debug_server/src/mem_profiler.rs: what is recorded after any calls of the allocator.
use auxtools.Base.{
  ℕ, ◌≡◌, refl, ap, ◌∙◌, Bool, true, false, ◌&&◌, Option, none, some, List, [], ◌∷◌, arith, ◌==◌,
  if◌then◌else◌, nat_eq, lookup, remove, lookup-insert, lookup-remove,
}
use auxtools.MemProfiler.{
  Allocation, Live, Profiler, allocate, malloc_hook, new_hook, realloc_hook, free_hook, delete_hook,
  begin,
}

-- A call of the allocator, with the proc that runs then, if one does.
pub data Call : Type 0 where
  malloc new : (on_thread : Bool) (current : Option ℕ) (ptr size : ℕ) → Call
  realloc : (on_thread : Bool) (current : Option ℕ) (ptr new_ptr size : ℕ) → Call
  free delete : (on_thread : Bool) (ptr : ℕ) → Call

unfoldable pub record_call : Call → Profiler → Profiler
unfolding malloc_hook new_hook realloc_hook free_hook delete_hook
record_call (malloc on_thread current ptr size) s = malloc_hook on_thread current ptr size s
record_call (new on_thread current ptr size) s = new_hook on_thread current ptr size s
record_call (realloc on_thread current ptr new_ptr size) s =
    realloc_hook on_thread current ptr new_ptr size s
record_call (free on_thread ptr) s = free_hook on_thread ptr s
record_call (delete on_thread ptr) s = delete_hook on_thread ptr s

-- Calls with the latest first, since `begin`.
unfoldable pub record_calls : List Call → Profiler
unfolding record_call begin
record_calls [] = begin true none
record_calls (c ∷ cs) = record_call c (record_calls cs)

-- A proc's memory is recorded at an address by a call of the recorded thread while the proc runs.
abbrev given : Option ℕ → ℕ → Option Allocation → Option Allocation
given none size before = before
given (some p) size before = some (record { proc = p; size = size })

-- What the calls say is there, the latest first.
unfoldable pub latest : ℕ → List Call → Option Allocation
latest a [] = none
latest a (malloc on_thread current ptr size ∷ cs) =
    let before = latest a cs in if on_thread && ptr == a then given current size before else before
latest a (new on_thread current ptr size ∷ cs) =
    let before = latest a cs in if on_thread && ptr == a then given current size before else before
latest a (realloc on_thread current ptr new_ptr size ∷ cs) =
    let before = latest a cs in
    let freed : Option Allocation = if on_thread && ptr == a then none else before in
    if on_thread && new_ptr == a then given current size freed else freed
latest a (free on_thread ptr ∷ cs) =
    let before = latest a cs in if on_thread && ptr == a then none else before
latest a (delete on_thread ptr ∷ cs) =
    let before = latest a cs in if on_thread && ptr == a then none else before

lookup-allocate :
    (current : Option ℕ) (ptr size a : ℕ) (live : Live)
    → lookup a (allocate current ptr size live)
      ≡ (if ptr == a then given current size (lookup a live) else lookup a live)
unfolding allocate
lookup-allocate none ptr size a live = ground arith
lookup-allocate (some p) ptr size a live =
    lookup-insert ptr a (record { proc = p; size = size }) live

lookup_step :
    (a : ℕ) (c : Call) (cs : List Call) (live : Live)
    → lookup a live ≡ latest a cs
    → (more : Live) × (record_call c (some live) ≡ some more) × (lookup a more ≡ latest a (c ∷ cs))
unfolding record_call latest auxtools.MemProfiler.free
lookup_step a (malloc false current ptr size) cs live h = (live, refl, h)
lookup_step a (malloc true current ptr size) cs live h =
    (_, refl, ground (arith, lookup-allocate current ptr size a live, h))
lookup_step a (new false current ptr size) cs live h = (live, refl, h)
lookup_step a (new true current ptr size) cs live h =
    (_, refl, ground (arith, lookup-allocate current ptr size a live, h))
lookup_step a (realloc false current ptr new_ptr size) cs live h = (live, refl, h)
lookup_step a (realloc true current ptr new_ptr size) cs live h = (
  _,
  refl,
  ground (
    arith,
    lookup-allocate current new_ptr size a (remove ptr live),
    lookup-remove ptr a live,
    h,
  ),
)
lookup_step a (free false ptr) cs live h = (live, refl, h)
lookup_step a (free true ptr) cs live h = (_, refl, ground (arith, lookup-remove ptr a live, h))
lookup_step a (delete false ptr) cs live h = (live, refl, h)
lookup_step a (delete true ptr) cs live h = (_, refl, ground (arith, lookup-remove ptr a live, h))

-- After any calls of the allocator since the recording began, what is recorded at an address is what
-- those calls say, the latest first: calls on other threads do not count; a free or a realloc of the
-- address takes the record away; and what allocates there while a proc runs is recorded for that
-- proc, while without a running proc what was recorded stays.
pub lookup-record_calls :
    (cs : List Call) (a : ℕ)
    → (live : Live) × (record_calls cs ≡ some live) × (lookup a live ≡ latest a cs)
unfolding record_calls begin latest
lookup-record_calls [] a = ([], refl, refl)
lookup-record_calls (c ∷ cs) a =
    let (live, e, h) = lookup-record_calls cs a in
    let (more, f, g) = lookup_step a c cs live h in (more, ap (record_call c) e ∙ f, g)
