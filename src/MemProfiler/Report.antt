-- ===== src/MemProfiler/Report.antt =====
-- debug_server/src/mem_profiler.rs: the report, whatever order the map is listed in.
use mathlib.Core.List.{Permᴰ}
use mathlib.Core.List.Permᴰ.{nil, cons, swap, trans}
use auxtools.Base.{
  ℕ, zero, suc, ◌+◌, ◌%◌, ◌^◌, ◌<◌, ◌≡◌, refl, sym, ap, ◌∙◌, true, none, some, List, [], ◌∷◌, arith,
  length, get_elem?, ltb, leb, if◌then◌else◌, Bool-cases, inl, inr, list_ext, get_elem?-none,
}
use auxtools.Procs.{Proc, RawProc, from_id}
use auxtools.MemProfiler.{
  Allocation, Live, Totals, resize, change_at, count_in, add_total, total_up, sort_in,
  sort_by_total, lines, dump,
}
use auxtools.MemProfiler.Totals.{
  entry, held, holds, height, length-total_up, entry_total, entry_proc,
}

pair_ext : (x y : ℕ × ℕ) → x.0 ≡ y.0 → x.1 ≡ y.1 → x ≡ y
pair_ext (a, b) (c, d) e f = ground (arith, e, f)

get_elem?-entry : (t : Totals) (i : ℕ) → i < length t → get_elem? t i ≡ some (entry t i)
get_elem?-entry [] i h = absurd (omega arith)
get_elem?-entry (x ∷ t) zero h = refl
get_elem?-entry (x ∷ t) (suc i) h = get_elem?-entry t i (omega arith)

-- The line of a proc in the totals.
abbrev pub total_of : ℕ → Live → ℕ × ℕ
total_of i live = (if holds i live then i else 0, held i live % 2 ^ 64)

-- The loop of `dump` over the map adds up, for each proc id up to the greatest that holds memory, the
-- sizes of its allocations, modulo 2 ^ 64. An id that holds none stands there as proc 0.
pub total_up-total_of :
    (live : Live) (i : ℕ)
    → get_elem? (total_up live []) i
      ≡ (if ltb i (height live) then some (total_of i live) else none)
total_up-total_of live i =
    let n = length-total_up live [] in
    elim (Bool-cases (ltb i (height live))) [
      | inl inside ↦
          let b = get_elem?-entry (total_up live []) i (ground (arith, n, inside)) in
          let p = entry_proc live i [] in
          let t = entry_total live i [] (omega arith) in
          ground (
            arith,
            b,
            inside,
            pair_ext (entry (total_up live []) i) (total_of i live) (ground (arith, p))
                (ground (arith, t)),
          )
      | inr outside ↦
          ground (arith, outside, get_elem?-none (total_up live []) i (ground (arith, n, outside)))
    ]

module _ (i : ℕ) where
  Perm-held : {l m : Live} → Permᴰ l m → held i l ≡ held i m
  Perm-held nil = refl
  Perm-held (cons e d) = ground (arith, e, Perm-held d)
  Perm-held (swap e f) = ground (arith, e, f)
  Perm-held (trans d e) = Perm-held d ∙ Perm-held e

  Perm-holds : {l m : Live} → Permᴰ l m → holds i l ≡ holds i m
  Perm-holds nil = refl
  Perm-holds (cons e d) = ground (arith, e, Perm-holds d)
  Perm-holds (swap e f) = ground (arith, e, f)
  Perm-holds (trans d e) = Perm-holds d ∙ Perm-holds e

Perm-height : {l m : Live} → Permᴰ l m → height l ≡ height m
Perm-height nil = refl
Perm-height (cons e d) = ground (arith, e, Perm-height d)
Perm-height (swap e f) = ground (arith, e, f)
Perm-height (trans d e) = Perm-height d ∙ Perm-height e

-- The report does not depend on the order in which the map lists the allocations, which is not
-- specified.
Perm-dump : (procs : List RawProc) {l m : Live} → Permᴰ l m → dump procs l ≡ dump procs m
unfolding dump
Perm-dump procs {l} {m} d =
    let n = length-total_up l [] in
    let k = length-total_up m [] in
    let h = Perm-height d in
    ap (λ t. lines procs (sort_by_total t))
      (list_ext (total_up l []) (total_up m []) (ground (arith, n, k, h)) (λ i _.
        total_up-total_of l i
        ∙ ap (λ x. if ltb i x then some (total_of i l) else none) h
        ∙ ap (λ x. if ltb i (height m) then some x else none)
            (pair_ext (total_of i l) (total_of i m) (ground (arith, Perm-holds i d))
              (ground (arith, Perm-held i d)))
        ∙ sym (total_up-total_of m i)))

-- Lines of proc 0 that nobody asked for.
abbrev pub blanks : {A : Type 0} → ℕ → A → List A → List A
blanks zero x rest = rest
blanks (suc n) x rest = x ∷ blanks n x rest

first_change :
    (p : ℕ) (f : ℕ × ℕ → ℕ × ℕ)
    → change_at p f (resize (p + 1) (0, 0) []) ≡ blanks p (0, 0) (f (0, 0) ∷ [])
unfolding change_at resize
first_change zero f = refl
first_change (suc p) f = ground (arith, first_change p f)

add_total_first :
    (a : Allocation) → add_total a [] ≡ blanks a.proc (0, 0) ((a.proc, a.size % 2 ^ 64) ∷ [])
unfolding add_total count_in
add_total_first a =
    let e : (0 + a.size) % 2 ^ 64 ≡ a.size % 2 ^ 64 = omega arith in
    let short : leb 0 a.proc ≡ true = ground arith in
    ap (λ c. change_at a.proc (count_in a) (if c then resize (a.proc + 1) (0, 0) [] else [])) short
    ∙ first_change a.proc (count_in a)
    ∙ ap (λ n. blanks a.proc (0, 0) ((a.proc, n) ∷ [])) e

sort-blanks :
    (n p size : ℕ)
    → sort_by_total (blanks n (0, 0) ((p, size) ∷ [])) ≡ blanks n (0, 0) ((p, size) ∷ [])
unfolding sort_by_total sort_in
sort-blanks zero p size = refl
sort-blanks (suc zero) p size = ground arith
sort-blanks (suc (suc n)) p size = ground (arith, sort-blanks (suc n) p size)

lines-blanks :
    (procs : List RawProc) (n : ℕ) (z : Proc) (rest : Totals)
    → from_id procs 0 ≡ some z
    → lines procs (blanks n (0, 0) rest) ≡ blanks n (z.path, 0) (lines procs rest)
unfolding lines
lines-blanks procs zero z rest h = refl
lines-blanks procs (suc n) z rest h = ground (arith, lines-blanks procs n z rest h, h)

-- The report of one allocation has a line for the proc that holds it, after as many lines as the id
-- of that proc is: all of them say of proc 0, which holds nothing, that it holds 0 bytes.
pub dump_gap :
    (procs : List RawProc) (ptr : ℕ) (a : Allocation) (z q : Proc)
    → from_id procs 0 ≡ some z
    → from_id procs a.proc ≡ some q
    → a.size < 2 ^ 64
    → dump procs ((ptr, a) ∷ []) ≡ blanks a.proc (z.path, 0) ((q.path, a.size) ∷ [])
unfolding dump total_up lines
dump_gap procs ptr a z q zero_path path fits =
    let size : a.size % 2 ^ 64 ≡ a.size = omega arith in
    ap (λ t. lines procs (sort_by_total t)) (add_total_first a)
    ∙ ap (lines procs) (sort-blanks a.proc a.proc (a.size % 2 ^ 64))
    ∙ lines-blanks procs a.proc z ((a.proc, a.size % 2 ^ 64) ∷ []) zero_path
    ∙ ap (blanks a.proc (z.path, 0)) (ground (arith, path, size))
