-- ===== src/MemProfiler/Totals.antt =====
-- debug_server/src/mem_profiler.rs: the totals of a report, against a sum for each proc.
use auxtools.Base.{
  ℕ, zero, suc, ◌+◌, ◌%◌, ◌^◌, ◌≤◌, ◌<◌, ◌≡◌, refl, ap, ◌∙◌, Bool, false, ◌||◌, [], ◌∷◌, arith,
  length, leb, ◌==◌, if◌then◌else◌, Bool-cases, inl, inr,
}
use auxtools.MemProfiler.{
  Allocation, Live, Totals, resize, change_at, count_in, add_total, total_up,
}

-- The entry at an index, and (0, 0) past the end.
abbrev pub entry : Totals → ℕ → ℕ × ℕ
entry [] i = (0, 0)
entry (x ∷ xs) zero = x
entry (x ∷ xs) (suc i) = entry xs i

abbrev pub max : ℕ → ℕ → ℕ
max m n = if leb m n then n else m

length-resize : (n : ℕ) (x : ℕ × ℕ) (t : Totals) → length (resize n x t) ≡ n
unfolding resize
length-resize zero x t = refl
length-resize (suc n) x [] = ground (arith, length-resize n x [])
length-resize (suc n) x (y ∷ t) = ground (arith, length-resize n x t)

entry-resize : (n i : ℕ) (t : Totals) → length t ≤ n → entry (resize n (0, 0) t) i ≡ entry t i
unfolding resize
entry-resize zero i [] h = refl
entry-resize zero i (y ∷ t) h = absurd (omega arith)
entry-resize (suc n) zero [] h = refl
entry-resize (suc n) (suc i) [] h = entry-resize n i [] (omega arith)
entry-resize (suc n) zero (y ∷ t) h = refl
entry-resize (suc n) (suc i) (y ∷ t) h = entry-resize n i t (omega arith)

length-change_at : (p : ℕ) (f : ℕ × ℕ → ℕ × ℕ) (t : Totals) → length (change_at p f t) ≡ length t
unfolding change_at
length-change_at p f [] = refl
length-change_at zero f (x ∷ t) = refl
length-change_at (suc p) f (x ∷ t) = ground (arith, length-change_at p f t)

entry-change_at :
    (p i : ℕ) (f : ℕ × ℕ → ℕ × ℕ) (t : Totals)
    → p < length t
    → entry (change_at p f t) i ≡ (if p == i then f (entry t i) else entry t i)
unfolding change_at
entry-change_at p i f [] h = absurd (omega arith)
entry-change_at zero zero f (x ∷ t) h = ground arith
entry-change_at zero (suc i) f (x ∷ t) h = ground arith
entry-change_at (suc p) zero f (x ∷ t) h = ground arith
entry-change_at (suc p) (suc i) f (x ∷ t) h = ground (arith, entry-change_at p i f t (omega arith))

-- The totals after the first step of `add_total`.
abbrev grown : Allocation → Totals → Totals
grown a t = if leb (length t) a.proc then resize (a.proc + 1) (0, 0) t else t

length-grown : (a : Allocation) (t : Totals) → length (grown a t) ≡ max (length t) (a.proc + 1)
length-grown a t = ground (arith, length-resize (a.proc + 1) (0, 0) t)

entry-grown : (a : Allocation) (i : ℕ) (t : Totals) → entry (grown a t) i ≡ entry t i
entry-grown a i t = elim (Bool-cases (leb (length t) a.proc)) [
  | inl short ↦ ground (arith, short, entry-resize (a.proc + 1) i t (ground arith))
  | inr long ↦ ground (arith, long)
]

length-add_total :
    (a : Allocation) (t : Totals) → length (add_total a t) ≡ max (length t) (a.proc + 1)
unfolding add_total
length-add_total a t = length-change_at a.proc (count_in a) (grown a t) ∙ length-grown a t

entry-add_total :
    (a : Allocation) (i : ℕ) (t : Totals)
    → entry (add_total a t) i
      ≡ (if a.proc == i then (a.proc, ((entry t i).1 + a.size) % 2 ^ 64) else entry t i)
unfolding add_total count_in
entry-add_total a i t =
    entry-change_at a.proc i (count_in a) (grown a t) (ground (arith, length-grown a t))
    ∙ ap (λ x. if a.proc == i then (a.proc, (x.1 + a.size) % 2 ^ 64) else x) (entry-grown a i t)

-- What a report is about: the bytes that a proc holds, whether it holds any allocation, and a bound
-- on the ids of the procs that do.
abbrev pub held : ℕ → Live → ℕ
held i [] = 0
held i ((ptr, a) ∷ live) = (if a.proc == i then a.size else 0) + held i live

abbrev pub holds : ℕ → Live → Bool
holds i [] = false
holds i ((ptr, a) ∷ live) = (a.proc == i) || holds i live

abbrev pub height : Live → ℕ
height [] = 0
height ((ptr, a) ∷ live) = max (a.proc + 1) (height live)

pub length-total_up :
    (live : Live) (t : Totals) → length (total_up live t) ≡ max (length t) (height live)
unfolding total_up
length-total_up [] t = ground arith
length-total_up ((ptr, a) ∷ live) t =
    ground (arith, length-total_up live (add_total a t), length-add_total a t)

add_wrapped : (x y : ℕ) → (x % 2 ^ 64 + y) % 2 ^ 64 ≡ (x + y) % 2 ^ 64
add_wrapped x y = omega arith

-- The total of a proc, up to the wrap at 2 ^ 64.
pub entry_total :
    (live : Live) (i : ℕ) (t : Totals)
    → (entry t i).1 < 2 ^ 64
    → (entry (total_up live t) i).1 ≡ ((entry t i).1 + held i live) % 2 ^ 64
unfolding total_up
entry_total [] i t h = omega arith
entry_total ((ptr, a) ∷ live) i t h =
    let e = ap (λ (x : ℕ × ℕ). x.1) (entry-add_total a i t) in
    elim (Bool-cases (a.proc == i)) [
      | inl here ↦
          let now : (entry (add_total a t) i).1 ≡ ((entry t i).1 + a.size) % 2 ^ 64 =
            ground (arith, e, here) in
          let ih = entry_total live i (add_total a t) (omega (arith, now)) in
          let m = add_wrapped ((entry t i).1 + a.size) (held i live) in
          ground (arith, ih, now, m, here)
      | inr away ↦
          let now : (entry (add_total a t) i).1 ≡ (entry t i).1 = ground (arith, e, away) in
          let ih = entry_total live i (add_total a t) (omega (arith, now)) in
          ground (arith, ih, now, away)
    ]

pub entry_proc :
    (live : Live) (i : ℕ) (t : Totals)
    → (entry (total_up live t) i).0 ≡ (if holds i live then i else (entry t i).0)
unfolding total_up
entry_proc [] i t = refl
entry_proc ((ptr, a) ∷ live) i t =
    let ih = entry_proc live i (add_total a t) in
    let e = ap (λ (x : ℕ × ℕ). x.0) (entry-add_total a i t) in ground (arith, ih, e)
