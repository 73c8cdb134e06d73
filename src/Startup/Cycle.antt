-- ===== src/Startup/Cycle.antt =====
-- auxtools/src/lib.rs: calls of `auxtools_init` and `auxtools_shutdown` one after the other.
use auxtools.Base.{
  ◌≡◌, ◌≢◌, refl, ap, ◌∙◌, Bool, true, false, Option, List, arith, Text, ◌⊎◌, inl, inr,
}
use auxtools.Startup.{
  InitLevel, full, partial, no_init, Reply, success, init_failed, hook_failed, scan_failed, Host,
  Library, Replied, replied, panic, partial_init, full_init, then_init, finish, auxtools_init,
}
use auxtools.Startup.Levels.{PartialEnd, unscanned, unhooked, complete, partial_init-PartialEnd}

-- A reply after which the level says that nothing is left to do.
abbrev pub IsThrough : Reply → Type 0
IsThrough r = (r ≡ success) ⊎ ((m : Text) × (r ≡ init_failed m))

module _ {H U : Type 0} (host : Host H U) where
  partial_init_level :
      (d : Bool) (s t : Library H U) (r : Reply)
      → partial_init host d s ≡ replied r t
      → IsThrough r
      → t.level ≡ no_init
  partial_init_level d s t r h through = go (partial_init-PartialEnd host d s t r h) through
    where
      go : {q : Reply} → PartialEnd host s t q → IsThrough q → t.level ≡ no_init
      go (unscanned e same) w = ground arith
      go (unhooked path e l p k) w = ground arith
      go (complete u l p k c n) w = l

  -- What the full level leaves for the partial one.
  full_init_reply :
      (s t : Library H U) (r : Reply)
      → full_init host s ≡ replied r t
      → (¬ IsThrough r)
        ⊎ ((r ≡ success)
            × (t.level ≡ partial)
            × (t.procs ≡ s.procs)
            × (t.hooks ≡ s.hooks)
            × (t.entry ≡ s.entry))
  unfolding full_init
  full_init_reply s t r h = ground arith

  -- How an initialisation ended.
  pub data Started (s t : Library H U) (r : Reply) : Type 0 where
    idle : s.level ≡ no_init → r ≡ success → t ≡ s → Started s t r
    stopped : ¬ IsThrough r → Started s t r
    went :
        (d : Bool) (u : Library H U)
        → u.procs ≡ s.procs
        → u.hooks ≡ s.hooks
        → u.entry ≡ s.entry
        → PartialEnd host u t r
        → Started s t r

  pub auxtools_init-Started :
      (s t : Library H U) (r : Reply) → auxtools_init host s ≡ replied r t → Started s t r
  unfolding auxtools_init then_init
  auxtools_init-Started s t r h = by_level s.level refl
    where
      after :
          (o : Replied H U) → full_init host s ≡ o → then_init host o ≡ replied r t → Started s t r
      after panic e k = absurd (ground arith)
      after (replied success u) e k = elim (full_init_reply s u success e) [
        | inl not ↦ absurd (not (inl refl))
        | inr (_, l, p, q, n) ↦ went true u p q n (partial_init-PartialEnd host true u t r k)
      ]
      after (replied (scan_failed x) u) e k = stopped (λ w. ground arith)
      after (replied (hook_failed p x) u) e k = stopped (λ w. ground arith)
      after (replied (init_failed m) u) e k = elim (full_init_reply s u (init_failed m) e) [
        | inl not ↦ absurd (not (inr (m, refl)))
        | inr (i, l, p, q, n) ↦ absurd (ground arith)
      ]

      by_level : (l : InitLevel) → s.level ≡ l → Started s t r
      by_level no_init e = idle e (ground arith) (ground arith)
      by_level partial e =
          went false s refl refl refl (partial_init-PartialEnd host false s t r (ground arith))
      by_level full e = after (full_init host s) refl (ground arith)

  -- After a call of `auxtools_init` that replied with success, or with the error of a function that
  -- a user registered, the next call replies with success and does nothing, whatever it would have
  -- to do: the error is not reported again, and the functions that did not run never run.
  pub auxtools_init_again :
      (s t : Library H U) (r : Reply) (later : Host H U)
      → auxtools_init host s ≡ replied r t
      → IsThrough r
      → auxtools_init later t ≡ replied success t
  unfolding auxtools_init
  auxtools_init_again s t r later h through = go (auxtools_init-Started s t r h)
    where
      done : t.level ≡ no_init → auxtools_init later t ≡ replied success t
      done e = ground arith

      ended :
          {q : Reply} {u : Library H U} → PartialEnd host u t q → IsThrough q → t.level ≡ no_init
      ended (unscanned e same) w = ground arith
      ended (unhooked path e l p k) w = ground arith
      ended (complete w l p k c n) v = l

      go : Started s t r → auxtools_init later t ≡ replied success t
      go (idle e _ same) = done (ap (λ (x : Library H U). x.level) same ∙ e)
      go (stopped not) = absurd (not through)
      go (went d u _ _ _ end) = done (ended end through)

  -- The functions that are registered with `init(full)` run in the first initialisation alone: once
  -- the level is not the full one, `auxtools_init` does the same whichever functions they are.
  pub auxtools_init_full_inits :
      (s : Library H U) (fs : List (U → Option Text × U))
      → s.level ≢ full
      → auxtools_init (record host { full_inits = fs }) s ≡ auxtools_init host s
  unfolding auxtools_init partial_init finish
  auxtools_init_full_inits s fs not_full = by_level s.level refl
    where
      by_level :
          (l : InitLevel)
          → s.level ≡ l
          → auxtools_init (record host { full_inits = fs }) s ≡ auxtools_init host s
      by_level no_init e = rw e refl
      by_level partial e = rw e refl
      by_level full e = absurd (not_full e)
