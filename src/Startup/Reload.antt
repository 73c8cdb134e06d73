-- ===== src/Startup/Reload.antt =====
-- auxtools/src/lib.rs: a library that is shut down and initialised again.
use auxtools.Base.{ℕ, ◌≡◌, ◌≢◌, sym, ap, ◌∙◌, some, List, [], arith}
use auxtools.Procs.{populate_procs, populate_from, clear_procs, empty_registry}
use auxtools.Hooking.{Code}
use auxtools.Bytecode.{Bytecodes, init, shutdown}
use auxtools.Bytecode.Shutdown.{Call, run, shutdown-restores}
use auxtools.Startup.{
  no_init, Reply, Host, Library, replied, auxtools_init, auxtools_shutdown, hook_all,
}
use auxtools.Startup.Levels.{PartialEnd, unscanned, unhooked, complete}
use auxtools.Startup.Cycle.{IsThrough, Started, idle, stopped, went, auxtools_init-Started}

-- A library that has no procs and no hooks, and is not through with its initialisation.
pub record IsBare {H U : Type 0} (s : Library H U) : Type 0 where
  pub level : s.level ≢ no_init
  pub procs : s.procs ≡ empty_registry
  pub hooks : s.hooks ≡ []

module _ {H U : Type 0} (host : Host H U) where
  -- The tables that an initialisation makes.
  record IsLoaded (t : Library H U) (table : ℕ → Code) : Type 0 where
    procs : t.procs ≡ populate_procs host.raw_procs
    hooks : t.hooks ≡ (hook_all t.procs host.compile_time_hooks []).1
    entry : t.entry ≡ table

  auxtools_init-IsLoaded :
      (s t : Library H U) (r : Reply)
      → IsBare s
      → auxtools_init host s ≡ replied r t
      → IsThrough r
      → IsLoaded t s.entry
  unfolding populate_procs
  auxtools_init-IsLoaded s t r bare h through = go (auxtools_init-Started host s t r h)
    where
      ended :
          (u : Library H U) {q : Reply}
          → u.procs ≡ s.procs
          → u.hooks ≡ s.hooks
          → u.entry ≡ s.entry
          → PartialEnd host u t q
          → IsThrough q
          → IsLoaded t s.entry
      ended u p k n (unscanned e same) w = absurd (ground arith)
      ended u p k n (unhooked path e l a c) w = absurd (ground arith)
      ended u p k n (complete w l a c d m) v = record {
        procs = a ∙ ap (populate_from 0 host.raw_procs) (p ∙ bare.procs);
        hooks = c ∙ ap (λ q. (hook_all t.procs host.compile_time_hooks q).1) (k ∙ bare.hooks);
        entry = m ∙ n;
      }

      go : Started host s t r → IsLoaded t s.entry
      go (idle e _ same) = absurd (bare.level e)
      go (stopped not) = absurd (not through)
      go (went d u p k n end) = ended u p k n end through

  auxtools_shutdown-IsBare :
      (active : List ℕ) (s t : Library H U) (r : Reply)
      → auxtools_shutdown host active s ≡ replied r t
      → IsBare t
  unfolding auxtools_shutdown clear_procs
  auxtools_shutdown-IsBare active s t r h = record {
    level = λ e. ground arith;
    procs = ground arith;
    hooks = ground arith;
  }

  shutdown_entry :
      (active : List ℕ) (s t : Library H U) (r : Reply) (code : Bytecodes)
      → s.bytecodes ≡ some code
      → auxtools_shutdown host active s ≡ replied r t
      → t.entry ≡ (shutdown active code).0
  unfolding auxtools_shutdown
  shutdown_entry active s t r code c h = ground arith

  -- A library that is shut down and initialised again is as it was after its first initialisation:
  -- it has the same procs and the same hooks, and BYOND's procs have the bytecode that they had
  -- before. In between, the users of the library may have replaced bytecode in any way, and have
  -- changed anything else; before the first initialisation there were no procs and no hooks.
  pub auxtools_init-auxtools_shutdown :
      (s t t2 u v : Library H U) (r r2 : Reply) (q : Reply) (active : List ℕ) (cs : List Call)
      (code : Bytecodes)
      → IsBare s
      → auxtools_init host s ≡ replied r t
      → IsThrough r
      → run cs (init (record { allocations = []; original = []; entry = s.entry })) ≡ some code
      → t2.bytecodes ≡ some code
      → auxtools_shutdown host active t2 ≡ replied q u
      → auxtools_init host u ≡ replied r2 v
      → IsThrough r2
      → (v.procs ≡ t.procs) × (v.hooks ≡ t.hooks) × ((j : ℕ) → v.entry j ≡ s.entry j)
  auxtools_init-auxtools_shutdown s t t2 u v r r2 q active cs code bare h w runs c down h2 w2 =
      let a = auxtools_init-IsLoaded s t r bare h w in
      let e = auxtools_init-IsLoaded u v r2 (auxtools_shutdown-IsBare active t2 u q down) h2 w2 in
      let p : v.procs ≡ t.procs = e.procs ∙ sym a.procs in
      let start : Bytecodes = record { allocations = []; original = []; entry = s.entry } in
      (
        p,
        e.hooks ∙ ap (λ x. (hook_all x host.compile_time_hooks []).1) p ∙ sym a.hooks,
        λ j.
            ap (λ (f : ℕ → Code). f j) (e.entry ∙ shutdown_entry active t2 u q code c down)
            ∙ shutdown-restores active cs start code runs j,
      )
