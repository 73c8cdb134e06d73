-- ===== src/Startup/Levels.antt =====
-- auxtools/src/lib.rs: the levels of initialisation over calls of `auxtools_init` and
-- `auxtools_shutdown`.
use auxtools.Base.{
  ℕ, ◌≡◌, refl, sym, ap, ◌∙◌, subst, Bool, true, false, Option, none, some, List, [], ◌∷◌, arith,
  Text, Option-cases, if◌then◌else◌, ◌⊎◌, inl, inr,
}
use auxtools.Procs.{Registry, populate_from}
use auxtools.Bytecode.{init}
use auxtools.ProcHooks
use auxtools.ProcHooks.{HookFailure, Hooked, ok, err, hook}
use auxtools.Startup.Scanning.{Failure, Found, found, failed, panicked, find_variable_names}
use auxtools.Startup.{
  no_init, Reply, success, init_failed, hook_failed, scan_failed, Host, Library, Replied, replied,
  panic, run_user, then_partial, finish, partial_init, hook_all, setup_interned_strings,
}

-- A library in which nothing but the users' state differs.
record SameTables {H U : Type 0} (s t : Library H U) : Type 0 where
  level : s.level ≡ t.level
  procs : s.procs ≡ t.procs
  hooks : s.hooks ≡ t.hooks
  bytecodes : s.bytecodes ≡ t.bytecodes
  entry : s.entry ≡ t.entry

module _ {H U : Type 0} (host : Host H U) where
  run_user-SameTables :
      (fs : List (U → Option Text × U)) (s t : Library H U) (r : Reply)
      → run_user host fs s ≡ replied r t
      → SameTables s t
  unfolding run_user
  run_user-SameTables fs s t r h = ground arith

  run_user_reply :
      (fs : List (U → Option Text × U)) (s t : Library H U) (r : Reply)
      → run_user host fs s ≡ replied r t
      → (r ≡ success) ⊎ ((m : Text) × (r ≡ init_failed m))
  unfolding run_user
  run_user_reply fs s t r h = ground arith

  then_partial-SameTables :
      (s : Library H U) (o : Replied H U) (t : Library H U) (r : Reply)
      → ((u : Library H U) (q : Reply) → o ≡ replied q u → SameTables s u)
      → then_partial host o ≡ replied r t
      → SameTables s t
  unfolding then_partial
  then_partial-SameTables s (replied success u) t r same h =
      let a = same u success refl in
      let c = run_user-SameTables host.partial_inits u t r h in ground arith
  then_partial-SameTables s (replied (scan_failed e) u) t r same h =
      let a = same u (scan_failed e) refl in ground arith
  then_partial-SameTables s (replied (hook_failed p e) u) t r same h =
      let a = same u (hook_failed p e) refl in ground arith
  then_partial-SameTables s (replied (init_failed m) u) t r same h =
      let a = same u (init_failed m) refl in ground arith
  then_partial-SameTables s panic t r same h = ground arith

  started :
      (d : Bool) (s u : Library H U) (q : Reply)
      → (if d then run_user host host.full_inits s else replied success s) ≡ replied q u
      → SameTables s u
  started true s u q h = run_user-SameTables host.full_inits s u q h
  started false s u q h = ground arith

  -- What `finish` leaves: the tables as they are, and an allocator of bytecode that is new.
  record Finished (s t : Library H U) : Type 0 where
    level : s.level ≡ t.level
    procs : s.procs ≡ t.procs
    hooks : s.hooks ≡ t.hooks
    bytecodes :
        t.bytecodes ≡ some (init (record { allocations = []; original = []; entry = s.entry }))
    entry : s.entry ≡ t.entry

  finish-Finished :
      (d : Bool) (s t : Library H U) (r : Reply) → finish host d s ≡ replied r t → Finished s t
  unfolding finish
  finish-Finished d s t r h =
      elim (Option-cases (setup_interned_strings host.string_id host.interned)) [
        | inl e ↦ absurd (ground arith)
        | inr (strings, e) ↦
            let u = record s {
              bytecodes = some (init (record { allocations = []; original = []; entry = s.entry }));
              strings = strings;
            } in
            let same : SameTables u t =
              then_partial-SameTables u
                (if d then run_user host host.full_inits u else replied success u) t r (started d u)
                (ground arith) in
            ground arith
      ]

  -- How an initialisation of the partial level ends.
  pub data PartialEnd (s t : Library H U) : Reply → Type 0 where
    unscanned : (e : Failure) → s ≡ t → PartialEnd s t (scan_failed e)
    unhooked :
        (path : Text) (e : HookFailure)
        → s.level ≡ t.level
        → t.procs ≡ populate_from 0 host.raw_procs s.procs
        → t.hooks ≡ (hook_all t.procs host.compile_time_hooks s.hooks).1
        → PartialEnd s t (hook_failed path e)
    complete :
        {r : Reply}
        → (r ≡ success) ⊎ ((m : Text) × (r ≡ init_failed m))
        → t.level ≡ no_init
        → t.procs ≡ populate_from 0 host.raw_procs s.procs
        → t.hooks ≡ (hook_all t.procs host.compile_time_hooks s.hooks).1
        → t.bytecodes ≡ some (init (record { allocations = []; original = []; entry = s.entry }))
        → t.entry ≡ s.entry
        → PartialEnd s t r

  finish_reply :
      (d : Bool) (s t : Library H U) (r : Reply)
      → finish host d s ≡ replied r t
      → (r ≡ success) ⊎ ((m : Text) × (r ≡ init_failed m))
  unfolding finish then_partial run_user
  finish_reply d s t r h = ground arith

  hook_all_reply :
      (procs : Registry) (hs : List (Text × H)) (hooks : Hooked H) (r : Reply)
      → (hook_all procs hs hooks).0 ≡ some r
      → (path : Text) × (e : HookFailure) × (r ≡ hook_failed path e)
  unfolding hook_all
  hook_all_reply procs [] hooks r h = absurd (ground arith)
  hook_all_reply procs ((path, f) ∷ rest) hooks r h =
      go (hook procs path f hooks) refl (λ more. hook_all_reply procs rest more r)
    where
      go :
          (o : ProcHooks.Result (Hooked H))
          → hook procs path f hooks ≡ o
          → ((more : Hooked H)
              → (hook_all procs rest more).0 ≡ some r
              → (path : Text) × (e : HookFailure) × (r ≡ hook_failed path e))
          → (path : Text) × (e : HookFailure) × (r ≡ hook_failed path e)
      go (ok more) e loop = loop more (ground arith)
      go (err e) k loop = (path, e, ground arith)

  -- The library once the procs and hooks are in place.
  abbrev hooked : (names : ℕ) → Library H U → Library H U
  hooked names s =
      let procs = populate_from 0 host.raw_procs s.procs in
      record s {
        variable_names = names;
        procs = procs;
        hooks = (hook_all procs host.compile_time_hooks s.hooks).1;
      }

  hooked-PartialEnd :
      (d : Bool) (names : ℕ) (s t : Library H U) (r : Reply) (o : Option Reply)
      → (hook_all (populate_from 0 host.raw_procs s.procs) host.compile_time_hooks s.hooks).0 ≡ o
      → (elim o [
        | some q ↦ replied q (hooked names s)
        | none ↦ finish host d (record (hooked names s) { level = no_init })
      ])
        ≡ replied r t
      → PartialEnd s t r
  hooked-PartialEnd d names s t r (some q) e h =
      let (path, x, is) =
        hook_all_reply (populate_from 0 host.raw_procs s.procs) host.compile_time_hooks s.hooks q
          e in
      let a : r ≡ hook_failed path x = ground arith in
      let c : t ≡ hooked names s = ground arith in
      let p : t.procs ≡ populate_from 0 host.raw_procs s.procs =
        ap (λ (x : Library H U). x.procs) c in
      let k : t.hooks ≡ (hook_all t.procs host.compile_time_hooks s.hooks).1 =
        ap (λ (x : Library H U). x.hooks) c
        ∙ ap (λ q. (hook_all q host.compile_time_hooks s.hooks).1) (sym p) in
      subst (PartialEnd s t) (sym a)
        (unhooked path x (sym (ap (λ (x : Library H U). x.level) c)) p k)
  hooked-PartialEnd d names s t r none e h =
      let u = record (hooked names s) { level = no_init } in
      let f = finish-Finished d u t r h in
      let p : t.procs ≡ populate_from 0 host.raw_procs s.procs = sym f.procs in
      let k : t.hooks ≡ (hook_all t.procs host.compile_time_hooks s.hooks).1 =
        sym f.hooks ∙ ap (λ q. (hook_all q host.compile_time_hooks s.hooks).1) (sym p) in
      complete (finish_reply d u t r h) (sym f.level) p k f.bytecodes (sym f.entry)

  pub partial_init-PartialEnd :
      (d : Bool) (s t : Library H U) (r : Reply)
      → partial_init host d s ≡ replied r t
      → PartialEnd s t r
  unfolding partial_init
  partial_init-PartialEnd d s t r h = go (find_variable_names host.process) refl
    where
      go : (o : Found ℕ) → find_variable_names host.process ≡ o → PartialEnd s t r
      go panicked e = absurd (ground arith)
      go (failed x) e =
          let a : r ≡ scan_failed x = ground arith in
          subst (PartialEnd s t) (sym a) (unscanned x (ground arith))
      go (found names) e = hooked-PartialEnd d names s t r _ refl (ground arith)
