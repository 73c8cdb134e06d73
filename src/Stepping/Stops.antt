-- ===== src/Stepping/Stops.antt =====
-- debug_server/src/instruction_hooking.rs: an instruction, against one that first decides whether to
-- stop and for what.
use auxtools.Base.{
  ℕ, ◌+◌, ◌≡◌, refl, ap, ◌∙◌, Bool, true, false, Option, none, some, List, ◌==◌, if◌then◌else◌,
}
use auxtools.Debug.{Context}
use auxtools.Hooking.{opcode_debug_break}
use auxtools.Server.Messages.{BreakpointReason, breakpoint}
use auxtools.Server.Session.{Session, Out, ret, panic, M, ◌>>=◌, ◌>>◌, pure}
use auxtools.Server.World.{Byond}
use auxtools.Stepping.Decide.{DebuggerAction, rest, Decision, becomes, stops, decide}
use auxtools.Stepping.{Tracer, set_action, stop, act, act_on, lift, at_break, execute}

-- The next action, and why execution stops, if it does: a break is the last of the reasons.
unfoldable pub settled : Decision → (is_break : Bool) → DebuggerAction × Option BreakpointReason
settled (stops reason) is_break = (rest, some reason)
settled (becomes a) true = (rest, some breakpoint)
settled (becomes a) false = (a, none)

module _ (b : Byond) (tracer : Tracer b) (enabled : Bool) (rounds : ℕ) where
  open b use {World, sleeping, raw_procs}
  open tracer use {steps, put_put, steps_put}

  -- One stop at the most.
  unfoldable pub stop_once :
      Context → DebuggerAction × Option BreakpointReason → M World (Option (Unit {0}))
  unfolding set_action stop
  stop_once ctx (a, none) = set_action b tracer a >> pure (some tt)
  stop_once ctx (a, some reason) = set_action b tracer a >> stop b tracer enabled rounds ctx reason

  unfoldable pub execute_once : Context → List Context → M World (Option (Unit {0}))
  unfolding decide settled stop_once lift
  execute_once ctx parents s =
      let p : ℕ = ctx.bytecode + ctx.bytecode_offset in
      let is_break : Bool = s.hooks.memory p == opcode_debug_break in
      (stop_once ctx (
            settled
              (decide raw_procs (steps s.world).tags (sleeping s.world) (s.hooks.memory p) ctx
                parents (steps s.world).action)
              is_break)
          >>= (λ done. elim done [
            | none ↦ pure none
            | some _ ↦ if is_break then lift b tracer p else pure (some tt)
          ]))
        s

  -- Two changes of the action are the last one.
  set_action_twice :
      (a c : DebuggerAction) (s : Session World)
      → (set_action b tracer a >> set_action b tracer c) s ≡ set_action b tracer c s
  unfolding set_action
  set_action_twice a c s =
      let w = s.world in
      let u = record (steps w) { action = a } in
      ap (λ x. ret (tt, record s { world = x }))
        (ap (λ t. tracer.put_steps (record t { action = c }) (tracer.put_steps u w)) (steps_put u w)
          ∙ put_put (record (steps w) { action = c }) u w)

  module _ (ctx : Context) (p : ℕ) (is_break : Bool) where
    abbrev and_break : Option Bool → M World (Option (Unit {0}))
    and_break acted = elim acted [
      | none ↦ pure none
      | some did_breakpoint ↦
          if is_break then at_break b tracer enabled rounds did_breakpoint ctx p else pure (some tt)
    ]

    abbrev and_lift : Option (Unit {0}) → M World (Option (Unit {0}))
    and_lift done = elim done [
      | none ↦ pure none
      | some _ ↦ if is_break then lift b tracer p else pure (some tt)
    ]

    abbrev stopped : Option (Unit {0}) → M World (Option Bool)
    stopped done = elim done [ none ↦ pure none | some _ ↦ pure (some true) ]

    abbrev from :
        {A B : Type 0} → Out (A × Session World) → (A → M World B) → Out (B × Session World)
    from o f = elim o [ ret (a, t) ↦ f a t | panic ↦ panic ]

  after_stop :
      (ctx : Context) (p : ℕ) (k : Bool) (o : Out (Option (Unit {0}) × Session World))
      → from ctx p k (from ctx p k o (stopped ctx p k)) (and_break ctx p k)
        ≡ from ctx p k o (and_lift ctx p k)
  unfolding at_break
  after_stop ctx p true panic = refl
  after_stop ctx p false panic = refl
  after_stop ctx p k (ret (none, t)) = refl
  after_stop ctx p true (ret (some _, t)) = refl
  after_stop ctx p false (ret (some _, t)) = refl

  acted :
      (ctx : Context) (p : ℕ) (d : Decision) (k : Bool) (s : Session World)
      → (act_on b tracer enabled rounds d ctx >>= and_break ctx p k) s
        ≡ (stop_once ctx (settled d k) >>= and_lift ctx p k) s
  unfolding act_on at_break stop_once settled
  acted ctx p (stops reason) k s =
      after_stop ctx p k ((set_action b tracer rest >> stop b tracer enabled rounds ctx reason) s)
  acted ctx p (becomes a) true s =
      ap
        (λ o.
          from ctx p true (from ctx p true o (λ _. stop b tracer enabled rounds ctx breakpoint))
            (and_lift ctx p true))
        (set_action_twice a rest s)
  acted ctx p (becomes a) false s = refl

  -- The rest of `handle_instruction` stops at most once. It stops for the reason that the current
  -- action is due; else, at a break, for the breakpoint; and else not. At a break, whyever it has
  -- stopped, the instruction is put in place for once.
  pub execute-execute_once :
      (ctx : Context) (parents : List Context) (s : Session World)
      → execute b tracer enabled rounds ctx parents s ≡ execute_once ctx parents s
  unfolding execute execute_once act at_break stop_once settled set_action
  execute-execute_once ctx parents s =
      let p : ℕ = ctx.bytecode + ctx.bytecode_offset in
      acted ctx p
        (decide raw_procs (steps s.world).tags (sleeping s.world) (s.hooks.memory p) ctx parents
          (steps s.world).action)
        (s.hooks.memory p == opcode_debug_break) s
