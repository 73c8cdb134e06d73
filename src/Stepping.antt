-- ===== src/Stepping.antt =====
-- debug_server/src/instruction_hooking.rs: what is done at every instruction that BYOND executes.
-- The variables of that file and the tags of BYOND's proc instances change while code that the
-- server evaluates is run, too, so that they are kept with BYOND's own state.
pub mod Decide
pub mod Conditions
pub mod References
pub mod Stops
pub mod Detached
mod Tests
use auxtools.Base.{
  ℕ, ◌+◌, ◌%◌, ◌^◌, ◌-◌, ◌≡◌, Bool, true, false, not, ◌&&◌, ◌||◌, Option, none, some, List, [], ◌∷◌,
  ◌==◌, if◌then◌else◌, Text, get_elem?,
}
use auxtools.Debug.{Context}
use auxtools.Procs.{RawProc, from_id}
use auxtools.Sigscan.{ends_with}
use auxtools.Hooking.{
  Hooks, ok, invalid_offset, panic, opcode_dbgline, opcode_debug_break, replace_deferred,
  lift_break,
}
use auxtools.Server.Messages.{
  ContinueKind, continue, step_over, step_into, step_out, BreakpointReason, breakpoint, step, pause,
  runtime,
}
use auxtools.Server.Session.{Session, ret, panic, M, ◌>>=◌, ◌>>◌, pure, get, modify}
use auxtools.Server.World.{Byond}
use auxtools.Server.Loop.{process, handle_breakpoint}
use auxtools.Stepping.Decide.{
  DebuggerAction, rest, pausing, break_on_next, stepping_over, stepping_into, stepping_out, Steps,
  new_ref, is, proc_instance_is_in_stack, proc_instance_is_suspended, is_generated_proc,
  get_proc_ctx, Decision, becomes, stops, is_gone, decide, decide_over, decide_into, decide_out,
}

-- Where BYOND's state holds them; the stacks do not depend on them.
pub record Tracer (b : Byond) : Type 0 where
  pub steps : b.World → Steps
  pub put_steps : Steps → b.World → b.World
  pub put_put : (t u : Steps) (w : b.World) → put_steps t (put_steps u w) ≡ put_steps t w
  pub steps_put : (t : Steps) (w : b.World) → steps (put_steps t w) ≡ t
  pub contexts_put : (t : Steps) (w : b.World) → b.contexts (put_steps t w) ≡ b.contexts w
  pub sleeping_put : (t : Steps) (w : b.World) → b.sleeping (put_steps t w) ≡ b.sleeping w

module _ (b : Byond) (tracer : Tracer b) where
  open b use {World, contexts, sleeping, raw_procs}
  open tracer use {steps, put_steps}

  unfoldable pub set_action : DebuggerAction → M World (Unit {0})
  set_action a =
      modify (λ s. record s { world = put_steps (record (steps s.world) { action = a }) s.world })

  -- `ProcInstanceRef::new` for the innermost context of a stack. An empty one is a null pointer.
  unfoldable pub tag_top : List Context → M World ℕ
  unfolding new_ref
  tag_top [] s = panic
  tag_top (ctx ∷ parents) s =
      let (tag, t) = new_ref ctx.instance_ptr (steps s.world) in
      ret (tag, record s { world = put_steps t s.world })

  abbrev pub stack_of : Session World → ℕ → List Context
  stack_of s stack_id = get_proc_ctx (contexts s.world) (sleeping s.world) stack_id

  -- A step out of the outermost context is no step.
  unfoldable pub step_out_of : List Context → M World DebuggerAction
  unfolding tag_top
  step_out_of [] s = panic
  step_out_of (ctx ∷ []) s = ret (rest, s)
  step_out_of (ctx ∷ parent ∷ parents) s =
      (tag_top (parent ∷ parents) >>= (λ tag. pure (stepping_out tag))) s

  -- How execution goes on, by what the client answered.
  unfoldable pub resume : ContinueKind → M World DebuggerAction
  unfolding tag_top step_out_of get_proc_ctx
  resume continue = pure rest
  resume (step_over id) =
      get >>= (λ s. tag_top (stack_of s id) >>= (λ tag. pure (stepping_over tag)))
  resume (step_into id) =
      get >>= (λ s. tag_top (stack_of s id) >>= (λ tag. pure (stepping_into tag)))
  resume (step_out id) = get >>= (λ s. step_out_of (stack_of s id))

  -- The last block, where a break's instruction is put in place for once.
  unfoldable pub lift : ℕ → M World (Option (Unit {0}))
  unfolding lift_break
  lift p s = elim (lift_break s.hooks p) [
    | ok h ↦ ret (some tt, record s { hooks = h })
    | invalid_offset ↦ panic
    | panic ↦ panic
  ]

  -- `enabled` says whether there is a debug server (`DEBUG_SERVER`).
  module _ (enabled : Bool) (rounds : ℕ) where
    unfoldable pub ask : Context → BreakpointReason → M World (Option ContinueKind)
    ask ctx reason =
        if enabled
        then handle_breakpoint b rounds (ctx.proc, ctx.bytecode_offset) reason
        else pure (some continue)

    -- `CURRENT_ACTION = handle_breakpoint(ctx, reason)`; `none` is that the rounds ran out.
    unfoldable pub stop : Context → BreakpointReason → M World (Option (Unit {0}))
    unfolding ask resume set_action
    stop ctx reason = ask ctx reason >>= (λ answered. elim answered [
      | none ↦ pure none
      | some kind ↦ resume kind >>= (λ a. set_action a >> pure (some tt))
    ])

    unfoldable pub handle_runtime : (error : Text) → M World (Option (Unit {0}))
    unfolding stop
    handle_runtime error s =
        if enabled && s.in_eval
        then ret (some tt, record s { eval_error = some error })
        else (elim (contexts s.world) [ [] ↦ panic | ctx ∷ parents ↦ stop ctx (runtime error) s ])

    -- The match over the action, with what it answers for `did_breakpoint`.
    unfoldable pub act_on : Decision → Context → M World (Option Bool)
    unfolding set_action stop
    act_on (becomes a) ctx = set_action a >> pure (some false)
    act_on (stops reason) ctx =
        set_action rest
        >> stop ctx reason
        >>= (λ done. elim done [ none ↦ pure none | some _ ↦ pure (some true) ])

    unfoldable pub act :
        (opcode : ℕ) (ctx : Context) (parents : List Context) → M World (Option Bool)
    unfolding decide act_on
    act opcode ctx parents s =
        act_on
          (decide raw_procs (steps s.world).tags (sleeping s.world) opcode ctx parents
            (steps s.world).action)
          ctx s

    -- What is done at a break, unless execution has stopped at this instruction already.
    unfoldable pub at_break : (did_breakpoint : Bool) → Context → ℕ → M World (Option (Unit {0}))
    unfolding lift set_action stop
    at_break true ctx p = lift p
    at_break false ctx p =
        set_action rest
        >> stop ctx breakpoint
        >>= (λ done. elim done [ none ↦ pure none | some _ ↦ lift p ])

    -- What follows once the server has handled its requests.
    unfoldable pub execute : Context → List Context → M World (Option (Unit {0}))
    unfolding act at_break
    execute ctx parents s =
        let p : ℕ = ctx.bytecode + ctx.bytecode_offset in
        let opcode : ℕ = s.hooks.memory p in
        (act opcode ctx parents >>= (λ acted. elim acted [
          | none ↦ pure none
          | some did_breakpoint ↦
              if opcode == opcode_debug_break then at_break did_breakpoint ctx p else pure (some tt)
        ]))
          s

    unfoldable pub serve : M World (Option (Unit {0}))
    unfolding process set_action
    serve =
        if enabled
        then process b rounds >>= (λ pauses. elim pauses [
          | none ↦ pure none
          | some true ↦ set_action pausing >> pure (some tt)
          | some false ↦ pure (some tt)
        ])
        else pure (some tt)

    unfoldable pub handle_instruction : Context → List Context → M World (Option (Unit {0}))
    unfolding replace_deferred serve execute
    handle_instruction ctx parents =
        modify (λ s. record s { hooks = replace_deferred s.hooks })
        >> serve
        >>= (λ served. elim served [ none ↦ pure none | some _ ↦ execute ctx parents ])
