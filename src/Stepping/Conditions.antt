-- ===== src/Stepping/Conditions.antt =====
-- debug_server/src/instruction_hooking.rs: at which instructions a step stops.
use auxtools.Base.{
  ℕ, ◌≡◌, ◌↔◌, refl, subst, inl, inr, true, false, List, [], ◌∷◌, arith, ◌==◌, ==_iff, Bool-cases,
}
use auxtools.Debug.{Context}
use auxtools.Procs.{RawProc}
use auxtools.Hooking.{opcode_dbgline}
use auxtools.Server.Messages.{BreakpointReason, step, pause}
use auxtools.Stepping.Decide.{
  becomes, DebuggerAction, rest, pausing, break_on_next, stepping_over, stepping_into, stepping_out,
  stops, is, proc_instance_is_in_stack, proc_instance_is_suspended, is_generated_proc, is_gone,
  decide, decide_over, decide_into, decide_out,
}

module _ (tags : ℕ → ℕ) (tag : ℕ) where
  -- A context of the stack belongs to the instance with the tag.
  pub data Holds : List Context → Type 0 where
    here : {c : Context} {cs : List Context} → tags c.instance_ptr ≡ tag → Holds (c ∷ cs)
    there : {c : Context} {cs : List Context} → Holds cs → Holds (c ∷ cs)

  -- One of the stacks does.
  pub data AnyHolds : List (List Context) → Type 0 where
    first : {s : List Context} {ss : List (List Context)} → Holds s → AnyHolds (s ∷ ss)
    later : {s : List Context} {ss : List (List Context)} → AnyHolds ss → AnyHolds (s ∷ ss)

  stack_Holds : (s : List Context) → proc_instance_is_in_stack tags s tag ≡ true → Holds s
  unfolding proc_instance_is_in_stack is
  stack_Holds [] e = absurd (ground arith)
  stack_Holds (c ∷ cs) e = elim (Bool-cases (tags c.instance_ptr == tag)) [
    | inl h ↦ here (ground (arith, ==_iff (tags c.instance_ptr) tag))
    | inr h ↦ there (stack_Holds cs (ground arith))
  ]

  Holds-stack : {s : List Context} → Holds s → proc_instance_is_in_stack tags s tag ≡ true
  unfolding proc_instance_is_in_stack is
  Holds-stack (here e) = ground arith
  Holds-stack (there h) = ground (arith, Holds-stack h)

  stacks_AnyHolds :
      (ss : List (List Context)) → proc_instance_is_suspended tags ss tag ≡ true → AnyHolds ss
  unfolding proc_instance_is_suspended
  stacks_AnyHolds [] e = absurd (ground arith)
  stacks_AnyHolds (s ∷ ss) e = elim (Bool-cases (proc_instance_is_in_stack tags s tag)) [
    | inl h ↦ first (stack_Holds s h)
    | inr h ↦ later (stacks_AnyHolds ss (ground arith))
  ]

  AnyHolds-stacks :
      {ss : List (List Context)} → AnyHolds ss → proc_instance_is_suspended tags ss tag ≡ true
  unfolding proc_instance_is_suspended
  AnyHolds-stacks (first h) = ground (arith, Holds-stack h)
  AnyHolds-stacks (later h) = ground (arith, AnyHolds-stacks h)

  -- Neither the running stack nor a sleeping one has a context of the instance.
  abbrev pub IsGone : List Context → List (List Context) → Type 0
  IsGone stack sleeping = ¬ AnyHolds (stack ∷ sleeping)

  pub is_gone_iff :
      (procs : List RawProc) (sleeping : List (List Context)) (opcode : ℕ) (stack : List Context)
      → (is_gone procs tags sleeping opcode stack tag ≡ true) ↔ IsGone stack sleeping
  is_gone_iff procs sleeping opcode stack = (to, from)
    where
      to : is_gone procs tags sleeping opcode stack tag ≡ true → IsGone stack sleeping
      to e (first h) = ground (arith, Holds-stack h)
      to e (later h) = ground (arith, AnyHolds-stacks h)

      from : IsGone stack sleeping → is_gone procs tags sleeping opcode stack tag ≡ true
      from h = elim (Bool-cases (proc_instance_is_in_stack tags stack tag)) [
        | inl e ↦ absurd (h (first (stack_Holds stack e)))
        | inr e ↦ elim (Bool-cases (proc_instance_is_suspended tags sleeping tag)) [
          | inl f ↦ absurd (h (later (stacks_AnyHolds sleeping f)))
          | inr f ↦ ground arith
        ]
      ]

module _ (procs : List RawProc) (tags : ℕ → ℕ) (sleeping : List (List Context)) (opcode : ℕ)
    (ctx : Context) (parents : List Context) where
  -- Why execution stops at an instruction: it was to be paused; a step has come to its line; the proc
  -- that is stepped in or over is gone, or the one that is stepped out to is reached. Generated
  -- procs are passed over, except by a step over them.
  pub data IsDue : DebuggerAction → BreakpointReason → Type 0 where
    to_pause : IsDue pausing pause
    at_line : IsDue break_on_next step
    over : {tag : ℕ} → IsGone tags tag (ctx ∷ parents) sleeping → IsDue (stepping_over tag) step
    into :
        {tag : ℕ}
        → is_generated_proc procs ctx ≡ false
        → IsGone tags tag (ctx ∷ parents) sleeping
        → IsDue (stepping_into tag) step
    out :
        {tag : ℕ}
        → is_generated_proc procs ctx ≡ false
        → tags ctx.instance_ptr ≡ tag
        → IsDue (stepping_out tag) step

  here_not_gone : (tag : ℕ) → IsGone tags tag (ctx ∷ parents) sleeping → is tags tag ctx ≡ false
  unfolding is
  here_not_gone tag h = elim (Bool-cases (tags ctx.instance_ptr == tag)) [
    | inl e ↦ absurd (h (first (here (ground (arith, ==_iff (tags ctx.instance_ptr) tag)))))
    | inr e ↦ e
  ]

  -- When a step comes to a line: at the mark of a line, in the proc that is stepped over, or in the
  -- proc that is stepped in or one that it called, which is not generated.
  pub data IsArming : DebuggerAction → Type 0 where
    over_line :
        {tag : ℕ}
        → opcode ≡ opcode_dbgline
        → tags ctx.instance_ptr ≡ tag
        → IsArming (stepping_over tag)
    into_line :
        {tag : ℕ}
        → is_generated_proc procs ctx ≡ false
        → opcode ≡ opcode_dbgline
        → Holds tags tag (ctx ∷ parents)
        → IsArming (stepping_into tag)

  decide-stops :
      (action : DebuggerAction) (reason : BreakpointReason)
      → (decide procs tags sleeping opcode ctx parents action ≡ stops reason) ↔ IsDue action reason
  unfolding decide decide_over decide_into decide_out
  decide-stops action reason = (to action, from)
    where
      gone :
          (tag : ℕ)
          → (is_gone procs tags sleeping opcode (ctx ∷ parents) tag ≡ true)
            ↔ IsGone tags tag (ctx ∷ parents) sleeping
      gone tag = is_gone_iff tags tag procs sleeping opcode (ctx ∷ parents)

      to :
          (a : DebuggerAction)
          → decide procs tags sleeping opcode ctx parents a ≡ stops reason
          → IsDue a reason
      to rest e = absurd (ground arith)
      to pausing e = subst (IsDue pausing) (ground arith) to_pause
      to break_on_next e = subst (IsDue break_on_next) (ground arith) at_line
      to (stepping_over tag) e =
          subst (IsDue (stepping_over tag)) (ground arith) (over ((gone tag).0 (ground arith)))
      to (stepping_into tag) e =
          subst (IsDue (stepping_into tag)) (ground arith)
            (into (ground arith) ((gone tag).0 (ground arith)))
      to (stepping_out tag) e =
          subst (IsDue (stepping_out tag)) (ground arith)
            (out (ground arith) (ground (arith, ==_iff (tags ctx.instance_ptr) tag)))

      from :
          {a : DebuggerAction} {r : BreakpointReason}
          → IsDue a r
          → decide procs tags sleeping opcode ctx parents a ≡ stops r
      from to_pause = refl
      from at_line = refl
      from (over h) = ground (arith, (gone _).1 h, here_not_gone _ h)
      from (into g h) = ground (arith, g, (gone _).1 h, here_not_gone _ h)
      from (out g h) = ground (arith, g, h)

  decide-IsArming :
      (action : DebuggerAction)
      → (decide procs tags sleeping opcode ctx parents action ≡ becomes break_on_next)
        ↔ IsArming action
  unfolding decide decide_over decide_into decide_out is proc_instance_is_in_stack
  decide-IsArming action = (to action, from)
    where
      to :
          (a : DebuggerAction)
          → decide procs tags sleeping opcode ctx parents a ≡ becomes break_on_next
          → IsArming a
      to rest e = absurd (ground arith)
      to pausing e = absurd (ground arith)
      to break_on_next e = absurd (ground arith)
      to (stepping_over tag) e =
          over_line (ground (arith, ==_iff opcode opcode_dbgline))
            (ground (arith, ==_iff (tags ctx.instance_ptr) tag))
      to (stepping_into tag) e =
          elim (Bool-cases (proc_instance_is_in_stack tags (ctx ∷ parents) tag)) [
            | inl held ↦
                into_line (ground arith) (ground (arith, ==_iff opcode opcode_dbgline))
                  (stack_Holds tags tag (ctx ∷ parents) held)
            | inr away ↦ absurd (ground arith)
          ]
      to (stepping_out tag) e = absurd (ground arith)

      from :
          {a : DebuggerAction}
          → IsArming a
          → decide procs tags sleeping opcode ctx parents a ≡ becomes break_on_next
      from (over_line o h) = ground (arith, o, h)
      from (into_line g o h) = ground (arith, g, o, Holds-stack _ _ h)

  -- When no step is left: there was none, or the proc that is stepped out to is gone.
  pub data IsGivenUp : DebuggerAction → Type 0 where
    no_step : IsGivenUp rest
    lost :
        {tag : ℕ}
        → is_generated_proc procs ctx ≡ false
        → IsGone tags tag (ctx ∷ parents) sleeping
        → IsGivenUp (stepping_out tag)

  decide-IsGivenUp :
      (action : DebuggerAction)
      → (decide procs tags sleeping opcode ctx parents action ≡ becomes rest) ↔ IsGivenUp action
  unfolding decide decide_over decide_into decide_out
  decide-IsGivenUp action = (to action, from)
    where
      gone :
          (tag : ℕ)
          → (is_gone procs tags sleeping opcode (ctx ∷ parents) tag ≡ true)
            ↔ IsGone tags tag (ctx ∷ parents) sleeping
      gone tag = is_gone_iff tags tag procs sleeping opcode (ctx ∷ parents)

      to :
          (a : DebuggerAction)
          → decide procs tags sleeping opcode ctx parents a ≡ becomes rest
          → IsGivenUp a
      to rest e = no_step
      to pausing e = absurd (ground arith)
      to break_on_next e = absurd (ground arith)
      to (stepping_over tag) e = absurd (ground arith)
      to (stepping_into tag) e = absurd (ground arith)
      to (stepping_out tag) e = lost (ground arith) ((gone tag).0 (ground arith))

      from :
          {a : DebuggerAction}
          → IsGivenUp a
          → decide procs tags sleeping opcode ctx parents a ≡ becomes rest
      from no_step = refl
      from (lost g h) = ground (arith, g, (gone _).1 h, here_not_gone _ h)

  -- What the current action comes to at an instruction. It stops exactly if: execution was to be
  -- paused; a step has come to its line; the proc that is stepped over is gone from every stack; the
  -- proc that is stepped into is, and the running proc is not generated; or the running proc is the
  -- one that is stepped out to, and is not generated. It is to stop at the next instruction exactly
  -- at the mark of a line in the proc that is stepped over, or, in a proc that is not generated, at
  -- the mark of a line while the proc that is stepped into is on the running stack. It comes to
  -- nothing exactly if there was no step, or the proc that is stepped out to is gone while the running
  -- proc is not generated.
  pub decide-IsDue :
      (action : DebuggerAction) (reason : BreakpointReason)
      → ((decide procs tags sleeping opcode ctx parents action ≡ stops reason)
          ↔ IsDue action reason)
        × ((decide procs tags sleeping opcode ctx parents action ≡ becomes break_on_next)
            ↔ IsArming action)
        × ((decide procs tags sleeping opcode ctx parents action ≡ becomes rest) ↔ IsGivenUp action)
  decide-IsDue action reason =
      (decide-stops action reason, decide-IsArming action, decide-IsGivenUp action)
