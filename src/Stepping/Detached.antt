-- ===== src/Stepping/Detached.antt =====
-- debug_server/src/instruction_hooking.rs: instructions while no client is connected.
use auxtools.Base.{
  ℕ, ◌+◌, ◌≡◌, refl, ap, ◌∙◌, ◌⊎◌, inl, inr, Bool, true, false, Option, none, some, List, arith,
  ◌==◌, if◌then◌else◌, Bool-cases, lookup, nat_eq, length, Option-cases,
}
use auxtools.Debug.{Context}
use auxtools.Hooking.{
  Hooks, Hooked, ok, invalid_offset, write_words, read_words, replace_deferred, lift_break,
  opcode_debug_break,
}
use auxtools.Hooking.Run.{Run, start, next, replace, lift}
use auxtools.Server.Messages.{BreakpointReason, continue}
use auxtools.Server.Session.{
  Session, Stream, waiting, connected, closed, Out, ret, panic, M, ◌>>=◌, pure, check_stream,
  check_connected,
}
use auxtools.Server.World.{Byond}
use auxtools.Server.Loop.{process, handle_breakpoint}
use auxtools.Stepping
use auxtools.Stepping.Decide.{DebuggerAction, decide}
use auxtools.Stepping.{Tracer, set_action, ask, stop, resume, execute, serve, handle_instruction}
use auxtools.Stepping.Stops.{settled, stop_once, execute_once, execute-execute_once}

-- There is no debug server, or no client is connected to it.
abbrev pub IsDetached : {W : Type 0} → Bool → Session W → Type 0
IsDetached enabled s = (enabled ≡ false) ⊎ ((check_stream s.stream).0 ≡ false)

-- What an instruction leaves as it is.
record Same {W : Type 0} (s t : Session W) : Type 0 where
  hooks : t.hooks ≡ s.hooks
  requests : t.requests ≡ s.requests
  sent : t.sent ≡ s.sent
  stays : (check_stream s.stream).0 ≡ false → (check_stream t.stream).0 ≡ false

Same-refl : {W : Type 0} {s : Session W} → Same s s
Same-refl = record { hooks = refl; requests = refl; sent = refl; stays = λ e. e }

Same-trans : {W : Type 0} {s t u : Session W} → Same s t → Same t u → Same s u
Same-trans a c = record {
  hooks = c.hooks ∙ a.hooks;
  requests = c.requests ∙ a.requests;
  sent = c.sent ∙ a.sent;
  stays = λ e. c.stays (a.stays e);
}

IsDetached-Same :
    {W : Type 0} {enabled : Bool} {s t : Session W}
    → Same s t
    → IsDetached enabled s
    → IsDetached enabled t
IsDetached-Same a (inl e) = inl e
IsDetached-Same a (inr e) = inr (a.stays e)

-- The step succeeds and changes nothing of that.
abbrev Passes : {W A : Type 0} → M W A → A → Session W → Type 0
Passes {W} m a s = (t : Session W) × (m s ≡ ret (a, t)) × Same s t

abbrev from_out : {W A B : Type 0} → (A → M W B) → Out (A × Session W) → Out (B × Session W)
from_out f o = elim o [ ret (a, t) ↦ f a t | panic ↦ panic ]

Passes-then :
    {W A B : Type 0} (m : M W A) (k : A → M W B) (a : A) (c : B) (s : Session W)
    → Passes m a s
    → ((t : Session W) → Same s t → Passes (k a) c t)
    → Passes (m >>= k) c s
Passes-then m k a c s (t, e, p) h =
    let (u, f, q) = h t p in (u, ap (from_out k) e ∙ f, Same-trans p q)

waits : (st : Stream) → (check_stream st).0 ≡ false → (check_stream (check_stream st).1).0 ≡ false
unfolding check_stream
waits (waiting true) e = absurd (ground arith)
waits (waiting false) e = refl
waits connected e = absurd (ground arith)
waits closed e = refl

none_deferred : (h : Hooks) → (replace_deferred h).deferred ≡ none
unfolding replace_deferred
none_deferred h = ground arith

lift_break_free : (s : Hooks) (p : ℕ) → s.deferred ≡ none → (t : Hooks) × (lift_break s p ≡ ok t)
unfolding lift_break
lift_break_free s p e = elim (Option-cases (lookup p s.original)) [
  | inl f ↦ (s, ground arith)
  | inr (ws, f) ↦ (
    record {
      memory = write_words s.memory p ws;
      original = s.original;
      deferred = some (read_words s.memory p (length ws), p);
    },
    ground arith,
  )
]

module _ (b : Byond) (tracer : Tracer b) (enabled : Bool) (rounds : ℕ) where
  open b use {World, contexts, sleeping, raw_procs}

  set_action-Passes : (a : DebuggerAction) (s : Session World) → Passes (set_action b tracer a) tt s
  unfolding set_action
  set_action-Passes a s =
      (_, refl, record { hooks = refl; requests = refl; sent = refl; stays = λ e. e })

  ask-Passes :
      (ctx : Context) (reason : BreakpointReason) (s : Session World)
      → IsDetached enabled s
      → Passes (ask b tracer enabled rounds ctx reason) (some continue) s
  unfolding ask handle_breakpoint check_connected
  ask-Passes ctx reason s (inl e) = rw e (s, refl, Same-refl)
  ask-Passes ctx reason s (inr e) = elim (Bool-cases enabled) [
    | inr off ↦ rw off (s, refl, Same-refl)
    | inl on ↦ (
      record s { stream = (check_stream s.stream).1 },
      ground (arith, on, e),
      record { hooks = refl; requests = refl; sent = refl; stays = waits s.stream },
    )
  ]

  stop-Passes :
      (ctx : Context) (reason : BreakpointReason) (s : Session World)
      → IsDetached enabled s
      → Passes (stop b tracer enabled rounds ctx reason) (some tt) s
  unfolding stop resume set_action
  stop-Passes ctx reason s d =
      Passes-then (ask b tracer enabled rounds ctx reason) _ (some continue) (some tt) s
        (ask-Passes ctx reason s d)
        (λ t _. (_, refl, record { hooks = refl; requests = refl; sent = refl; stays = λ e. e }))

  serve-Passes :
      (s : Session World)
      → IsDetached enabled s
      → Passes (serve b tracer enabled rounds) (some tt) s
  unfolding serve process check_connected
  serve-Passes s (inl e) = rw e (s, refl, Same-refl)
  serve-Passes s (inr e) = elim (Bool-cases enabled) [
    | inr off ↦ rw off (s, refl, Same-refl)
    | inl on ↦ (
      record s { stream = (check_stream s.stream).1 },
      ground (arith, on, e),
      record { hooks = refl; requests = refl; sent = refl; stays = waits s.stream },
    )
  ]

  stop_once-Passes :
      (ctx : Context) (d : DebuggerAction × Option BreakpointReason) (s : Session World)
      → IsDetached enabled s
      → Passes (stop_once b tracer enabled rounds ctx d) (some tt) s
  unfolding stop_once set_action
  stop_once-Passes ctx (a, none) s d =
      (_, refl, record { hooks = refl; requests = refl; sent = refl; stays = λ e. e })
  stop_once-Passes ctx (a, some reason) s d =
      Passes-then (set_action b tracer a) (λ _. stop b tracer enabled rounds ctx reason) tt
        (some tt) s (set_action-Passes a s) (λ t p. stop-Passes ctx reason t (IsDetached-Same p d))

  lift-Step :
      (p : ℕ) (s : Session World)
      → s.hooks.deferred ≡ none
      → (h : Hooks) × (Stepping.lift b tracer p s ≡ ret (some tt, record s { hooks = h }))
        × (lift_break s.hooks p ≡ ok h)
  unfolding Stepping.lift
  lift-Step p s e =
      let (h, f) = lift_break_free s.hooks p e in
      (
        h,
        ap
            (λ o. elim o [
              | ok h ↦ ret (some tt, record s { hooks = h })
              | invalid_offset ↦ panic
              | Hooked.panic ↦ panic
            ])
            f,
        f,
      )

  -- What an instruction does to the memory and the channel.
  pub record IsPassed (s t : Session World) : Type 0 where
    pub run : Run s.hooks t.hooks
    pub requests : t.requests ≡ s.requests
    pub sent : t.sent ≡ s.sent

  lifted_IsPassed :
      (p : ℕ) (k : Bool) (s t : Session World)
      → Same (record s { hooks = replace_deferred s.hooks }) t
      → (u : Session World) × ((if k then Stepping.lift b tracer p else pure (some tt)) t
          ≡ ret (some tt, u))
        × IsPassed s u
  lifted_IsPassed p false s t a =
      (t, refl, record { run = next start (replace a.hooks); requests = a.requests; sent = a.sent })
  lifted_IsPassed p true s t a =
      let (h, e, f) =
        lift-Step p t (ap (λ (x : Hooks). x.deferred) a.hooks ∙ none_deferred s.hooks) in
      (
        record t { hooks = h },
        e,
        record {
          run = next (next start (replace a.hooks)) (lift p f);
          requests = a.requests;
          sent = a.sent;
        },
      )

  -- While no client is connected, an instruction does not stop execution and does not panic,
  -- whatever the current action is: nothing is received and nothing is sent, and of the hooks only
  -- steps of a run are taken: a lifted break is put back, and a break is lifted.
  pub handle_instruction-IsPassed :
      (ctx : Context) (parents : List Context) (s : Session World)
      → IsDetached enabled s
      → (t : Session World) × (handle_instruction b tracer enabled rounds ctx parents s
          ≡ ret (some tt, t))
        × IsPassed s t
  unfolding handle_instruction execute_once
  handle_instruction-IsPassed ctx parents s d =
      let s1 : Session World = record s { hooks = replace_deferred s.hooks } in
      let (t, e, p) = serve-Passes s1 d in
      let at : ℕ = ctx.bytecode + ctx.bytecode_offset in
      let k : Bool = t.hooks.memory at == opcode_debug_break in
      let decision =
        decide raw_procs (tracer.steps t.world).tags (sleeping t.world) (t.hooks.memory at) ctx
          parents (tracer.steps t.world).action in
      let (v, f, q) = stop_once-Passes ctx (settled decision k) t (IsDetached-Same p d) in
      let (u, g, r) = lifted_IsPassed at k s v (Same-trans p q) in
      (
        u,
        ap
              (from_out (λ x. elim x [
                | none ↦ pure none
                | some _ ↦ execute b tracer enabled rounds ctx parents
              ]))
              e
            ∙ execute-execute_once b tracer enabled rounds ctx parents t
            ∙ ap
                (from_out (λ x. elim x [
                  | none ↦ pure none
                  | some _ ↦ if k then Stepping.lift b tracer at else pure (some tt)
                ]))
                f
            ∙ g,
        r,
      )
