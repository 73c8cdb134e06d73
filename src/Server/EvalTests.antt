-- ===== src/Server/EvalTests.antt =====
-- A world in which evaluated code runs into a breakpoint and is continued while execution is paused.
use auxtools.Base.{◌≡◌, refl, none, some, [], ◌∷◌}
use auxtools.Procs.{populate_procs, strip_path, get_proc}
use auxtools.Bytecode.{set_bytecode}
use auxtools.Server.Messages.{continue, eval, ContinueKind, BreakpointReason}
use auxtools.Server.Session.{Session, connected, ret, panic}
use auxtools.Server.World.{Byond, ok}
use auxtools.Server.Eval.{text_stub, handle_eval}
use auxtools.Server.Loop.{paused_loop, handle_breakpoint}
use auxtools.Server.Tests.{empty_world, session, two_stacks}
use auxtools.Server.Variables.{no_references}

abbrev resuming_world : Byond
resuming_world = record empty_world {
  compile_expr = λ t names. ok tt;
  assemble = λ w e. (ok [], w);
  call_proc = λ p args s. elim (handle_breakpoint empty_world 3 (0, 0) BreakpointReason.pause s) [
    | ret (_, t) ↦ ret (none, t)
    | panic ↦ panic
  ];
}

abbrev paused_session : Session (Unit {0})
paused_session = record session {
  stream = connected;
  link = 9;
  state = some (record { stacks = two_stacks; references = no_references });
  procs = populate_procs (record { address = 100; raw_path = text_stub } ∷ []);
}

abbrev after_eval : Session (Unit {0})
after_eval =
    elim (handle_eval resuming_world none [] none
      (record paused_session { requests = continue ContinueKind.continue ∷ [] })) [
        | ret (_, t) ↦ t
        | panic ↦ session
      ]

evaluated :
    handle_eval resuming_world none [] none
      (record paused_session { requests = continue ContinueKind.continue ∷ [] })
    ≡ ret (tt, after_eval)
unfolding handle_eval handle_breakpoint populate_procs get_proc strip_path set_bytecode
evaluated = refl

running : after_eval.state ≡ none
unfolding handle_eval handle_breakpoint populate_procs get_proc strip_path set_bytecode
running = refl

-- The loop finds no pause state after that.
loop_panics :
    paused_loop resuming_world 3
      (record paused_session { requests = eval none [] none ∷ continue ContinueKind.continue ∷ [] })
    ≡ panic
unfolding paused_loop handle_eval handle_breakpoint populate_procs get_proc strip_path set_bytecode
loop_panics = refl
