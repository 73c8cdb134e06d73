-- ===== src/Server/Pausing.antt =====
-- debug_server/src/server.rs: a Pause request in the channel of `process`, and a connection that breaks at
-- a breakpoint.
use auxtools.Base.{ℕ, suc, ◌≡◌, refl, true, false, some, List, [], ◌∷◌, ◌++◌, length}
use auxtools.Server.Messages.{Request, pause, ack, BreakpointReason}
use auxtools.Server.Session.{
  Session, connected, ret, panic, notify, disconnect, check_connected, check_stream,
  send_or_disconnect, deliver,
}
use auxtools.Server.World.{Byond}
use auxtools.Server.Handle.{handle_request}
use auxtools.Server.Loop.{recv, process_loop, process, pause_execution}

module _ (b : Byond) where
  open b use {World}

  process_loop-drains :
      (requests : List Request) (s : Session World)
      → process_loop b (suc (length requests)) true (record s { requests = requests })
        ≡ ret (some true, record s { requests = [] })
  unfolding process_loop recv
  process_loop-drains [] s = refl
  process_loop-drains (r ∷ rest) s = process_loop-drains rest s

  process_loop-pause :
      (rest : List Request) (link : ℕ) (s : Session World)
      → process_loop b
          (suc (suc (length rest)))
          false
          (record s { stream = connected; link = suc link; requests = pause ∷ rest })
        ≡ ret (
          some true,
          record s { stream = connected; link = link; sent = s.sent ++ ack ∷ []; requests = [] },
        )
  unfolding process_loop recv handle_request send_or_disconnect deliver
  process_loop-pause rest link s =
      process_loop-drains rest
        (record s { stream = connected; link = link; sent = s.sent ++ ack ∷ [] })

  -- A Pause request that is first in the channel is acknowledged, and `process` answers that
  -- execution is to pause. Every request behind it is taken out of the channel and has no effect: no
  -- response is sent for it, and nothing else of the session changes. The client is connected, and
  -- the connection takes one more message; rounds suffice for each request and two more.
  pub process-pause :
      (rest : List Request) (link : ℕ) (s : Session World)
      → process b
          (suc (suc (length rest)))
          (record s { stream = connected; link = suc link; requests = pause ∷ rest })
        ≡ ret (
          some true,
          record s { stream = connected; link = link; sent = s.sent ++ ack ∷ []; requests = [] },
        )
  unfolding process check_connected check_stream
  process-pause rest link s = process_loop-pause rest link s

  -- When the connection breaks while the pause is announced, the server panics: the message that the
  -- breakpoint was hit has no connection left.
  pub pause_execution_broken :
      (rounds : ℕ) (reason : BreakpointReason) (s : Session World)
      → pause_execution b rounds reason (record s { stream = connected; link = 0 }) ≡ panic
  unfolding pause_execution notify check_connected check_stream send_or_disconnect deliver
      disconnect
  pause_execution_broken rounds reason s = refl
