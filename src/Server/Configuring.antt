-- ===== src/Server/Configuring.antt =====
-- debug_server/src/server.rs: how `process_until_configured` ends.
use auxtools.Base.{
  ℕ, zero, suc, ◌<◌, ◌≡◌, ◌⊎◌, inl, inr, refl, Option, some, List, [], ◌∷◌, length, arith,
}
use auxtools.Server.Messages.{
  Request, disconnect, std_def, pause, eval, continue, current_instruction, catch_runtimes,
  line_number, offset, configured, ack,
}
use auxtools.Server.Session.{Session, Out, ret, panic, send_or_disconnect}
use auxtools.Server.World.{Byond}
use auxtools.Server.Handle.{handle_request}
use auxtools.Server.Loop.{recv, configure_loop}
use auxtools.Server.Quiet.Requests.{CallsAreQuiet, handle_request-IsQuiet}
use auxtools.Server.Ending.{EndsWith, panicked, gave, bind_ends}

-- The client has configured the server and this was acknowledged, or the channel is closed.
abbrev pub IsConfigured : {W : Type 0} → Session W → Type 0
IsConfigured {W} t =
    (t.requests ≡ []) ⊎ ((s : Session W) × (send_or_disconnect ack s ≡ ret (tt, t)))

acknowledged :
    {W : Type 0} (s : Session W)
    → EndsWith IsConfigured
        (elim (send_or_disconnect ack s) as (λ _. Out (Option (Unit {0}) × Session W)) [
          | ret (_, t) ↦ ret (some tt, t)
          | panic ↦ panic
        ])
acknowledged {W = W} s = by_sent (send_or_disconnect ack s) refl
  where
    by_sent :
        (o : Out (Unit {0} × Session W))
        → send_or_disconnect ack s ≡ o
        → EndsWith IsConfigured (elim o as (λ _. Out (Option (Unit {0}) × Session W)) [
          | ret (_, t) ↦ ret (some tt, t)
          | panic ↦ panic
        ])
    by_sent panic e = panicked
    by_sent (ret (tt, t)) e = gave tt t (inr (s, e))

module _ (b : Byond) (calls : CallsAreQuiet b) where
  handled_configure :
      (rounds : ℕ) (r : Request) (rest : List Request) (s : Session b.World)
      → length (r ∷ rest) < suc rounds
      → ((requests : List Request) (t : Session b.World)
          → t.requests ≡ requests
          → length requests < rounds
          → EndsWith IsConfigured (configure_loop b rounds t))
      → EndsWith IsConfigured (elim (handle_request b r (record s { requests = rest })) [
        | ret (_, t) ↦ configure_loop b rounds t
        | panic ↦ panic
      ])
  handled_configure rounds r rest s enough loop =
      bind_ends (record s { requests = rest })
        (handle_request-IsQuiet b calls r (record s { requests = rest }))
        (λ _ t shorter. loop t.requests t refl (ground arith))

  pub configure_loop-EndsWith :
      (rounds : ℕ) (requests : List Request) (s : Session b.World)
      → s.requests ≡ requests
      → length requests < rounds
      → EndsWith IsConfigured (configure_loop b rounds s)
  unfolding configure_loop recv
  configure_loop-EndsWith zero requests s e enough = absurd (omega arith)
  configure_loop-EndsWith (suc rounds) [] s e enough =
      rw e (gave tt (record s { requests = [] }) (inl refl))
  configure_loop-EndsWith (suc rounds) (configured ∷ rest) s e enough =
      rw e (acknowledged (record s { requests = rest }))
  configure_loop-EndsWith (suc rounds) (disconnect ∷ rest) s e enough =
      rw e (handled_configure rounds disconnect rest s enough (configure_loop-EndsWith rounds))
  configure_loop-EndsWith (suc rounds) (std_def ∷ rest) s e enough =
      rw e (handled_configure rounds std_def rest s enough (configure_loop-EndsWith rounds))
  configure_loop-EndsWith (suc rounds) (Request.stacks ∷ rest) s e enough =
      rw e (handled_configure rounds Request.stacks rest s enough (configure_loop-EndsWith rounds))
  configure_loop-EndsWith (suc rounds) (pause ∷ rest) s e enough =
      rw e (handled_configure rounds pause rest s enough (configure_loop-EndsWith rounds))
  configure_loop-EndsWith (suc rounds) (eval i c context ∷ rest) s e enough =
      rw e
        (handled_configure rounds (eval i c context) rest s enough (configure_loop-EndsWith rounds))
  configure_loop-EndsWith (suc rounds) (continue kind ∷ rest) s e enough =
      rw e (handled_configure rounds (continue kind) rest s enough (configure_loop-EndsWith rounds))
  configure_loop-EndsWith (suc rounds) (current_instruction i ∷ rest) s e enough = rw e (
      handled_configure rounds (current_instruction i) rest s enough
        (configure_loop-EndsWith rounds))
  configure_loop-EndsWith (suc rounds) (Request.breakpoint_set i c ∷ rest) s e enough = rw e (
      handled_configure rounds (Request.breakpoint_set i c) rest s enough
        (configure_loop-EndsWith rounds))
  configure_loop-EndsWith (suc rounds) (Request.breakpoint_unset i ∷ rest) s e enough = rw e (
      handled_configure rounds (Request.breakpoint_unset i) rest s enough
        (configure_loop-EndsWith rounds))
  configure_loop-EndsWith (suc rounds) (catch_runtimes on ∷ rest) s e enough =
      rw e (
        handled_configure rounds (catch_runtimes on) rest s enough (configure_loop-EndsWith rounds))
  configure_loop-EndsWith (suc rounds) (line_number p o ∷ rest) s e enough =
      rw e
        (handled_configure rounds (line_number p o) rest s enough (configure_loop-EndsWith rounds))
  configure_loop-EndsWith (suc rounds) (offset p l ∷ rest) s e enough =
      rw e (handled_configure rounds (offset p l) rest s enough (configure_loop-EndsWith rounds))
  configure_loop-EndsWith (suc rounds) (Request.stack_frames i f c ∷ rest) s e enough = rw e (
      handled_configure rounds (Request.stack_frames i f c) rest s enough
        (configure_loop-EndsWith rounds))
  configure_loop-EndsWith (suc rounds) (Request.scopes i ∷ rest) s e enough =
      rw e
        (handled_configure rounds (Request.scopes i) rest s enough (configure_loop-EndsWith rounds))
  configure_loop-EndsWith (suc rounds) (Request.variables v ∷ rest) s e enough = rw e (
      handled_configure rounds (Request.variables v) rest s enough (configure_loop-EndsWith rounds))
