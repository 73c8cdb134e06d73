-- ===== src/Server/Ending.antt =====
-- debug_server/src/server.rs: how the loops over the channel end, and `process`.
use auxtools.Base.{
  ℕ, zero, suc, ◌<◌, ◌≤◌, ◌≡◌, refl, Bool, true, false, Option, none, some, List, [], ◌∷◌, arith,
  length, if◌then◌else◌,
}
use auxtools.Server.Messages.{Request}
use auxtools.Server.Session.{Session, connected, Out, ret, panic, M, check_connected, check_stream}
use auxtools.Server.World.{Byond}
use auxtools.Server.Loop.{recv, process_loop, process}
use auxtools.Server.Quiet.{QuietFrom}
use auxtools.Server.Quiet.Requests.{CallsAreQuiet, handle_request-IsQuiet}

-- A loop that did not run out of rounds: it panicked, or it gave a result and left a session in
-- which `P` holds.
pub data EndsWith {W A : Type 0} (P : Session W → Type 0)
    : Out (Option A × Session W) → Type 0 where
  panicked : EndsWith P panic
  gave : (a : A) (t : Session W) → P t → EndsWith P (ret (some a, t))

abbrev pub IsEmptied : {W : Type 0} → Session W → Type 0
IsEmptied s = s.requests ≡ []

abbrev pub IsRunning : {W : Type 0} → Session W → Type 0
IsRunning s = s.state ≡ none

module _ {W : Type 0} {P : Session W → Type 0} where
  pub bind_ends :
      {A B : Type 0} {o : Out (A × Session W)} {f : A → M W (Option B)} (s : Session W)
      → QuietFrom s o
      → ((a : A) (t : Session W) → length t.requests ≤ length s.requests → EndsWith P (f a t))
      → EndsWith P (elim o [ ret (a, t) ↦ f a t | panic ↦ panic ])
  bind_ends {o = panic} s h k = panicked
  bind_ends {o = ret (a, t)} s h k = k a t (h (a, t) refl)

  pub if_ends :
      {A : Type 0} (c : Bool) (m n : M W (Option A)) (s : Session W)
      → EndsWith P (m s)
      → EndsWith P (n s)
      → EndsWith P ((if c then m else n) s)
  if_ends true m n s h k = h
  if_ends false m n s h k = k

module _ (b : Byond) (calls : CallsAreQuiet b) where
  process_loop-EndsWith :
      (rounds : ℕ) (should_pause : Bool) (requests : List Request) (s : Session b.World)
      → s.requests ≡ requests
      → length requests < rounds
      → EndsWith IsEmptied (process_loop b rounds should_pause s)
  unfolding process_loop recv
  process_loop-EndsWith zero should_pause requests s e enough = absurd (omega arith)
  process_loop-EndsWith (suc rounds) should_pause [] s e enough =
      rw e (gave should_pause (record s { requests = [] }) refl)
  process_loop-EndsWith (suc rounds) true (r ∷ rest) s e enough =
      rw e
        (process_loop-EndsWith rounds true rest (record s { requests = rest }) refl (ground arith))
  process_loop-EndsWith (suc rounds) false (r ∷ rest) s e enough = rw e (
      bind_ends (record s { requests = rest })
        (handle_request-IsQuiet b calls r (record s { requests = rest }))
        (λ p t shorter. process_loop-EndsWith rounds p t.requests t refl (ground arith)))

  -- While a client is connected, `process` empties the channel: with more rounds than there are
  -- requests in it, it does not run out of rounds, and unless a handler panics it returns with no
  -- request left. No call of a proc adds requests.
  pub process-EndsWith :
      (rounds : ℕ) (s : Session b.World)
      → s.stream ≡ connected
      → length s.requests < rounds
      → EndsWith IsEmptied (process b rounds s)
  unfolding process check_connected check_stream
  process-EndsWith rounds s c enough =
      rw c (
        process_loop-EndsWith rounds false s.requests (record s { stream = connected }) refl enough)
