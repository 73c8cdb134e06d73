-- ===== src/Server/Session.antt =====
-- debug_server/src/server.rs: the server's state, and how it talks to the client.
use auxtools.Base.{
  ℕ, zero, suc, Bool, true, false, Option, List, [], ◌∷◌, ◌++◌, Text, Eq, nat_eq, ◌==◌, ◌&&◌, ◌≡◌,
  ◌↔◌, arith, if◌then◌else◌,
}
use auxtools.Debug.{CallStacks}
use auxtools.Procs.{Registry}
use auxtools.Hooking.{Hooks}
use auxtools.Bytecode.{Bytecodes}
use auxtools.Server.Variables.{References}
use auxtools.Server.Messages.{Request, Response, Message, notification, disconnected}

-- `ServerStream`. While it waits, the flag says whether the listener's thread has sent a stream.
pub data Stream : Type 0 where
  waiting : (arrived : Bool) → Stream
  connected : Stream
  closed : Stream

-- `State`: there is one while execution is paused.
pub record Paused : Type 0 where
  pub stacks : CallStacks
  pub references : References

pub record Session (W : Type 0) : Type 0 where
  -- what the channel still delivers; after that its sender is gone
  pub requests : List Request
  pub stream : Stream
  -- how many messages the connection still takes before it breaks
  pub link : ℕ
  -- the responses that the client was sent, in order
  pub sent : List Response
  pub should_catch_runtimes : Bool
  pub state : Option Paused
  pub in_eval : Bool
  pub eval_error : Option Text
  pub conditional_breakpoints : List ((ℕ × ℕ) × Text)
  pub hooks : Hooks
  pub bytecodes : Bytecodes
  pub procs : Registry
  pub stddef : Option Text
  -- BYOND's own state
  pub world : W

abbrev key_beq : ℕ × ℕ → ℕ × ℕ → Bool
key_beq (a, b) (c, d) = (a == c) && (b == d)

pub key_beq_iff : (p q : ℕ × ℕ) → (key_beq p q ≡ true) ↔ (p ≡ q)
key_beq_iff (a, b) (c, d) = (λ h. ground arith, λ h. ground arith)

instance abbrev pub key_eq : Eq (ℕ × ℕ)
key_eq = record { beq = key_beq; beq_iff = key_beq_iff }

-- A panic ends the process.
pub data Out {ℓ} (A : Type ℓ) : Type ℓ where
  ret : A → Out A
  panic : Out A

abbrev pub M : Type 0 → Type 0 → Type 0
M W A = Session W → Out (A × Session W)

-- `check_connected`
unfoldable pub check_stream : Stream → Bool × Stream
check_stream closed = (false, closed)
check_stream connected = (true, connected)
check_stream (waiting true) = (true, connected)
check_stream (waiting false) = (false, waiting false)

-- `wait_for_connection`: `recv` fails only if the listener is gone.
unfoldable pub await_stream : Stream → Stream
await_stream (waiting true) = connected
await_stream st = st

-- `disconnect`, whose own message may be lost.
unfoldable pub farewell : ℕ → List Response → List Response
farewell zero sent = sent
farewell (suc n) sent = sent ++ disconnected ∷ []

module _ {W : Type 0} where
  infixl 5 ◌>>=◌ ◌>>◌
  abbrev pub ◌>>=◌ : {A B : Type 0} → M W A → (A → M W B) → M W B
  ◌>>=◌ m f s = elim (m s) [ ret (a, t) ↦ f a t | panic ↦ panic ]

  abbrev pub ◌>>◌ : {A B : Type 0} → M W A → M W B → M W B
  ◌>>◌ m k s = elim (m s) [ ret (a, t) ↦ k t | panic ↦ panic ]

  abbrev pub pure : {A : Type 0} → A → M W A
  pure a s = ret (a, s)

  abbrev pub get : M W (Session W)
  get s = ret (s, s)

  abbrev pub modify : (Session W → Session W) → M W (Unit {0})
  modify f s = ret (tt, f s)

  -- `check_connected`
  unfoldable pub check_connected : M W Bool
  unfolding check_stream
  check_connected s =
      ret ((check_stream s.stream).0, record s { stream = (check_stream s.stream).1 })

  -- `wait_for_connection`
  unfoldable pub wait_for_connection : M W (Unit {0})
  unfolding await_stream
  wait_for_connection = modify (λ s. record s { stream = await_stream s.stream })

  unfoldable pub disconnect : Session W → Session W
  unfolding farewell
  disconnect s = elim s.stream [
    | connected ↦ record s { stream = closed; sent = farewell s.link s.sent }
    | _ ↦ record s { stream = closed }
  ]

  -- `send` on an open connection, and what `send_or_disconnect` does when it fails.
  unfoldable pub deliver : Response → Session W → ℕ → Session W
  unfolding disconnect
  deliver r s zero = disconnect s
  deliver r s (suc n) = record s { link = n; sent = s.sent ++ r ∷ [] }

  -- `send_or_disconnect`: it is `unreachable!` without a connection.
  unfoldable pub send_or_disconnect : Response → M W (Unit {0})
  unfolding deliver
  send_or_disconnect r s = elim s.stream [ connected ↦ ret (tt, deliver r s s.link) | _ ↦ panic ]

  unfoldable pub notify : Message → M W (Unit {0})
  unfolding check_connected send_or_disconnect
  notify message = do
    there ← check_connected
    if there then send_or_disconnect (notification message) else pure tt
