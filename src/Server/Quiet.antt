-- ===== src/Server/Quiet.antt =====
-- debug_server/src/server.rs: what handlers do to the channel. Here are the steps that handlers are made
-- of; Members, Handlers and Requests put them together.
pub mod Members
pub mod Handlers
pub mod Requests
use auxtools.Base.{
  ℕ, ◌≤◌, ◌≡◌, refl, Bool, true, false, Option, none, some, arith, length, if◌then◌else◌,
}
use auxtools.Server.Messages.{Response, Message, RuntimeError}
use auxtools.Server.Session.{
  Session, Out, ret, panic, M, check_connected, disconnect, deliver, send_or_disconnect, notify,
}
use auxtools.Server.Inspect.{Res, good, bad}

-- The result of a run from `s` whose channel is no longer than that of `s`.
abbrev pub QuietFrom : {W A : Type 0} → Session W → Out (A × Session W) → Type 0
QuietFrom {W} {A} s o = (x : A × Session W) → o ≡ ret x → length x.1.requests ≤ length s.requests

abbrev pub IsQuiet : {W A : Type 0} → M W A → Type 0
IsQuiet {W} m = (s : Session W) → QuietFrom s (m s)

module _ {W : Type 0} where
  pub bind_quiet :
      {A B : Type 0} {o : Out (A × Session W)} {f : A → M W B} (s : Session W)
      → QuietFrom s o
      → ((a : A) → IsQuiet (f a))
      → QuietFrom s (elim o [ ret (a, t) ↦ f a t | panic ↦ panic ])
  bind_quiet {o = panic} s h k x e = ground arith
  bind_quiet {o = ret (a, t)} s h k x e =
      let p : length t.requests ≤ length s.requests = h (a, t) refl in
      let q : length x.1.requests ≤ length t.requests = k a t x e in omega arith

  pub ret_quiet :
      {A : Type 0} {a : A} {t : Session W} (s : Session W)
      → length t.requests ≤ length s.requests
      → QuietFrom s (ret (a, t))
  ret_quiet s h x e = ground arith

  pub same_quiet :
      {A : Type 0} {a : A} {t : Session W} (s : Session W)
      → length t.requests ≡ length s.requests
      → QuietFrom s (ret (a, t))
  same_quiet s h x e = ground arith

  pub panic_quiet : {A : Type 0} (s : Session W) → QuietFrom {A = A} s panic
  panic_quiet s x e = ground arith

  pub option_quiet :
      {A X : Type 0} {n : Out (A × Session W)} {f : X → Out (A × Session W)} (o : Option X)
      (s : Session W)
      → QuietFrom s n
      → ((a : X) → QuietFrom s (f a))
      → QuietFrom s (elim o [ none ↦ n | some a ↦ f a ])
  option_quiet none s h k = h
  option_quiet (some a) s h k = k a

  pub res_quiet :
      {A X : Type 0} {n : RuntimeError → Out (A × Session W)} {f : X → Out (A × Session W)}
      (o : Res X) (s : Session W)
      → ((a : X) → QuietFrom s (f a))
      → ((e : RuntimeError) → QuietFrom s (n e))
      → QuietFrom s (elim o [ good a ↦ f a | bad e ↦ n e ])
  res_quiet (good a) s h k = h a
  res_quiet (bad e) s h k = k e

  pub if_quiet :
      {A : Type 0} {y n : Out (A × Session W)} (c : Bool) (s : Session W)
      → QuietFrom s y
      → QuietFrom s n
      → QuietFrom s (if c then y else n)
  if_quiet true s h k = h
  if_quiet false s h k = k

  pub check_connected-IsQuiet : IsQuiet {W = W} check_connected
  unfolding check_connected
  check_connected-IsQuiet s x h = ground arith

  pub send_or_disconnect-IsQuiet : (r : Response) → IsQuiet {W = W} (send_or_disconnect r)
  unfolding send_or_disconnect deliver disconnect
  send_or_disconnect-IsQuiet r s x h = ground arith

  pub notify-IsQuiet : (m : Message) → IsQuiet {W = W} (notify m)
  unfolding notify check_connected
  notify-IsQuiet m s x h = grind (arith, send_or_disconnect-IsQuiet)
