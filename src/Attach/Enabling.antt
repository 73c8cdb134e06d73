-- ===== src/Attach/Enabling.antt =====
-- debug_server/src/lib.rs: how `enable_debugging` ends.
use auxtools.Base.{
  ℕ, ◌<◌, ◌≡◌, ◌≢◌, ◌⊎◌, inl, inr, refl, Bool, true, false, Option, none, some, length,
  if◌then◌else◌, text_beq, text_beq_iff, arith, Text,
}
use auxtools.Value.{Value, string, number, tag_beq}
use auxtools.Server.Session.{
  Session, waiting, connected, Out, ret, panic, M, pure, wait_for_connection, await_stream,
}
use auxtools.Server.World.{Byond}
use auxtools.Server.Loop.{process_until_configured}
use auxtools.Server.Quiet.Requests.{CallsAreQuiet}
use auxtools.Server.Ending.{EndsWith, gave}
use auxtools.Server.Configuring.{IsConfigured, configure_loop-EndsWith}
use auxtools.Attach.{
  none_word, launched_word, background_word, block_word, Environment, get_default_mode,
  get_default_port, Client, Net, Answer, done, could_not_create, invalid_mode, new_server,
  configure, connect, listen, enable_mode, enable_debugging,
}

module _ (b : Byond) (net : Net b.World) (rounds : ℕ) where
  abbrev Outcome : Type 0
  Outcome = Out (Option (Answer × Bool) × Session b.World)

  -- A server, new as `start`, that works on requests until it is configured; the call answers that
  -- there is a server then.
  pub data IsAttached (start : Session b.World) : Outcome → Type 0 where
    broke : process_until_configured b rounds start ≡ panic → IsAttached start panic
    attached :
        (t : Session b.World)
        → process_until_configured b rounds start ≡ ret (some tt, t)
        → IsConfigured t
        → IsAttached start (ret (some (done, true), t))

  -- How a call of `enable_debugging` ends, for each mode and each result of the network.
  pub data Enabled (mode : Text) (port : ℕ) (there : Bool) (s : Session b.World)
      : Outcome → Type 0 where
    left_off : mode ≡ none_word → Enabled mode port there s (ret (some (done, there), s))
    unknown :
        mode ≢ none_word
        → mode ≢ launched_word
        → mode ≢ background_word
        → mode ≢ block_word
        → Enabled mode port there s (ret (some (invalid_mode mode, there), s))
    unconnected :
        mode ≡ launched_word
        → net.connect_timeout port s.world ≡ none
        → Enabled mode port there s (ret (some (could_not_create, there), s))
    launched :
        (o : Outcome) (client : Client)
        → mode ≡ launched_word
        → net.connect_timeout port s.world ≡ some client
        → IsAttached (new_server connected client s) o
        → Enabled mode port there s o
    unbound :
        (mode ≡ background_word) ⊎ (mode ≡ block_word)
        → net.bind port s.world ≡ none
        → Enabled mode port there s (ret (some (could_not_create, there), s))
    listening :
        (arrived : Bool) (client : Client)
        → mode ≡ background_word
        → net.bind port s.world ≡ some (arrived, client)
        → Enabled mode port there s (ret (some (done, true), new_server (waiting arrived) client s))
    blocked :
        (o : Outcome) (arrived : Bool) (client : Client)
        → mode ≡ block_word
        → net.bind port s.world ≡ some (arrived, client)
        → IsAttached (new_server (waiting arrived) client s) o
        → Enabled mode port there s o

  -- There are more rounds than requests that any client sends.
  pub record IsEnough : Type 0 where
    pub dialled :
        (port : ℕ) (w : b.World) (c : Client)
        → net.connect_timeout port w ≡ some c
        → length c.requests < rounds
    pub bound :
        (port : ℕ) (w : b.World) (arrived : Bool) (c : Client)
        → net.bind port w ≡ some (arrived, c)
        → length c.requests < rounds

differs : (s t : Text) → text_beq s t ≡ false → s ≢ t
differs s t h e = ground (arith, text_beq_iff s t)

by_test :
    {A : Type 0} (c : Bool) (P : A → Type 0) {m n : A}
    → (c ≡ true → P m)
    → (c ≡ false → P n)
    → P (if c then m else n)
by_test true P h k = h refl
by_test false P h k = k refl

module _ (b : Byond) (calls : CallsAreQuiet b) (net : Net b.World) (rounds : ℕ) where
  process_until_configured-EndsWith :
      (t : Session b.World)
      → length t.requests < rounds
      → EndsWith IsConfigured (process_until_configured b rounds t)
  unfolding process_until_configured wait_for_connection
  process_until_configured-EndsWith t enough =
      configure_loop-EndsWith b calls rounds t.requests
        (record t { stream = await_stream t.stream }) refl enough

  configure-IsAttached :
      (start : Session b.World)
      → length start.requests < rounds
      → IsAttached b net rounds start (configure b net rounds start)
  unfolding configure
  configure-IsAttached start enough =
      by_end (process_until_configured b rounds start) refl
        (process_until_configured-EndsWith start enough)
    where
      by_end :
          (o : Out (Option (Unit {0}) × Session b.World))
          → process_until_configured b rounds start ≡ o
          → EndsWith IsConfigured o
          → IsAttached b net rounds start
              (elim o as (λ _. Out (Option (Answer × Bool) × Session b.World)) [
                | ret (a, t) ↦
                    (elim a as (λ _. M b.World (Option (Answer × Bool))) [
                      | none ↦ pure none
                      | some _ ↦ pure (some (done, true))
                    ])
                      t
                | panic ↦ panic
              ])
      by_end panic e h = broke e
      by_end _ e (gave tt t h) = attached t e h

  connect-Enabled :
      IsEnough b net rounds
      → (there : Bool) (mode : Text) (port : ℕ) (s : Session b.World) → mode ≡ launched_word
      → Enabled b net rounds mode port there s (connect b net rounds there port s)
  unfolding connect new_server
  connect-Enabled enough there mode port s is_launched =
      by_client (net.connect_timeout port s.world) refl
    where
      by_client :
          (o : Option Client)
          → net.connect_timeout port s.world ≡ o
          → Enabled b net rounds mode port there s
              (elim o as (λ _. Out (Option (Answer × Bool) × Session b.World)) [
                | none ↦ ret (some (could_not_create, there), s)
                | some client ↦ configure b net rounds (new_server connected client s)
              ])
      by_client none e = unconnected is_launched e
      by_client (some c) e =
          launched _ c is_launched e
            (configure-IsAttached (new_server connected c s) (enough.dialled port s.world c e))

  listen-Enabled :
      IsEnough b net rounds
      → (block there : Bool) (mode : Text) (port : ℕ) (s : Session b.World)
      → mode ≡ (if block then block_word else background_word)
      → Enabled b net rounds mode port there s (listen b net block rounds there port s)
  unfolding listen new_server
  listen-Enabled enough block there mode port s is_mode =
      by_client block is_mode (net.bind port s.world) refl
    where
      by_client :
          (block : Bool)
          → mode ≡ (if block then block_word else background_word)
          → (o : Option (Bool × Client)) → net.bind port s.world ≡ o
          → Enabled b net rounds mode port there s
              (elim o as (λ _. Out (Option (Answer × Bool) × Session b.World)) [
                | none ↦ ret (some (could_not_create, there), s)
                | some (arrived, client) ↦
                    if block
                    then configure b net rounds (new_server (waiting arrived) client s)
                    else ret (some (done, true), new_server (waiting arrived) client s)
              ])
      by_client true m none e = unbound (inr m) e
      by_client false m none e = unbound (inl m) e
      by_client false m (some (arrived, c)) e = listening arrived c m e
      by_client true m (some (arrived, c)) e = blocked _ arrived c m e (
          configure-IsAttached (new_server (waiting arrived) c s)
            (enough.bound port s.world arrived c e))

  enable_mode-Enabled :
      IsEnough b net rounds
      → (there : Bool) (mode : Text) (port : ℕ) (s : Session b.World)
      → Enabled b net rounds mode port there s (enable_mode b net rounds there mode port s)
  unfolding enable_mode
  enable_mode-Enabled enough there mode port s =
      by_test (text_beq mode none_word) ends (λ h. left_off ((text_beq_iff mode none_word).0 h))
        (λ h.
          by_test (text_beq mode launched_word) ends
            (λ k. connect-Enabled enough there mode port s ((text_beq_iff mode launched_word).0 k))
            (λ k.
              by_test (text_beq mode background_word) ends
                (λ l.
                  listen-Enabled enough false there mode port s
                    ((text_beq_iff mode background_word).0 l))
                (λ l.
                  by_test (text_beq mode block_word) ends
                    (λ m.
                      listen-Enabled enough true there mode port s
                        ((text_beq_iff mode block_word).0 m))
                    (λ m.
                      unknown (differs mode none_word h) (differs mode launched_word k)
                        (differs mode background_word l) (differs mode block_word m)))))
    where
      ends : M b.World (Option (Answer × Bool)) → Type 0
      ends m = Enabled b net rounds mode port there s (m s)

  -- With more rounds than any client sends requests, and if no call of a proc adds requests,
  -- `enable_debugging` does not run out of rounds. Its mode and port are the arguments, if they are a
  -- text and a number, else those of the environment. In mode NONE it succeeds and leaves the server
  -- as it was; an error of the network and a mode that is not known leave it too, each with its own
  -- answer.
  -- In mode LAUNCHED it succeeds with a new server, connected to the client, that was configured or
  -- whose client is gone; in mode BLOCK likewise, once the client has come; in mode BACKGROUND with a
  -- new server that waits for its client. The only panics are those of working on the requests.
  pub enable_debugging-Enabled :
      IsEnough b net rounds
      → (as_u16 : ℕ → ℕ) (e : Environment) (there : Bool) (mode port : Value) (s : Session b.World)
      → Enabled b net rounds
          (if tag_beq mode.tag string
            then b.string_text s.world mode.data_id
            else get_default_mode e)
          (if tag_beq port.tag number then as_u16 port.data_id else get_default_port e)
          there
          s
          (enable_debugging b net as_u16 e rounds there mode port s)
  unfolding enable_debugging
  enable_debugging-Enabled enough as_u16 e there mode port s =
      enable_mode-Enabled enough there
        (if tag_beq mode.tag string then b.string_text s.world mode.data_id else get_default_mode e)
        (if tag_beq port.tag number then as_u16 port.data_id else get_default_port e) s
