-- ===== src/Attach.antt =====
-- debug_server/src/lib.rs: the proc `enable_debugging`, with the constructors of the server in
-- debug_server/src/server.rs. A server that is replaced takes leave of its client, who is not followed
-- here any more.
pub mod Enabling
mod Tests
use auxtools.Base.{
  ℕ, zero, suc, ◌+◌, ◌-◌, ◌*◌, Bool, true, false, ◌&&◌, Option, none, some, List, [], ◌∷◌, leb, ltb,
  ◌==◌, if◌then◌else◌, Text, text_beq,
}
use auxtools.Value.{Value, string, number, tag_beq}
use auxtools.Server.Messages.{Request}
use auxtools.Server.Session.{
  Session, disconnect, Stream, waiting, connected, Out, ret, panic, M, ◌>>=◌, pure,
}
use auxtools.Server.World.{Byond}
use auxtools.Server.Loop.{process_until_configured}

abbrev none_word : Text
none_word = b'N' ∷ b'O' ∷ b'N' ∷ b'E' ∷ []

abbrev launched_word : Text
launched_word = b'L' ∷ b'A' ∷ b'U' ∷ b'N' ∷ b'C' ∷ b'H' ∷ b'E' ∷ b'D' ∷ []

abbrev background_word : Text
background_word = b'B' ∷ b'A' ∷ b'C' ∷ b'K' ∷ b'G' ∷ b'R' ∷ b'O' ∷ b'U' ∷ b'N' ∷ b'D' ∷ []

abbrev block_word : Text
block_word = b'B' ∷ b'L' ∷ b'O' ∷ b'C' ∷ b'K' ∷ []

abbrev pub default_port : ℕ
default_port = 2448

abbrev is_digit : ℕ → Bool
is_digit c = leb b'0' c && leb c b'9'

-- `str::parse::<u16>`
unfoldable pub parse_digits : (value : ℕ) → Text → Option ℕ
parse_digits value [] = some value
parse_digits value (c ∷ s) =
    let next = 10 * value + (c - b'0') in
    let rest = parse_digits next s in if is_digit c && ltb next 65536 then rest else none

unfoldable pub parse_u16 : Text → Option ℕ
unfolding parse_digits
parse_u16 [] = none
parse_u16 (c ∷ []) = parse_digits 0 (c ∷ [])
parse_u16 (c ∷ d ∷ s) = if c == b'+' then parse_digits 0 (d ∷ s) else parse_digits 0 (c ∷ d ∷ s)

-- The variables AUXTOOLS_DEBUG_MODE and AUXTOOLS_DEBUG_PORT, if they are set to texts.
pub record Environment : Type 0 where
  pub mode_var : Option Text
  pub port_var : Option Text

unfoldable pub get_default_mode : Environment → Text
get_default_mode e = elim e.mode_var [ some v ↦ v | none ↦ none_word ]

unfoldable pub get_default_port : Environment → ℕ
unfolding parse_u16
get_default_port e = elim e.port_var [
  | none ↦ default_port
  | some v ↦ elim (parse_u16 v) [ some port ↦ port | none ↦ default_port ]
]

-- What comes of a connection: the requests that the client will send, and how many messages it takes.
pub record Client : Type 0 where
  pub requests : List Request
  pub link : ℕ

-- The network: `none` is an error. A listener tells whether its client is there when the server looks
-- for it, or when it has waited for it.
pub record Net (W : Type 0) : Type 0 where
  pub connect_timeout : (port : ℕ) → W → Option Client
  pub bind : (port : ℕ) → W → Option (Bool × Client)

pub data Answer : Type 0 where
  done could_not_create : Answer
  invalid_mode : Text → Answer

-- `Server { .. }`
unfoldable pub new_server : {W : Type 0} → Stream → Client → Session W → Session W
new_server stream client s = record s {
  requests = client.requests;
  stream = stream;
  link = client.link;
  sent = [];
  should_catch_runtimes = true;
  state = none;
  in_eval = false;
  eval_error = none;
  conditional_breakpoints = [];
}

module _ (b : Byond) (net : Net b.World) where
  -- What a call gives: the answer and whether there is a server then; `none` is out of rounds.
  abbrev pub Given : Type 0
  Given = Option (Answer × Bool)

  -- The server that blocks until it is configured is there when it has returned.
  unfoldable pub configure : (rounds : ℕ) → M b.World Given
  unfolding process_until_configured
  configure rounds =
      process_until_configured b rounds
      >>= (λ o. elim o [ none ↦ pure none | some _ ↦ pure (some (done, true)) ])

  -- `Server::connect`
  unfoldable pub connect : (rounds : ℕ) (there : Bool) (port : ℕ) → M b.World Given
  unfolding configure new_server
  connect rounds there port s = elim (net.connect_timeout port s.world) [
    | none ↦ ret (some (could_not_create, there), s)
    | some client ↦ configure rounds (new_server connected client s)
  ]

  -- `Server::listen`
  unfoldable pub listen : (block : Bool) (rounds : ℕ) (there : Bool) (port : ℕ) → M b.World Given
  unfolding configure new_server
  listen block rounds there port s = elim (net.bind port s.world) [
    | none ↦ ret (some (could_not_create, there), s)
    | some (arrived, client) ↦
        let fresh = new_server (waiting arrived) client s in
        if block then configure rounds fresh else ret (some (done, true), fresh)
  ]

  unfoldable pub enable_mode :
      (rounds : ℕ) (there : Bool) (mode : Text) (port : ℕ) → M b.World Given
  unfolding connect listen
  enable_mode rounds there mode port =
      if text_beq mode none_word
      then pure (some (done, there))
      else if text_beq mode launched_word
      then connect rounds there port
      else if text_beq mode background_word
      then listen false rounds there port
      else if text_beq mode block_word
      then listen true rounds there port
      else pure (some (invalid_mode mode, there))

  -- `enable_debugging`; `as_u16` is the conversion of a number, and `there` whether there is a server.
  unfoldable pub enable_debugging :
      (as_u16 : ℕ → ℕ) (e : Environment) (rounds : ℕ) (there : Bool) (mode port : Value)
      → M b.World Given
  unfolding get_default_mode get_default_port enable_mode
  enable_debugging as_u16 e rounds there mode port s =
      let text =
        if tag_beq mode.tag string
        then b.string_text s.world mode.data_id
        else get_default_mode e in
      let number = if tag_beq port.tag number then as_u16 port.data_id else get_default_port e in
      enable_mode rounds there text number s

-- `debugger_shutdown`: the server, if there is one, is dropped, which takes leave of its client.
unfoldable pub debugger_shutdown : {W : Type 0} → (there : Bool) → Session W → Bool × Session W
unfolding disconnect
debugger_shutdown true s = (false, disconnect s)
debugger_shutdown false s = (false, s)
