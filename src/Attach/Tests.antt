-- ===== src/Attach/Tests.antt =====
-- debug_server/src/lib.rs: enabling in a world where a client sends two requests.
use auxtools.Base.{ℕ, ◌≡◌, refl, false, none, some, [], ◌∷◌, arith}
use auxtools.Value.{null_value, as_u8}
use auxtools.Server.Messages.{std_def, configured}
use auxtools.Server.Session.{ret}
use auxtools.Server.Tests.{empty_world, session, empty_world_is_quiet}
use auxtools.Attach.{
  Environment, Client, Net, done, launched_word, parse_u16, enable_debugging, get_default_port,
  get_default_mode,
}
use auxtools.Attach.Enabling.{IsEnough, Enabled, enable_debugging-Enabled}

abbrev a_client : Client
a_client = record { requests = std_def ∷ configured ∷ []; link = 5 }

abbrev a_net : Net (Unit {0})
a_net = record { connect_timeout = λ port w. some a_client; bind = λ port w. none }

abbrev launched : Environment
launched = record { mode_var = some launched_word; port_var = none }

abbrev unset : Environment
unset = record { mode_var = none; port_var = none }

abbrev truncated : ℕ → ℕ
truncated bits = bits

a_net-IsEnough : IsEnough empty_world a_net 3
a_net-IsEnough = record {
  dialled = λ port w c e. ground (arith, e);
  bound = λ port w arrived c e. ground (arith, e);
}

enable_debugging-Enabled_example :
    Enabled empty_world a_net 3 launched_word 2448 false session
      (enable_debugging empty_world a_net truncated launched 3 false null_value null_value session)
unfolding get_default_mode get_default_port as_u8
enable_debugging-Enabled_example =
    enable_debugging-Enabled empty_world empty_world_is_quiet a_net 3 a_net-IsEnough truncated
      launched false null_value null_value session

nothing_asked :
    enable_debugging empty_world a_net truncated unset 3 false null_value null_value session
    ≡ ret (some (done, false), session)
unfolding enable_debugging as_u8
nothing_asked = refl

port_2448 : get_default_port unset ≡ 2448
unfolding get_default_port
port_2448 = refl

signed_port : parse_u16 (b'+' ∷ b'8' ∷ b'0' ∷ []) ≡ some 80
unfolding parse_u16
signed_port = refl

large_port : parse_u16 (b'6' ∷ b'5' ∷ b'5' ∷ b'3' ∷ b'6' ∷ []) ≡ none
unfolding parse_u16
large_port = refl
