-- ===== src/Macros/Tests.antt =====
-- auxtools-impl/src/lib.rs: the macros on literals and functions of the repository's kind.
use auxtools.Base.{
  ℕ, ◌+◌, ◌-◌, ◌*◌, ◌/◌, ◌%◌, ◌<◌, ◌≡◌, refl, ◌&&◌, Option, none, some, List, [], ◌∷◌, leb,
  if◌then◌else◌, arith, Text,
}
use auxtools.Sigscan.{Signature}
use auxtools.Value.{Value, number, value, null_value}
use auxtools.ProcHooks.{ok}
use auxtools.Macros.Signature.{from_signature, str_lit, Lit}
use auxtools.Macros.RoundTrip.{hex_digit, IsHex, written, from_signature-written}
use auxtools.Macros.Inventory.{compile_time_hook}
use auxtools.Macros.Hook.{
  ident, other_pat, typed, ItemFn, path_type, other_type, HookCode, hook, expanded, Body, fill_args,
  run_code, compile_error,
}
use auxtools.Macros.Unpack.{Binds, run_code-Binds}

-- A decoder of two digits.
abbrev digit_value : ℕ → Option ℕ
digit_value c =
    if leb b'0' c && leb c b'9'
    then some (c - 48)
    else if leb b'A' c && leb c b'F'
    then some (c - 55)
    else if leb b'a' c && leb c b'f'
    then some (c - 87)
    else none

abbrev decode_pair : Option ℕ → Option ℕ → Option (List ℕ)
decode_pair (some x) (some y) = some ((16 * x + y) ∷ [])
decode_pair _ _ = none

abbrev decode : Text → Option (List ℕ)
decode (x ∷ y ∷ []) = decode_pair (digit_value x) (digit_value y)
decode _ = none

digit_value-hex_digit : (d : ℕ) → d < 16 → digit_value (hex_digit d) ≡ some d
digit_value-hex_digit d h = ground arith

decode-IsHex : IsHex decode
decode-IsHex b h = ground (
  arith,
  digit_value-hex_digit (b / 16) (omega (arith, h)),
  digit_value-hex_digit (b % 16) (omega arith),
)

-- `55 8B ?? 0F`
abbrev call_signature : Signature
call_signature = some 0x55 ∷ some 0x8b ∷ none ∷ some 0x0f ∷ []

from_signature-written_example :
    from_signature decode (written call_signature) ≡ some call_signature
from_signature-written_example =
    from_signature-written decode decode-IsHex (some 0x55) (some 0x8b ∷ none ∷ some 0x0f ∷ [])
      (omega arith, (omega arith, (omega arith, tt)))

-- A misspelt byte, two spaces: `G0  8`.
abbrev misspelt : Text
misspelt = b'G' ∷ b'0' ∷ b' ' ∷ b' ' ∷ b'8' ∷ []

misspelt_matches_anything : from_signature decode misspelt ≡ some (none ∷ none ∷ none ∷ [])
unfolding from_signature
misspelt_matches_anything = refl

abbrev dm_result : List Text
dm_result = (b'D' ∷ b'M' ∷ b'R' ∷ b'e' ∷ b's' ∷ b'u' ∷ b'l' ∷ b't' ∷ []) ∷ []

-- `#[hook("/p")] fn f(_: Value, x: Value) -> DMResult`
abbrev hooked_fn : ItemFn
hooked_fn = record {
  func_name = b'f' ∷ [];
  inputs = typed other_pat ∷ typed (ident (b'x' ∷ [])) ∷ [];
  output = path_type dm_result;
}

abbrev hooked_path : Lit
hooked_path = str_lit (b'/' ∷ b'p' ∷ [])

abbrev hooked_code : HookCode
hooked_code = record {
  cthook_prelude = some (compile_time_hook hooked_path (b'f' ∷ []));
  func_name = b'f' ∷ [];
  args_len = 2;
  arg_names = (b'x' ∷ []) ∷ [];
  proc_arg_unpacker = 0 ∷ [];
}

hook_f : hook (some hooked_path) hooked_fn ≡ expanded hooked_code
unfolding hook
hook_f = refl

abbrev one_arg : List Value
one_arg = value number 7 ∷ []

abbrev first_bound : Body (Unit {0})
first_bound [] src usr args w = (ok null_value, w)
first_bound ((name, v) ∷ _) src usr args w = (ok v, w)

run_code-Binds_example :
    (bound : List (Text × Value)) × (run_code hooked_code first_bound null_value null_value one_arg
        tt
      ≡ some (first_bound bound null_value null_value (fill_args 2 one_arg) tt))
    × Binds ((b'x' ∷ []) ∷ []) one_arg bound
run_code-Binds_example =
    run_code-Binds (some hooked_path) hooked_fn hooked_code first_bound null_value null_value
      one_arg tt hook_f

-- `x` is the second parameter, and gets the first argument.
x_gets_first :
    run_code hooked_code first_bound null_value null_value one_arg tt
    ≡ some (ok (value number 7), tt)
unfolding run_code
x_gets_first = refl

other_output : hook none (record hooked_fn { output = other_type }) ≡ compile_error
unfolding hook
other_output = refl
