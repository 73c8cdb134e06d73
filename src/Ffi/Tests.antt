-- ===== src/Ffi/Tests.antt =====
-- auxtools/src/byond_ffi.rs: a function of two named arguments, called with one.
use auxtools.Base.{ℕ, ◌≡◌, refl, Option, none, some, List, [], ◌∷◌, ◌++◌, Text}
use auxtools.Ffi.{c_str, parse_args, call_fn, return_string}
use auxtools.Ffi.Answer.{pointed, bytes_of, AreArgs, c_str-call_fn}

abbrev as_it_is : List ℕ → Text
as_it_is bytes = bytes

-- The first argument, a NUL and more.
abbrev first_and_more : (named rest : List Text) → Unit {0} → Option (List ℕ) × Unit {0}
first_and_more [] rest w = (none, w)
first_and_more (a ∷ _) rest w = (some (a ++ (0 ∷ 9 ∷ [])), w)

abbrev one_argument : List (List ℕ)
one_argument = (b'h' ∷ b'i' ∷ 0 ∷ 5 ∷ []) ∷ []

c_str-call_fn_example :
    (named : List Text) × (rest : List Text) × AreArgs 2
      (parse_args as_it_is one_argument)
      named
      rest
    × ((call_fn as_it_is 2 first_and_more one_argument [] tt).1 ≡ (first_and_more named rest tt).1)
    × (c_str (pointed (call_fn as_it_is 2 first_and_more one_argument [] tt).0 (7 ∷ []))
        ≡ c_str (bytes_of (first_and_more named rest tt).0))
c_str-call_fn_example = c_str-call_fn as_it_is 2 first_and_more one_argument [] (7 ∷ []) tt

cut_at_nul :
    call_fn as_it_is 2 first_and_more one_argument [] tt ≡ ((return_string, b'h' ∷ b'i' ∷ []), tt)
unfolding call_fn c_str
cut_at_nul = refl
