-- ===== src/Loading/Guest.antt =====
-- debug_server/src/ckey_override.rs: the name that BYOND gives to guests, which it formats by `printf`.
use auxtools.Base.{
  ℕ, ◌+◌, ◌≡◌, refl, Bool, true, false, Option, none, some, [], ◌∷◌, ◌==◌, if◌then◌else◌, arith,
  Text,
}
use auxtools.Procs.{replace_from}
use auxtools.Handles.{has_nul}

-- `STRING_PTR` and the format that it leads to.
pub record Guest : Type 0 where
  pub string_ptr : Option ℕ
  pub name_format : Text

-- `ckey_override_init`, given what the scanner finds; it only looks on Windows.
unfoldable pub ckey_override_init : (windows : Bool) (found : Option ℕ) → Guest → Guest
ckey_override_init false found s = s
ckey_override_init true none s = s
ckey_override_init true (some ptr) s = record s { string_ptr = some (ptr + 1) }

pub data Overridden : Type 0 where
  ok : Guest → Overridden
  unsupported_byond_version invalid_string : Overridden

-- `name.replace('%', "%%")`
unfoldable pub escape_percent : Text → Text
unfolding replace_from
escape_percent name = replace_from (b'%' ∷ []) (b'%' ∷ b'%' ∷ []) 0 name

unfoldable pub override_guest_ckey : (name : Text) → Guest → Overridden
unfolding escape_percent has_nul
override_guest_ckey name s = elim s.string_ptr [
  | none ↦ unsupported_byond_version
  | some ptr ↦
      if has_nul (escape_percent name)
      then invalid_string
      else ok (record s { name_format = escape_percent name })
]

abbrev before : ℕ → Option Text → Option Text
before c none = none
before c (some s) = some (c ∷ s)

-- What `printf` puts out for a format without arguments; `none` if the format asks for one. The flag
-- says that a percent sign has been read.
unfoldable pub printed : (percent : Bool) → Text → Option Text
printed false [] = some []
printed true [] = none
printed false (c ∷ s) =
    let conversion = printed true s in
    let rest = printed false s in if c == b'%' then conversion else before c rest
printed true (c ∷ s) = let rest = printed false s in if c == b'%' then before c rest else none

-- The format puts out the name and asks for no argument, whatever percent signs the name has.
pub printed-escape_percent : (name : Text) → printed false (escape_percent name) ≡ some name
unfolding escape_percent printed
printed-escape_percent [] = refl
printed-escape_percent (c ∷ s) = ground (arith, printed-escape_percent s)
