-- ===== src/Macros/Signature.antt =====
-- auxtools-impl/src/lib.rs: `from_signature` and `convert_signature`. A string is the list of its
-- characters. `hex::decode` is an argument, `none` its error.
use auxtools.Base.{
  ℕ, ◌+◌, Bool, ◌&&◌, ◌||◌, Option, none, some, List, [], ◌∷◌, reverse, ltb, leb, ◌==◌,
  if◌then◌else◌, Text, text_beq,
}
use auxtools.Sigscan.{Signature}

-- `char::is_whitespace`
unfoldable pub is_whitespace : ℕ → Bool
is_whitespace c =
    (leb 9 c && leb c 13)
    || (c == 32)
    || (c == 133)
    || (c == 160)
    || (c == 5760)
    || (leb 8192 c && leb c 8202)
    || (c == 8232)
    || (c == 8233)
    || (c == 8239)
    || (c == 8287)
    || (c == 12288)

unfoldable pub trim_start : Text → Text
unfolding is_whitespace
trim_start [] = []
trim_start (c ∷ s) = let rest = trim_start s in if is_whitespace c then rest else c ∷ s

unfoldable pub trim : Text → Text
unfolding trim_start
trim s = reverse (trim_start (reverse (trim_start s)))

-- `str::len` counts bytes of UTF-8.
unfoldable pub len_utf8 : ℕ → ℕ
len_utf8 c = if ltb c 128 then 1 else if ltb c 2048 then 2 else if ltb c 65536 then 3 else 4

unfoldable pub len : Text → ℕ
unfolding len_utf8
len [] = 0
len (c ∷ s) = len_utf8 c + len s

abbrev pub push_first : ℕ → List Text → List Text
push_first c [] = (c ∷ []) ∷ []
push_first c (t ∷ ts) = (c ∷ t) ∷ ts

-- `split(' ')`: one piece more than there are spaces.
unfoldable pub split : Text → List Text
split [] = [] ∷ []
split (c ∷ s) = let rest = split s in if c == b' ' then [] ∷ rest else push_first c rest

abbrev pub wildcard : Text
wildcard = b'?' ∷ b'?' ∷ []

-- `decoded_byte[0]`, which panics if there is no byte.
abbrev pub first : List ℕ → Option (Option ℕ)
first [] = none
first (b ∷ _) = some (some b)

module _ (decode : Text → Option (List ℕ)) where
  -- The closure on a piece that is trimmed; the outer `none` is a panic.
  unfoldable pub signature_byte : Text → Option (Option ℕ)
  unfolding len
  signature_byte byte =
      if len byte == 2
      then if text_beq byte wildcard
        then some none
        else (elim (decode byte) [ none ↦ some none | some decoded ↦ first decoded ])
      else some none

  unfoldable pub signature_bytes : List Text → Option Signature
  unfolding signature_byte trim
  signature_bytes [] = some []
  signature_bytes (t ∷ ts) = elim (signature_byte (trim t)) [
    | none ↦ none
    | some byte ↦ elim (signature_bytes ts) [ none ↦ none | some rest ↦ some (byte ∷ rest) ]
  ]

  unfoldable pub from_signature : Text → Option Signature
  unfolding signature_bytes split trim
  from_signature s = signature_bytes (split (trim s))

-- A literal, as far as the macro tells literals apart.
pub data Lit : Type 0 where
  str_lit : Text → Lit
  other_lit : Lit

-- The slice that the macro stands for; `none` is a panic, which fails the build.
unfoldable pub convert_signature : (Text → Option (List ℕ)) → Lit → Option Signature
unfolding from_signature
convert_signature decode (str_lit value) = from_signature decode value
convert_signature decode other_lit = none
