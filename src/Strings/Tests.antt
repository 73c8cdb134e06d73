-- ===== src/Strings/Tests.antt =====
-- Strings with a quote, a newline and a format specifier, and the theorems there.
use auxtools.Base.{ℕ, ◌≡◌, refl, some, List, [], ◌∷◌, ◌++◌, arith}
use auxtools.Strings.{fmt}
use auxtools.Strings.Utf8.{replacement, from_utf8_lossy}
use auxtools.Strings.Valid.{IsUtf8, no_more, ascii, two_bytes}
use auxtools.Strings.Literal.{read_literal, read_literal-fmt, fmt_one_literal}

-- `a`, an e with an acute accent, a quote, and a newline.
abbrev quoted : List ℕ
quoted = b'a' ∷ 0xc3 ∷ 0xa9 ∷ b'"' ∷ 10 ∷ []

quoted-IsUtf8 : IsUtf8 quoted
quoted-IsUtf8 = ascii b'a' (omega arith) (
    two_bytes 0xc3 0xa9 (omega arith) (omega arith) (omega arith, omega arith)
      (ascii b'"' (omega arith) (ascii 10 (omega arith) no_more)))

read_literal-fmt_example : read_literal (fmt quoted ++ b'x' ∷ []) ≡ some (quoted, b'x' ∷ [])
read_literal-fmt_example = read_literal-fmt quoted (b'x' ∷ []) quoted-IsUtf8

-- A character that is broken off, and a byte that starts none.
replaced : from_utf8_lossy (0xc3 ∷ b'a' ∷ 0xa9 ∷ []) ≡ replacement ++ b'a' ∷ replacement
unfolding from_utf8_lossy
replaced = refl

-- Two bytes of a character of four are replaced together, those of a surrogate each alone.
replaced_parts :
    from_utf8_lossy (0xf0 ∷ 0x9f ∷ 0xed ∷ 0xa0 ∷ []) ≡ replacement ++ replacement ++ replacement
unfolding from_utf8_lossy
replaced_parts = refl

-- `\red`, a specifier that is not known, and one that is cut off.
abbrev specified : List ℕ
specified = 0xff ∷ 31 ∷ b'a' ∷ 0xff ∷ 99 ∷ 0xff ∷ []

fmt_one_literal_example :
    (read_as : List ℕ) × (read_literal (fmt specified ++ []) ≡ some (read_as, []))
fmt_one_literal_example = fmt_one_literal specified []
