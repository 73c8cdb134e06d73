-- ===== src/Strings.antt =====
-- auxtools/src/string.rs: a string as it is shown, with BYOND's format specifiers spelled out.
pub mod Utf8
pub mod Valid
pub mod Closing
pub mod Literal
mod Tests
use auxtools.Strings.Utf8.{from_utf8_lossy}
use auxtools.Base.{
  ℕ, zero, suc, Bool, true, false, ◌||◌, Option, none, some, List, [], ◌∷◌, ◌++◌, ◌==◌,
  if◌then◌else◌, Text, get_elem?,
}

abbrev pub specifiers : List Text
specifiers =
    (b'[' ∷ b'U' ∷ b'N' ∷ b'K' ∷ b'N' ∷ b'O' ∷ b'N' ∷ b'W' ∷ b'N' ∷ b' ' ∷ b'F' ∷ b'O' ∷ b'R' ∷ b'M'
      ∷ b'A' ∷ b'T' ∷ b' ' ∷ b'S' ∷ b'P' ∷ b'E' ∷ b'C' ∷ b'I' ∷ b'F' ∷ b'I' ∷ b'E' ∷ b'R' ∷ b']'
      ∷ [])
    ∷ (b'[' ∷ b']' ∷ [])
    ∷ (b'[' ∷ b']' ∷ [])
    ∷ (b'[' ∷ b']' ∷ [])
    ∷ (b'[' ∷ b']' ∷ [])
    ∷ (b'[' ∷ b']' ∷ b'\\' ∷ b't' ∷ b'h' ∷ [])
    ∷ (b'\\' ∷ b'a' ∷ [])
    ∷ (b'\\' ∷ b'A' ∷ [])
    ∷ (b'\\' ∷ b't' ∷ b'h' ∷ b'e' ∷ [])
    ∷ (b'\\' ∷ b'T' ∷ b'h' ∷ b'e' ∷ [])
    ∷ (b'\\' ∷ b'h' ∷ b'e' ∷ [])
    ∷ (b'\\' ∷ b'H' ∷ b'e' ∷ [])
    ∷ (b'\\' ∷ b'h' ∷ b'i' ∷ b's' ∷ [])
    ∷ (b'\\' ∷ b'H' ∷ b'i' ∷ b's' ∷ [])
    ∷ (b'\\' ∷ b'h' ∷ b'e' ∷ b'r' ∷ b's' ∷ [])
    ∷ (b'\\' ∷ b'H' ∷ b'e' ∷ b'r' ∷ b's' ∷ [])
    ∷ (b'\\' ∷ b'h' ∷ b'i' ∷ b'm' ∷ b' ' ∷ [])
    ∷ (b'\\' ∷ b'h' ∷ b'i' ∷ b'm' ∷ b's' ∷ b'e' ∷ b'l' ∷ b'f' ∷ [])
    ∷ (b'\\' ∷ b'.' ∷ b'.' ∷ b'.' ∷ b' ' ∷ [])
    ∷ (b'\\' ∷ b'n' ∷ [])
    ∷ (b'\\' ∷ b's' ∷ b' ' ∷ [])
    ∷ (b'\\' ∷ b'p' ∷ b'r' ∷ b'o' ∷ b'p' ∷ b'e' ∷ b'r' ∷ b' ' ∷ [])
    ∷ (b'\\' ∷ b'i' ∷ b'm' ∷ b'p' ∷ b'r' ∷ b'o' ∷ b'p' ∷ b'e' ∷ b'r' ∷ b' ' ∷ [])
    ∷ (b'\\' ∷ b'b' ∷ b'o' ∷ b'l' ∷ b'd' ∷ b' ' ∷ [])
    ∷ (b'\\' ∷ b'i' ∷ b't' ∷ b'a' ∷ b'l' ∷ b'i' ∷ b'c' ∷ b' ' ∷ [])
    ∷ (b'\\' ∷ b'u' ∷ b'n' ∷ b'd' ∷ b'e' ∷ b'r' ∷ b'l' ∷ b'i' ∷ b'n' ∷ b'e' ∷ b' ' ∷ [])
    ∷ (b'\\' ∷ b's' ∷ b't' ∷ b'r' ∷ b'i' ∷ b'k' ∷ b'e' ∷ b' ' ∷ [])
    ∷ (b'\\' ∷ b'f' ∷ b'o' ∷ b'n' ∷ b't' ∷ [])
    ∷ (b'\\' ∷ b'c' ∷ b'o' ∷ b'l' ∷ b'o' ∷ b'r' ∷ [])
    ∷ (b'\\' ∷ b'f' ∷ b'o' ∷ b'n' ∷ b't' ∷ [])
    ∷ (b'\\' ∷ b'c' ∷ b'o' ∷ b'l' ∷ b'o' ∷ b'r' ∷ [])
    ∷ (b'\\' ∷ b'r' ∷ b'e' ∷ b'd' ∷ b' ' ∷ [])
    ∷ (b'\\' ∷ b'g' ∷ b'r' ∷ b'e' ∷ b'e' ∷ b'n' ∷ b' ' ∷ [])
    ∷ (b'\\' ∷ b'b' ∷ b'l' ∷ b'u' ∷ b'e' ∷ b' ' ∷ [])
    ∷ (b'\\' ∷ b'b' ∷ b'l' ∷ b'a' ∷ b'c' ∷ b'k' ∷ b' ' ∷ [])
    ∷ (b'\\' ∷ b'w' ∷ b'h' ∷ b'i' ∷ b't' ∷ b'e' ∷ b' ' ∷ [])
    ∷ (b'\\' ∷ b'y' ∷ b'e' ∷ b'l' ∷ b'l' ∷ b'o' ∷ b'w' ∷ b' ' ∷ [])
    ∷ (b'\\' ∷ b'c' ∷ b'y' ∷ b'a' ∷ b'n' ∷ b' ' ∷ [])
    ∷ (b'\\' ∷ b'm' ∷ b'a' ∷ b'g' ∷ b'e' ∷ b'n' ∷ b't' ∷ b'a' ∷ b' ' ∷ [])
    ∷ (b'\\' ∷ b'b' ∷ b'e' ∷ b'e' ∷ b'p' ∷ b' ' ∷ [])
    ∷ (b'\\' ∷ b'l' ∷ b'i' ∷ b'n' ∷ b'k' ∷ [])
    ∷ (b' ' ∷ b'\\' ∷ b'l' ∷ b'i' ∷ b'n' ∷ b'k' ∷ [])
    ∷ (b'\\' ∷ b'r' ∷ b'e' ∷ b'f' ∷ b'[' ∷ b']' ∷ [])
    ∷ (b'\\' ∷ b'i' ∷ b'c' ∷ b'o' ∷ b'n' ∷ b'[' ∷ b']' ∷ [])
    ∷ (b'\\' ∷ b'r' ∷ b'o' ∷ b'm' ∷ b'a' ∷ b'n' ∷ b'[' ∷ b']' ∷ [])
    ∷ (b'\\' ∷ b'R' ∷ b'o' ∷ b'm' ∷ b'a' ∷ b'n' ∷ b'[' ∷ b']' ∷ [])
    ∷ []

abbrev unknown_specifier : Text
unknown_specifier =
    (b'[' ∷ b'U' ∷ b'N' ∷ b'K' ∷ b'N' ∷ b'O' ∷ b'N' ∷ b'W' ∷ b'N' ∷ b' ' ∷ b'F' ∷ b'O' ∷ b'R' ∷ b'M'
      ∷ b'A' ∷ b'T' ∷ b' ' ∷ b'S' ∷ b'P' ∷ b'E' ∷ b'C' ∷ b'I' ∷ b'F' ∷ b'I' ∷ b'E' ∷ b'R' ∷ b']'
      ∷ [])

-- What stands for the byte after 0xFF.
unfoldable pub specifier : ℕ → Text
specifier c = elim (get_elem? specifiers c) [ none ↦ unknown_specifier | some t ↦ t ]

abbrev pub backslash : ℕ
backslash = b'\\'

abbrev pub quote : ℕ
quote = b'"'

abbrev pub newline : ℕ
newline = 10

abbrev pub carriage_return : ℕ
carriage_return = 13

-- `byte == b'\\' || byte == b'[' || byte == b']' || byte == b'"'`
abbrev pub is_special : ℕ → Bool
is_special b = (b == backslash) || (b == b'[') || (b == b']') || (b == quote)

unfoldable pub show_byte : ℕ → Text
show_byte b =
    if b == newline
    then backslash ∷ b'n' ∷ []
    else if b == carriage_return
    then backslash ∷ b'r' ∷ []
    else if is_special b
    then backslash ∷ b ∷ []
    else b ∷ []

-- The loop of `fmt` over the bytes of the string. After a 0xFF (`marked`) a byte is a specifier; a
-- 0xFF at the end is dropped.
unfoldable pub format : (marked : Bool) → List ℕ → Text
unfolding specifier show_byte
format marked [] = []
format true (c ∷ bytes) = specifier c ++ format false bytes
format false (b ∷ bytes) =
    let specified = format true bytes in
    let rest = format false bytes in if b == 0xff then specified else show_byte b ++ rest

-- `Debug` and `Display`
unfoldable pub fmt : List ℕ → Text
unfolding format from_utf8_lossy
fmt bytes = quote ∷ from_utf8_lossy (format false bytes) ++ quote ∷ []
