-- ===== src/Strings/Utf8.antt =====
-- auxtools/src/string.rs: `String::from_utf8_lossy`, by which `fmt` ends, as the standard library has it.
-- The longest start of a character that is broken off, and each byte that can start none, becomes one
-- U+FFFD.
use auxtools.Base.{
  ℕ, zero, suc, Bool, ◌&&◌, Option, none, some, [], ◌∷◌, ◌++◌, ltb, leb, ◌==◌, if◌then◌else◌, Text,
}

abbrev pub replacement : Text
replacement = 0xef ∷ 0xbf ∷ 0xbd ∷ []

-- The bounds of the next byte of a character, and how many bytes follow that one.
pub record Wanted : Type 0 where
  pub low : ℕ
  pub high : ℕ
  pub after : ℕ

abbrev pub wanted : ℕ → ℕ → ℕ → Wanted
wanted low high after = record { low = low; high = high; after = after }

abbrev pub is_within : Wanted → ℕ → Bool
is_within w c = leb w.low c && leb c w.high

-- What must follow the first byte of a character that has more than one.
unfoldable pub lead : ℕ → Option Wanted
lead c =
    if ltb c 0xc2
    then none
    else if ltb c 0xe0
    then some (wanted 0x80 0xbf 0)
    else if c == 0xe0
    then some (wanted 0xa0 0xbf 1)
    else if c == 0xed
    then some (wanted 0x80 0x9f 1)
    else if ltb c 0xf0
    then some (wanted 0x80 0xbf 1)
    else if c == 0xf0
    then some (wanted 0x90 0xbf 2)
    else if ltb c 0xf4
    then some (wanted 0x80 0xbf 2)
    else if c == 0xf4
    then some (wanted 0x80 0x8f 2)
    else none

-- Between characters, or in one: the bytes that it has.
pub data Scan : Type 0 where
  between : Scan
  inside : (held : Text) → Wanted → Scan

-- The next byte, between characters: what is put out, and how it goes on.
unfoldable pub start : ℕ → Text × Scan
unfolding lead
start c =
    if ltb c 0x80
    then (c ∷ [], between)
    else elim (lead c) [ none ↦ (replacement, between) | some w ↦ ([], inside (c ∷ []) w) ]

abbrev pub go_on : Text → ℕ → Text × Scan
go_on held zero = (held, between)
go_on held (suc n) = ([], inside held (wanted 0x80 0xbf n))

unfoldable pub take_byte : Scan → ℕ → Text × Scan
unfolding start
take_byte between c = start c
take_byte (inside held w) c =
    if is_within w c
    then go_on (held ++ c ∷ []) w.after
    else (let (out, next) = start c in (replacement ++ out, next))

unfoldable pub scan_bytes : Scan → Text → Text
unfolding take_byte
scan_bytes between [] = []
scan_bytes (inside held w) [] = replacement
scan_bytes s (c ∷ rest) = let (out, next) = take_byte s c in out ++ scan_bytes next rest

unfoldable pub from_utf8_lossy : Text → Text
unfolding scan_bytes
from_utf8_lossy t = scan_bytes between t
