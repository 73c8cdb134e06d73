-- ===== src/Strings/Literal.antt =====
-- auxtools/src/string.rs: what is shown, read back as a literal.
use mathlib.Core.List.{append_assoc}
use auxtools.Base.{
  ℕ, ◌<◌, ◌≤◌, ◌⊎◌, ◌≡◌, ◌≢◌, sym, ap, subst, ◌∙◌, Bool, true, false, Option, none, some, List, [],
  ◌∷◌, ◌++◌, arith, ◌==◌, if◌then◌else◌, Text, Bool-cases, inl, inr,
}
use auxtools.Strings.{
  backslash, quote, newline, carriage_return, show_byte, format, fmt, is_special,
}
use auxtools.Strings.Utf8.{from_utf8_lossy}
use auxtools.Strings.Valid.{
  IsUtf8, no_more, ascii, two_bytes, three_bytes, four_bytes, from_utf8_lossy-IsUtf8,
}
use auxtools.Strings.Closing.{closes, shown-closes}

-- What a byte after a backslash stands for.
abbrev pub unescaped : ℕ → ℕ
unescaped c = if c == b'n' then newline else if c == b'r' then carriage_return else c

-- A literal is read up to the quote that ends it. `escaped` says that
-- the last byte was a backslash. The result is the bytes and what is left.
unfoldable pub read : (escaped : Bool) → Text → Option (List ℕ × Text)
read escaped [] = none
read true (c ∷ rest) =
    let more = read false rest in
    elim more [ none ↦ none | some (bytes, left) ↦ some (unescaped c ∷ bytes, left) ]
read false (c ∷ rest) =
    let hidden = read true rest in
    let more = read false rest in
    if c == quote
    then some ([], rest)
    else if c == backslash
    then hidden
    else (elim more [ none ↦ none | some (bytes, left) ↦ some (c ∷ bytes, left) ])

unfoldable pub read_literal : Text → Option (List ℕ × Text)
unfolding read
read_literal [] = none
read_literal (c ∷ rest) = let more = read false rest in if c == quote then more else none

-- Bytes that have no format specifiers.
abbrev pub IsPlain : List ℕ → Type 0
IsPlain [] = Unit
IsPlain (b ∷ bytes) = (b ≢ 0xff) × IsPlain bytes

read-show_byte :
    (b : ℕ) (rest : Text) (bytes : List ℕ) (left : Text)
    → read false rest ≡ some (bytes, left)
    → read false (show_byte b ++ rest) ≡ some (b ∷ bytes, left)
unfolding read show_byte
read-show_byte b rest bytes left h = ground arith

read_end : (rest : Text) → read false (quote ∷ rest) ≡ some ([], rest)
unfolding read
read_end rest = ground arith

read-format :
    (bytes : List ℕ) (rest : Text)
    → IsPlain bytes
    → read false (format false bytes ++ quote ∷ rest) ≡ some (bytes, rest)
unfolding format
read-format [] rest h = read_end rest
read-format (b ∷ bytes) rest (not_marked, plain) =
    let shown : format false (b ∷ bytes) ≡ show_byte b ++ format false bytes =
      ground (arith, not_marked) in
    ap (λ t. read false (t ++ quote ∷ rest)) shown
    ∙ ap (read false) (append_assoc (show_byte b) (format false bytes) (quote ∷ rest))
    ∙ read-show_byte b (format false bytes ++ quote ∷ rest) bytes rest
        (read-format bytes rest plain)

-- UTF-8 has no byte 0xFF.
IsUtf8-IsPlain : {t : Text} → IsUtf8 t → IsPlain t
IsUtf8-IsPlain no_more = tt
IsUtf8-IsPlain (ascii a h u) = (λ e. omega (arith, h, e), IsUtf8-IsPlain u)
IsUtf8-IsPlain (two_bytes a b h k (m, n) u) =
    (λ e. omega (arith, k, e), (λ e. omega (arith, n, e), IsUtf8-IsPlain u))
IsUtf8-IsPlain (three_bytes a b c h k first surrogate (m, n) (o, p) u) = (
  λ e. omega (arith, k, e),
  (λ e. omega (arith, n, e), (λ e. omega (arith, p, e), IsUtf8-IsPlain u)),
)
IsUtf8-IsPlain (four_bytes a b c d h k first last (m, n) (o, p) (q, r) u) = (
  λ e. omega (arith, k, e),
  (
    λ e. omega (arith, n, e),
    (λ e. omega (arith, p, e), (λ e. omega (arith, r, e), IsUtf8-IsPlain u)),
  ),
)

-- A byte of ASCII is shown as itself, or as a backslash and one of them.
shown_as :
    (b : ℕ)
    → b < 0x80
    → (show_byte b ≡ b ∷ []) ⊎ ((c : ℕ) × (c < 0x80) × (show_byte b ≡ backslash ∷ c ∷ []))
unfolding show_byte
shown_as b h = elim (Bool-cases (b == newline)) [
  | inl e ↦ inr (b'n', omega arith, ground (arith, e))
  | inr e ↦ elim (Bool-cases (b == carriage_return)) [
    | inl f ↦ inr (b'r', omega arith, ground (arith, e, f))
    | inr f ↦ elim (Bool-cases (is_special b)) [
      | inl g ↦ inr (b, h, ground (arith, e, f, g))
      | inr g ↦ inl (ground (arith, e, f, g))
    ]
  ]
]

show_byte-IsUtf8 : {t : Text} (b : ℕ) → b < 0x80 → IsUtf8 t → IsUtf8 (show_byte b ++ t)
show_byte-IsUtf8 {t} b h u = elim (shown_as b h) [
  | inl e ↦ subst (λ (s : Text). IsUtf8 (s ++ t)) (sym e) (ascii b h u)
  | inr (c, low, e) ↦
      subst (λ (s : Text). IsUtf8 (s ++ t)) (sym e) (ascii backslash (omega arith) (ascii c low u))
]

format_done : IsUtf8 (format false [])
unfolding format
format_done = no_more

format_high : (b : ℕ) (t : List ℕ) → 0x80 ≤ b → b < 0xff → format false (b ∷ t) ≡ b ∷ format false t
unfolding format show_byte
format_high b t h k = ground (arith, h, k)

format_low : (b : ℕ) (t : List ℕ) → b < 0x80 → format false (b ∷ t) ≡ show_byte b ++ format false t
unfolding format
format_low b t h = ground (arith, h)

-- What is shown of a text that is UTF-8 is so too.
format-IsUtf8 : {t : List ℕ} → IsUtf8 t → IsUtf8 (format false t)
format-IsUtf8 no_more = format_done
format-IsUtf8 (ascii {t} b h u) =
    subst IsUtf8 (sym (format_low b t h)) (show_byte-IsUtf8 b h (format-IsUtf8 u))
format-IsUtf8 (two_bytes {t} a b h k (m, n) u) =
    subst IsUtf8
      (sym (
        format_high a (b ∷ t) (omega (arith, h)) (omega (arith, k))
        ∙ ap (λ r. a ∷ r) (format_high b t m (omega (arith, n)))))
      (two_bytes a b h k (m, n) (format-IsUtf8 u))
format-IsUtf8 (three_bytes {t} a b c h k first surrogate (m, n) (o, p) u) =
    subst IsUtf8
      (sym (
        format_high a (b ∷ c ∷ t) (omega (arith, h)) (omega (arith, k))
        ∙ ap (λ r. a ∷ r) (format_high b (c ∷ t) m (omega (arith, n)))
        ∙ ap (λ r. a ∷ b ∷ r) (format_high c t o (omega (arith, p)))))
      (three_bytes a b c h k first surrogate (m, n) (o, p) (format-IsUtf8 u))
format-IsUtf8 (four_bytes {t} a b c d h k first last (m, n) (o, p) (q, r) u) =
    subst IsUtf8
      (sym (
        format_high a (b ∷ c ∷ d ∷ t) (omega (arith, h)) (omega (arith, k))
        ∙ ap (λ r. a ∷ r) (format_high b (c ∷ d ∷ t) m (omega (arith, n)))
        ∙ ap (λ r. a ∷ b ∷ r) (format_high c (d ∷ t) o (omega (arith, p)))
        ∙ ap (λ r. a ∷ b ∷ c ∷ r) (format_high d t q (omega (arith, r)))))
      (four_bytes a b c d h k first last (m, n) (o, p) (q, r) (format-IsUtf8 u))

-- A string that is UTF-8 is shown as a literal: read back, it is the string, and the literal ends
-- where what is shown ends, whatever follows it. (A string with format specifiers is not UTF-8.)
pub read_literal-fmt :
    (bytes : List ℕ) (rest : Text)
    → IsUtf8 bytes
    → read_literal (fmt bytes ++ rest) ≡ some (bytes, rest)
unfolding read_literal fmt
read_literal-fmt bytes rest h =
    let kept = from_utf8_lossy-IsUtf8 (format-IsUtf8 h) in
    ap (λ shown. read false ((shown ++ quote ∷ []) ++ rest)) kept
    ∙ ap (read false) (append_assoc (format false bytes) (quote ∷ []) rest)
    ∙ read-format bytes rest (IsUtf8-IsPlain h)

-- The rest of the literal is read, up to its end.
abbrev pub Reads : Bool → Text → Text → Type 0
Reads escaped t left = (bytes : List ℕ) × (read escaped t ≡ some (bytes, left))

closes-Reads :
    (escaped : Bool) (t rest left : Text)
    → closes escaped t ≡ true
    → Reads false rest left
    → Reads escaped (t ++ rest) left
unfolding read
closes-Reads true [] rest left h more = absurd (ground arith)
closes-Reads false [] rest left h more = more
closes-Reads true (c ∷ t) rest left h more =
    let (bytes, e) = closes-Reads false t rest left h more in
    (unescaped c ∷ bytes, ground (arith, e))
closes-Reads false (c ∷ t) rest left h more = elim (Bool-cases (c == backslash)) [
  | inl open_slash ↦
      let (bytes, e) = closes-Reads true t rest left (ground arith) more in
      (bytes, ground (arith, e))
  | inr other ↦
      let (bytes, e) = closes-Reads false t rest left (ground arith) more in
      (c ∷ bytes, ground (arith, e))
]

-- Every string, with whatever format specifiers and bytes that are not UTF-8, is shown as one literal:
-- it ends where what is shown ends, whatever follows it.
pub fmt_one_literal :
    (bytes : List ℕ) (rest : Text)
    → (read_as : List ℕ) × (read_literal (fmt bytes ++ rest) ≡ some (read_as, rest))
unfolding read_literal fmt
fmt_one_literal bytes rest =
    let shown = from_utf8_lossy (format false bytes) in
    let (read_as, e) =
      closes-Reads false shown (quote ∷ rest) rest (shown-closes bytes) ([], read_end rest) in
    (read_as, ap (read false) (append_assoc shown (quote ∷ []) rest) ∙ e)
