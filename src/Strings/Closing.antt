-- ===== src/Strings/Closing.antt =====
-- auxtools/src/string.rs: what is shown of a string neither ends its literal nor leaves a backslash open,
-- also where bytes are replaced that are not UTF-8.
use auxtools.Base.{
  ℕ, zero, suc, ◌≡◌, ◌≤◌, refl, subst, Bool, true, false, not, Option, none, some, List, [], ◌∷◌,
  ◌++◌, arith, ◌==◌, if◌then◌else◌, Text, Bool-cases, Option-cases, inl, inr, ◌&&◌, get_elem?, leb,
  ltb,
}
use auxtools.Strings.{backslash, quote, show_byte, format, specifier, specifiers}
use auxtools.Strings.Utf8.{
  replacement, Wanted, wanted, is_within, lead, Scan, between, inside, start, go_on, take_byte,
  scan_bytes, from_utf8_lossy,
}

-- A text that neither ends the literal nor leaves a backslash open.
abbrev pub closes : (escaped : Bool) → Text → Bool
closes escaped [] = not escaped
closes true (c ∷ rest) = closes false rest
closes false (c ∷ rest) =
    let hidden = closes true rest in
    let more = closes false rest in
    if c == quote then false else if c == backslash then hidden else more

closes-append :
    (escaped : Bool) (s t : Text)
    → closes escaped s ≡ true
    → closes false t ≡ true
    → closes escaped (s ++ t) ≡ true
closes-append true [] t h k = absurd (ground arith)
closes-append false [] t h k = k
closes-append true (c ∷ s) t h k = closes-append false s t h k
closes-append false (c ∷ s) t h k = elim (Bool-cases (c == backslash)) [
  | inl e ↦ ground (arith, e, h, closes-append true s t (ground arith) k)
  | inr e ↦ ground (arith, e, h, closes-append false s t (ground arith) k)
]

abbrev all_close : List Text → Bool
all_close [] = true
all_close (t ∷ ts) = closes false t && all_close ts

closes_of_get :
    (ts : List Text) (i : ℕ) (t : Text)
    → all_close ts ≡ true
    → get_elem? ts i ≡ some t
    → closes false t ≡ true
closes_of_get [] i t h e = absurd (ground arith)
closes_of_get (u ∷ ts) zero t h e = ground arith
closes_of_get (u ∷ ts) (suc i) t h e = closes_of_get ts i t (ground arith) e

specifiers_close : all_close specifiers ≡ true
specifiers_close = refl

specifier-closes : (c : ℕ) → closes false (specifier c) ≡ true
unfolding specifier
specifier-closes c = elim (Option-cases (get_elem? specifiers c)) [
  | inl e ↦ ground (arith, e)
  | inr (t, e) ↦ ground (arith, e, closes_of_get specifiers c t specifiers_close e)
]

show_byte-closes : (b : ℕ) → closes false (show_byte b) ≡ true
unfolding show_byte
show_byte-closes b = ground arith

format-closes : (marked : Bool) (bytes : List ℕ) → closes false (format marked bytes) ≡ true
unfolding format
format-closes true [] = refl
format-closes false [] = refl
format-closes true (c ∷ bytes) =
    closes-append false (specifier c) (format false bytes) (specifier-closes c)
      (format-closes false bytes)
format-closes false (b ∷ bytes) = elim (Bool-cases (b == 0xff)) [
  | inl here ↦ ground (arith, here, format-closes true bytes)
  | inr other ↦
      let shown : show_byte b ++ format false bytes ≡ format false (b ∷ bytes) =
        ground (arith, other) in
      subst (λ t. closes false t ≡ true) shown
        (closes-append false (show_byte b) (format false bytes) (show_byte-closes b)
          (format-closes false bytes))
]

-- Bytes that are not ASCII.
abbrev all_high : Text → Bool
all_high [] = true
all_high (c ∷ t) = leb 0x80 c && all_high t

-- At least one of them.
abbrev is_opaque : Text → Bool
is_opaque [] = false
is_opaque (c ∷ t) = leb 0x80 c && all_high t

high_then : (u t : Text) → all_high u ≡ true → closes false t ≡ true → closes false (u ++ t) ≡ true
high_then [] t h k = k
high_then (c ∷ u) t h k = ground (arith, h, high_then u t (ground arith) k)

-- The first of them may stand after a backslash.
opaque_then :
    (escaped : Bool) (u t : Text)
    → is_opaque u ≡ true
    → closes false t ≡ true
    → closes escaped (u ++ t) ≡ true
opaque_then escaped [] t h k = absurd (ground arith)
opaque_then true (c ∷ u) t h k = high_then u t (ground arith) k
opaque_then false (c ∷ u) t h k = ground (arith, h, high_then u t (ground arith) k)

all_high-end : (u : Text) (c : ℕ) → all_high u ≡ true → 0x80 ≤ c → all_high (u ++ c ∷ []) ≡ true
all_high-end [] c h k = ground (arith, k)
all_high-end (d ∷ u) c h k = ground (arith, h, all_high-end u c (ground arith) k)

is_opaque-end : (u : Text) (c : ℕ) → is_opaque u ≡ true → 0x80 ≤ c → is_opaque (u ++ c ∷ []) ≡ true
is_opaque-end [] c h k = absurd (ground arith)
is_opaque-end (d ∷ u) c h k = ground (arith, h, all_high-end u c (ground arith) k)

-- A byte that is not ASCII neither ends the literal nor opens an escape.
high_next :
    (escaped : Bool) (c : ℕ) (t : Text)
    → 0x80 ≤ c
    → closes escaped (c ∷ t) ≡ true
    → closes false t ≡ true
high_next true c t h k = k
high_next false c t h k = ground (arith, h, k)

-- What is left closes, read from where the bytes that are held stand.
abbrev Safe : Scan → Bool → Text → Type 0
Safe between escaped t = closes escaped t ≡ true
Safe (inside held w) escaped t = (is_opaque held ≡ true) × (0x80 ≤ w.low) × (closes false t ≡ true)

lead_low : (c : ℕ) (w : Wanted) → lead c ≡ some w → 0x80 ≤ w.low
unfolding lead
lead_low c w h = ground (arith, h)

abbrev ScanCloses : Text → Type 0
ScanCloses t =
    (s : Scan) (escaped : Bool) → Safe s escaped t → closes escaped (scan_bytes s t) ≡ true

start-closes :
    (t : Text)
    → ScanCloses t
    → (c : ℕ) (escaped : Bool) → closes escaped (c ∷ t) ≡ true
    → closes escaped ((start c).0 ++ scan_bytes (start c).1 t) ≡ true
unfolding start
start-closes t ih c escaped h = elim (Bool-cases (ltb c 0x80)) [
  | inl low ↦
      let e : ◌≡◌ {A = Text × Scan} (c ∷ [], between) (start c) = ground (arith, low) in
      subst (λ (x : Text × Scan). closes escaped (x.0 ++ scan_bytes x.1 t) ≡ true) e
        (plain escaped h)
  | inr high ↦
      let e : led (lead c) ≡ start c = ground (arith, high) in
      subst (λ (x : Text × Scan). closes escaped (x.0 ++ scan_bytes x.1 t) ≡ true) e
        (by_lead (lead c) refl (ground (arith, high)))
]
  where
    led : Option Wanted → Text × Scan
    led o = elim o as (λ _. Text × Scan) [
      | none ↦ (replacement, between)
      | some w ↦ ([], inside (c ∷ []) w)
    ]

    plain : (e : Bool) → closes e (c ∷ t) ≡ true → closes e (c ∷ scan_bytes between t) ≡ true
    plain true k = ih between false k
    plain false k = elim (Bool-cases (c == backslash)) [
      | inl slash ↦ ground (arith, slash, k, ih between true (ground arith))
      | inr other ↦ ground (arith, other, k, ih between false (ground arith))
    ]

    by_lead :
        (o : Option Wanted)
        → lead c ≡ o
        → 0x80 ≤ c
        → closes escaped ((led o).0 ++ scan_bytes (led o).1 t) ≡ true
    by_lead none e k =
        opaque_then escaped replacement (scan_bytes between t) refl
          (ih between false (high_next escaped c t k h))
    by_lead (some w) e k =
        ih (inside (c ∷ []) w) escaped
          (ground (arith, k), lead_low c w e, high_next escaped c t k h)

go_on-closes :
    (t : Text)
    → ScanCloses t
    → (held : Text) (n : ℕ) (escaped : Bool) → is_opaque held ≡ true
    → closes false t ≡ true
    → closes escaped ((go_on held n).0 ++ scan_bytes (go_on held n).1 t) ≡ true
go_on-closes t ih held zero escaped h k =
    opaque_then escaped held (scan_bytes between t) h (ih between false k)
go_on-closes t ih held (suc n) escaped h k =
    ih (inside held (wanted 0x80 0xbf n)) escaped (h, omega arith, k)

scan-closes : (t : Text) → ScanCloses t
unfolding scan_bytes take_byte
scan-closes [] between escaped h = h
scan-closes [] (inside held w) true h = refl
scan-closes [] (inside held w) false h = refl
scan-closes (c ∷ t) between escaped h = start-closes t (scan-closes t) c escaped h
scan-closes (c ∷ t) (inside held w) escaped (h, l, k) = elim (Bool-cases (is_within w c)) [
  | inl fits ↦
      let high : 0x80 ≤ c = ground (arith, fits, l) in
      let e : go_on (held ++ c ∷ []) w.after ≡ take_byte (inside held w) c = ground (arith, fits) in
      subst (λ (x : Text × Scan). closes escaped (x.0 ++ scan_bytes x.1 t) ≡ true) e
        (go_on-closes t (scan-closes t) (held ++ c ∷ []) w.after escaped
          (is_opaque-end held c h high) (high_next false c t high k))
  | inr breaks ↦
      let e : ◌≡◌ {A = Text × Scan} (replacement ++ (start c).0, (start c).1)
          (take_byte (inside held w) c) =
        ground (arith, breaks) in
      subst (λ (x : Text × Scan). closes escaped (x.0 ++ scan_bytes x.1 t) ≡ true) e
        (opaque_then escaped replacement ((start c).0 ++ scan_bytes (start c).1 t) refl
          (start-closes t (scan-closes t) c false k))
]

-- What is shown, between its quotes.
pub shown-closes : (bytes : List ℕ) → closes false (from_utf8_lossy (format false bytes)) ≡ true
unfolding from_utf8_lossy
shown-closes bytes = scan-closes (format false bytes) between false (format-closes false bytes)
