-- ===== src/Strings/Valid.antt =====
-- auxtools/src/string.rs: texts that are UTF-8, which `from_utf8_lossy` leaves as they are.
use auxtools.Base.{
  ℕ, suc, ◌≡◌, ◌<◌, ◌≤◌, refl, ap, ◌∙◌, some, [], ◌∷◌, ◌++◌, arith, ◌==◌, Text, Bool-cases, inl,
  inr,
}
use auxtools.Strings.Utf8.{
  Wanted, wanted, lead, between, inside, start, take_byte, scan_bytes, from_utf8_lossy,
}

-- A byte that continues a character.
abbrev pub IsContinuing : ℕ → Type 0
IsContinuing c = (0x80 ≤ c) × (c < 0xc0)

-- Texts of characters that are written shortest, without surrogates and up to U+10FFFF.
pub data IsUtf8 : Text → Type 0 where
  no_more : IsUtf8 []
  ascii : {t : Text} (a : ℕ) → a < 0x80 → IsUtf8 t → IsUtf8 (a ∷ t)
  two_bytes :
      {t : Text} (a b : ℕ) → 0xc2 ≤ a → a < 0xe0 → IsContinuing b → IsUtf8 t → IsUtf8 (a ∷ b ∷ t)
  three_bytes :
      {t : Text} (a b c : ℕ)
      → 0xe0 ≤ a
      → a < 0xf0
      → (a ≡ 0xe0 → 0xa0 ≤ b)
      → (a ≡ 0xed → b < 0xa0)
      → IsContinuing b
      → IsContinuing c
      → IsUtf8 t
      → IsUtf8 (a ∷ b ∷ c ∷ t)
  four_bytes :
      {t : Text} (a b c d : ℕ)
      → 0xf0 ≤ a
      → a < 0xf5
      → (a ≡ 0xf0 → 0x90 ≤ b)
      → (a ≡ 0xf4 → b < 0x90)
      → IsContinuing b
      → IsContinuing c
      → IsContinuing d
      → IsUtf8 t
      → IsUtf8 (a ∷ b ∷ c ∷ d ∷ t)

scan_done : scan_bytes between [] ≡ []
unfolding scan_bytes
scan_done = refl

scan_ascii : (a : ℕ) (t : Text) → a < 0x80 → scan_bytes between (a ∷ t) ≡ a ∷ scan_bytes between t
unfolding scan_bytes take_byte start
scan_ascii a t h = ground (arith, h)

scan_lead :
    (a : ℕ) (w : Wanted) (t : Text)
    → 0x80 ≤ a
    → lead a ≡ some w
    → scan_bytes between (a ∷ t) ≡ scan_bytes (inside (a ∷ []) w) t
unfolding scan_bytes take_byte start
scan_lead a w t h e = ground (arith, h, e)

scan_last :
    (held : Text) (low high c : ℕ) (t : Text)
    → low ≤ c
    → c ≤ high
    → scan_bytes (inside held (wanted low high 0)) (c ∷ t)
      ≡ (held ++ c ∷ []) ++ scan_bytes between t
unfolding scan_bytes take_byte
scan_last held low high c t h k = ground (arith, h, k)

scan_next :
    (held : Text) (low high n c : ℕ) (t : Text)
    → low ≤ c
    → c ≤ high
    → scan_bytes (inside held (wanted low high (suc n))) (c ∷ t)
      ≡ scan_bytes (inside (held ++ c ∷ []) (wanted 0x80 0xbf n)) t
unfolding scan_bytes take_byte
scan_next held low high n c t h k = ground (arith, h, k)

lead_two : (a : ℕ) → 0xc2 ≤ a → a < 0xe0 → lead a ≡ some (wanted 0x80 0xbf 0)
unfolding lead
lead_two a h k = ground (arith, h, k)

-- The bounds for the byte after the first of three.
lead_three :
    (a b : ℕ)
    → 0xe0 ≤ a
    → a < 0xf0
    → (a ≡ 0xe0 → 0xa0 ≤ b)
    → (a ≡ 0xed → b < 0xa0)
    → IsContinuing b
    → (low : ℕ) × (high : ℕ) × (lead a ≡ some (wanted low high 1)) × (low ≤ b) × (b ≤ high)
unfolding lead
lead_three a b h k first surrogate (m, n) = elim (Bool-cases (a == 0xe0)) [
  | inl e ↦ (0xa0, 0xbf, ground (arith, h, k, e), first (ground (arith, e)), omega (arith, n))
  | inr e ↦ elim (Bool-cases (a == 0xed)) [
    | inl f ↦ (
      0x80,
      0x9f,
      ground (arith, h, k, e, f),
      m,
      (let l : b < 0xa0 = surrogate (ground (arith, f)) in omega (arith, l)),
    )
    | inr f ↦ (0x80, 0xbf, ground (arith, h, k, e, f), m, omega (arith, n))
  ]
]

lead_four :
    (a b : ℕ)
    → 0xf0 ≤ a
    → a < 0xf5
    → (a ≡ 0xf0 → 0x90 ≤ b)
    → (a ≡ 0xf4 → b < 0x90)
    → IsContinuing b
    → (low : ℕ) × (high : ℕ) × (lead a ≡ some (wanted low high 2)) × (low ≤ b) × (b ≤ high)
unfolding lead
lead_four a b h k first last (m, n) = elim (Bool-cases (a == 0xf0)) [
  | inl e ↦ (0x90, 0xbf, ground (arith, h, k, e), first (ground (arith, e)), omega (arith, n))
  | inr e ↦ elim (Bool-cases (a == 0xf4)) [
    | inl f ↦ (
      0x80,
      0x8f,
      ground (arith, h, k, e, f),
      m,
      (let l : b < 0x90 = last (ground (arith, f)) in omega (arith, l)),
    )
    | inr f ↦ (0x80, 0xbf, ground (arith, h, k, e, f), m, omega (arith, n))
  ]
]

pub from_utf8_lossy-IsUtf8 : {t : Text} → IsUtf8 t → from_utf8_lossy t ≡ t
unfolding from_utf8_lossy
from_utf8_lossy-IsUtf8 no_more = scan_done
from_utf8_lossy-IsUtf8 (ascii {t} a h u) =
    scan_ascii a t h ∙ ap (λ r. a ∷ r) (from_utf8_lossy-IsUtf8 u)
from_utf8_lossy-IsUtf8 (two_bytes {t} a b h k (m, n) u) =
    scan_lead a (wanted 0x80 0xbf 0) (b ∷ t) (omega (arith, h)) (lead_two a h k)
    ∙ scan_last (a ∷ []) 0x80 0xbf b t m (omega (arith, n))
    ∙ ap (λ r. a ∷ b ∷ r) (from_utf8_lossy-IsUtf8 u)
from_utf8_lossy-IsUtf8 (three_bytes {t} a b c h k first surrogate cb (m, n) u) =
    let (low, high, e, f, g) = lead_three a b h k first surrogate cb in
    scan_lead a (wanted low high 1) (b ∷ c ∷ t) (omega (arith, h)) e
    ∙ scan_next (a ∷ []) low high 0 b (c ∷ t) f g
    ∙ scan_last (a ∷ b ∷ []) 0x80 0xbf c t m (omega (arith, n))
    ∙ ap (λ r. a ∷ b ∷ c ∷ r) (from_utf8_lossy-IsUtf8 u)
from_utf8_lossy-IsUtf8 (four_bytes {t} a b c d h k first last cb (m, n) (o, p) u) =
    let (low, high, e, f, g) = lead_four a b h k first last cb in
    scan_lead a (wanted low high 2) (b ∷ c ∷ d ∷ t) (omega (arith, h)) e
    ∙ scan_next (a ∷ []) low high 1 b (c ∷ d ∷ t) f g
    ∙ scan_next (a ∷ b ∷ []) 0x80 0xbf 0 c (d ∷ t) m (omega (arith, n))
    ∙ scan_last (a ∷ b ∷ c ∷ []) 0x80 0xbf d t o (omega (arith, p))
    ∙ ap (λ r. a ∷ b ∷ c ∷ d ∷ r) (from_utf8_lossy-IsUtf8 u)
