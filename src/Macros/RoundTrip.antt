-- ===== src/Macros/RoundTrip.antt =====
-- auxtools-impl/src/lib.rs: how a signature is written, with two digits for each byte, and what
-- `from_signature` makes of it.
use mathlib.Core.List.{reverse-cons, reverse-reverse}
use auxtools.Base.{
  ℕ, ◌+◌, ◌/◌, ◌%◌, ◌<◌, ◌≡◌, text_beq, refl, sym, ap, subst, map, ◌∙◌, false, Option, none, some,
  List, [], ◌∷◌, ◌++◌, reverse, ltb, ◌==◌, if◌then◌else◌, arith, Text,
}
use auxtools.Sigscan.{Signature}
use auxtools.Macros.Signature.{
  is_whitespace, trim_start, trim, len_utf8, len, split, wildcard, signature_byte, signature_bytes,
  from_signature,
}

abbrev pub hex_digit : ℕ → ℕ
hex_digit d = if ltb d 10 then 48 + d else 55 + d

-- A byte as two digits.
abbrev pub hex : ℕ → Text
hex b = hex_digit (b / 16) ∷ hex_digit (b % 16) ∷ []

abbrev pub piece : Option ℕ → Text
piece none = wildcard
piece (some b) = hex b

abbrev pub written : Signature → Text
written [] = []
written (p ∷ []) = piece p
written (p ∷ q ∷ ps) = piece p ++ (b' ' ∷ written (q ∷ ps))

abbrev pub IsSignature : Signature → Type 0
IsSignature [] = Unit
IsSignature (none ∷ ps) = IsSignature ps
IsSignature (some b ∷ ps) = (b < 256) × IsSignature ps

-- The decoder reads two digits as their byte.
abbrev pub IsHex : (Text → Option (List ℕ)) → Type 0
IsHex decode = (b : ℕ) → b < 256 → decode (hex b) ≡ some (b ∷ [])

-- A character that neither splits nor is trimmed, of one byte.
IsPlain : ℕ → Type 0
IsPlain c = (is_whitespace c ≡ false) × (c < 128) × ((c == b' ') ≡ false)

hex_digit-IsPlain : (d : ℕ) → d < 16 → IsPlain (hex_digit d)
unfolding IsPlain is_whitespace
hex_digit-IsPlain d h = (ground arith, ground arith, ground arith)

question-IsPlain : IsPlain b'?'
unfolding IsPlain is_whitespace
question-IsPlain = (refl, omega arith, refl)

-- A piece is two plain characters.
record IsPiece (t : Text) : Type 0 where
  left : ℕ
  right : ℕ
  same : t ≡ left ∷ right ∷ []
  left_plain : IsPlain left
  right_plain : IsPlain right

piece-IsPiece : (p : Option ℕ) (ps : Signature) → IsSignature (p ∷ ps) → IsPiece (piece p)
piece-IsPiece none ps h = record {
  left = b'?';
  right = b'?';
  same = refl;
  left_plain = question-IsPlain;
  right_plain = question-IsPlain;
}
piece-IsPiece (some b) ps (h, _) = record {
  left = hex_digit (b / 16);
  right = hex_digit (b % 16);
  same = refl;
  left_plain = hex_digit-IsPlain (b / 16) (omega (arith, h));
  right_plain = hex_digit-IsPlain (b % 16) (omega arith);
}

-- The last character is plain.
record IsEnding (t : Text) : Type 0 where
  last : ℕ
  before : Text
  ends : reverse t ≡ last ∷ before
  last_plain : IsPlain last

one-IsEnding : (d : ℕ) → IsPlain d → IsEnding (d ∷ [])
one-IsEnding d h = record { last = d; before = []; ends = refl; last_plain = h }

cons-IsEnding : (c : ℕ) (t : Text) → IsEnding t → IsEnding (c ∷ t)
cons-IsEnding c t h = record {
  last = h.last;
  before = h.before ++ (c ∷ []);
  ends = reverse-cons c t ∙ ap (λ s. s ++ (c ∷ [])) h.ends;
  last_plain = h.last_plain;
}

trim_start-plain : (c : ℕ) (s : Text) → IsPlain c → trim_start (c ∷ s) ≡ c ∷ s
unfolding IsPlain trim_start
trim_start-plain c s h = ground arith

trim_start-starts : (t : Text) (c : ℕ) (s : Text) → t ≡ c ∷ s → IsPlain c → trim_start t ≡ t
trim_start-starts t c s e h = ap trim_start e ∙ trim_start-plain c s h ∙ sym e

trim-plain : (t : Text) (c : ℕ) (s : Text) → t ≡ c ∷ s → IsPlain c → IsEnding t → trim t ≡ t
unfolding trim
trim-plain t c s e p h =
    ap (λ s. reverse (trim_start (reverse s))) (trim_start-starts t c s e p)
    ∙ ap reverse (trim_start-starts (reverse t) h.last h.before h.ends h.last_plain)
    ∙ reverse-reverse t

pieces-IsSignature : (p : Option ℕ) (ps : Signature) → IsSignature (p ∷ ps) → IsSignature ps
pieces-IsSignature none ps g = g
pieces-IsSignature (some b) ps (_, g) = g

piece-IsEnding : (t : Text) → IsPiece t → IsEnding t
piece-IsEnding t q =
    subst IsEnding (sym q.same) (cons-IsEnding q.left _ (one-IsEnding q.right q.right_plain))

written-IsEnding :
    (p : Option ℕ) (ps : Signature) → IsSignature (p ∷ ps) → IsEnding (written (p ∷ ps))
written-IsEnding p [] h = piece-IsEnding (piece p) (piece-IsPiece p [] h)
written-IsEnding p (q ∷ ps) h =
    let t = piece-IsPiece p (q ∷ ps) h in
    let rest = written-IsEnding q ps (pieces-IsSignature p (q ∷ ps) h) in
    subst (λ s. IsEnding (s ++ (b' ' ∷ written (q ∷ ps)))) (sym t.same)
      (cons-IsEnding t.left _ (cons-IsEnding t.right _ (cons-IsEnding b' ' _ rest)))

trim-written :
    (p : Option ℕ) (ps : Signature)
    → IsSignature (p ∷ ps)
    → trim (written (p ∷ ps)) ≡ written (p ∷ ps)
trim-written p ps h =
    let t = piece-IsPiece p ps h in
    let (s, e) = starts ps t in
    trim-plain (written (p ∷ ps)) t.left s e t.left_plain (written-IsEnding p ps h)
  where
    starts : (ps : Signature) (t : IsPiece (piece p)) → (s : Text) × (written (p ∷ ps) ≡ t.left ∷ s)
    starts [] t = (t.right ∷ [], t.same)
    starts (q ∷ ps) t =
        (t.right ∷ b' ' ∷ written (q ∷ ps), ap (λ s. s ++ (b' ' ∷ written (q ∷ ps))) t.same)

-- Splitting gives the pieces back.
split-piece : (t : Text) → IsPiece t → split t ≡ t ∷ []
unfolding split IsPlain
split-piece t q = ap split q.same ∙ ground (arith, q.left_plain, q.right_plain, q.same)

split-piece_space : (t rest : Text) → IsPiece t → split (t ++ (b' ' ∷ rest)) ≡ t ∷ split rest
unfolding split IsPlain
split-piece_space t rest q =
    ap (λ s. split (s ++ (b' ' ∷ rest))) q.same
    ∙ ground (arith, q.left_plain, q.right_plain, q.same)

split-written :
    (p : Option ℕ) (ps : Signature)
    → IsSignature (p ∷ ps)
    → split (written (p ∷ ps)) ≡ map piece (p ∷ ps)
split-written p [] h = split-piece (piece p) (piece-IsPiece p [] h)
split-written p (q ∷ ps) h =
    split-piece_space (piece p) (written (q ∷ ps)) (piece-IsPiece p (q ∷ ps) h)
    ∙ ap (λ ts. piece p ∷ ts) (split-written q ps (pieces-IsSignature p (q ∷ ps) h))

trim-piece : (t : Text) → IsPiece t → trim t ≡ t
trim-piece t q = trim-plain t q.left (q.right ∷ []) q.same q.left_plain (piece-IsEnding t q)

len-piece : (t : Text) → IsPiece t → len t ≡ 2
unfolding len len_utf8 IsPlain
len-piece t q = ap len q.same ∙ ground (arith, q.left_plain, q.right_plain)

hex_not_wildcard : (b : ℕ) → b < 256 → text_beq (hex b) wildcard ≡ false
hex_not_wildcard b h = ground arith

module _ (decode : Text → Option (List ℕ)) (h : IsHex decode) where
  signature_byte-piece :
      (p : Option ℕ) (ps : Signature)
      → IsSignature (p ∷ ps)
      → signature_byte decode (piece p) ≡ some p
  unfolding signature_byte len
  signature_byte-piece none ps g = refl
  signature_byte-piece (some b) ps (g, r) =
      ground
        (arith, len-piece (hex b) (piece-IsPiece (some b) ps (g, r)), hex_not_wildcard b g, h b g)

  signature_bytes-pieces :
      (ps : Signature) → IsSignature ps → signature_bytes decode (map piece ps) ≡ some ps
  unfolding signature_bytes
  signature_bytes-pieces [] g = refl
  signature_bytes-pieces (p ∷ ps) g = ground (
    arith,
    trim-piece (piece p) (piece-IsPiece p ps g),
    signature_byte-piece p ps g,
    signature_bytes-pieces ps (pieces-IsSignature p ps g),
  )

  -- A signature that is written with two digits for a byte, `??` for any byte and single spaces
  -- between them is read as itself, if it is not empty and the decoder reads two digits as their
  -- byte.
  pub from_signature-written :
      (p : Option ℕ) (ps : Signature)
      → IsSignature (p ∷ ps)
      → from_signature decode (written (p ∷ ps)) ≡ some (p ∷ ps)
  unfolding from_signature
  from_signature-written p ps g =
      rw (trim-written p ps g, split-written p ps g) (signature_bytes-pieces (p ∷ ps) g)
