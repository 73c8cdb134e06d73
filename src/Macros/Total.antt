-- ===== src/Macros/Total.antt =====
-- auxtools-impl/src/lib.rs: what `from_signature` makes of texts that are no signatures.
use auxtools.Base.{
  ℕ, suc, ◌+◌, ◌≤◌, ◌≡◌, ◌≢◌, refl, ap, ◌∙◌, Option, none, some, Option-cases, Bool-cases, inl, inr,
  List, [], ◌∷◌, ◌==◌, ==_iff, if◌then◌else◌, length, arith, Text, text_beq,
}
use auxtools.Sigscan.{Signature}
use auxtools.Macros.Signature.{
  trim, len, push_first, split, wildcard, signature_byte, signature_bytes, from_signature,
}

-- How often a text has a space.
abbrev pub spaces : Text → ℕ
spaces [] = 0
spaces (c ∷ s) = if c == b' ' then spaces s + 1 else spaces s

length-push_first : (c : ℕ) (ts : List Text) → 1 ≤ length ts → length (push_first c ts) ≡ length ts
length-push_first c [] h = absurd (omega (arith, h))
length-push_first c (t ∷ ts) h = refl

length-split : (s : Text) → length (split s) ≡ spaces s + 1
unfolding split
length-split [] = omega arith
length-split (c ∷ s) =
    ground (arith, length-split s, length-push_first c (split s) (omega (arith, length-split s)))

-- Two characters never decode to no byte at all.
abbrev pub IsDecoder : (Text → Option (List ℕ)) → Type 0
IsDecoder decode = (t : Text) → len t ≡ 2 → decode t ≢ some []

module _ (decode : Text → Option (List ℕ)) (h : IsDecoder decode) where
  signature_byte_total : (t : Text) → (p : Option ℕ) × (signature_byte decode t ≡ some p)
  unfolding signature_byte
  signature_byte_total t = elim (Bool-cases (len t == 2)) [
    | inr e ↦ (none, ground (arith, e))
    | inl e ↦ elim (Bool-cases (text_beq t wildcard)) [
      | inl f ↦ (none, ground (arith, e, f))
      | inr f ↦ elim (Option-cases (decode t)) [
        | inl g ↦ (none, ground (arith, e, f, g))
        | inr ([], g) ↦ absurd (h t ((==_iff (len t) 2).0 e) g)
        | inr (b ∷ bs, g) ↦ (some b, ground (arith, e, f, g))
      ]
    ]
  ]

  signature_bytes_total :
      (ts : List Text)
      → (ps : Signature) × (signature_bytes decode ts ≡ some ps) × (length ps ≡ length ts)
  unfolding signature_bytes
  signature_bytes_total [] = ([], refl, refl)
  signature_bytes_total (t ∷ ts) =
      let (p, e) = signature_byte_total (trim t) in
      let (ps, f, g) = signature_bytes_total ts in (p ∷ ps, ground (arith, e, f), ap suc g)

  -- Every text is read as a signature, with one element more than it has spaces once it is trimmed,
  -- if two characters never decode to no byte: no text fails the build.
  pub from_signature_total :
      (s : Text)
      → (ps : Signature) × (from_signature decode s ≡ some ps) × (length ps ≡ spaces (trim s) + 1)
  unfolding from_signature
  from_signature_total s =
      let (ps, e, f) = signature_bytes_total (split (trim s)) in (ps, e, f ∙ length-split (trim s))
