-- ===== src/Sigscan/Scan.antt =====
-- The scan against a search that tests every position.
use auxtools.Base.{
  ℕ, zero, suc, ◌+◌, ◌-◌, ◌≤◌, ◌<◌, ◌≡◌, refl, ap, subst, ◌⊎◌, inl, inr, Bool, true, false, ◌&&◌,
  Option, none, some, [], ◌∷◌, arith, ◌==◌, length, get_elem?, Bool-cases,
}
use auxtools.Sigscan.{Signature, Outcome, done, panic, out_of_fuel, fits, scan}

-- The signature stands at `p`.
abbrev pub matches_at : (ℕ → ℕ) → Signature → ℕ → Bool
matches_at memory [] p = true
matches_at memory (w ∷ ws) p = fits w (memory p) && matches_at memory ws (p + 1)

-- A position whose bytes lie in the range that is read.
abbrev pub InRange : (start data_end n p : ℕ) → Type 0
InRange start data_end n p = (start ≤ p) × (p + n ≤ data_end + 1)

-- `result` is the only match among the positions from `start` up to `stop`.
abbrev pub Only : (ℕ → ℕ) → Signature → (start data_end stop : ℕ) → Option ℕ → Type 0
Only memory sig start data_end stop none =
    (q : ℕ) → start ≤ q → q < stop → matches_at memory sig q ≡ false
Only memory sig start data_end stop (some p) =
    InRange start data_end (length sig) p
    × (p < stop)
    × (matches_at memory sig p ≡ true)
    × ((q : ℕ) → start ≤ q → q < stop → matches_at memory sig q ≡ true → q ≡ p)

-- What the search says: the one match, or that there is none, or more than one.
abbrev pub Answer : (ℕ → ℕ) → Signature → (start data_end : ℕ) → Option ℕ → Type 0
Answer memory sig start data_end (some p) =
    InRange start data_end (length sig) p
    × (matches_at memory sig p ≡ true)
    × ((q : ℕ) → InRange start data_end (length sig) q → matches_at memory sig q ≡ true → q ≡ p)
Answer memory sig start data_end none =
    ((q : ℕ) → InRange start data_end (length sig) q → matches_at memory sig q ≡ false)
    ⊎ ((p q : ℕ) × InRange start data_end (length sig) p
        × InRange start data_end (length sig) q
        × (p < q)
        × (matches_at memory sig p ≡ true)
        × (matches_at memory sig q ≡ true))

-- The first `k` bytes of the signature stand at `p`.
pub Prefix : (ℕ → ℕ) → Signature → (p k : ℕ) → Type 0
Prefix memory sig p k =
    (i : ℕ) (w : Option ℕ) → i < k → get_elem? sig i ≡ some w → fits w (memory (p + i)) ≡ true

matches_of_Prefix :
    (memory : ℕ → ℕ) (sig : Signature) (p : ℕ)
    → Prefix memory sig p (length sig)
    → matches_at memory sig p ≡ true
unfolding Prefix
matches_of_Prefix memory [] p h = refl
matches_of_Prefix memory (w ∷ ws) p h =
    let e : p + 0 ≡ p = omega arith in
    let first : fits w (memory p) ≡ true =
      subst (λ a. fits w (memory a) ≡ true) e (h 0 w (omega arith) refl) in
    let rest = matches_of_Prefix memory ws (p + 1) (λ i v k g.
      let n : p + suc i ≡ p + 1 + i = omega arith in
      subst (λ a. fits v (memory a) ≡ true) n (h (suc i) v (omega arith) g)) in
    ground (arith, first, rest)

pub misfit :
    (memory : ℕ → ℕ) (sig : Signature) (p i : ℕ) (w : Option ℕ)
    → get_elem? sig i ≡ some w
    → fits w (memory (p + i)) ≡ false
    → matches_at memory sig p ≡ false
misfit memory [] p i w g h = ground arith
misfit memory (v ∷ ws) p zero w g h =
    let e : p + 0 ≡ p = omega arith in
    let bad : fits w (memory p) ≡ false = subst (λ a. fits w (memory a) ≡ false) e h in
    ground (arith, bad)
misfit memory (v ∷ ws) p (suc i) w g h =
    let n : p + suc i ≡ p + 1 + i = omega arith in
    ground (arith, misfit memory ws (p + 1) i w g (subst (λ a. fits w (memory a) ≡ false) n h))

abbrev pub Answered : (ℕ → ℕ) → Signature → (start data_end : ℕ) → Outcome → Type 0
Answered memory sig start data_end (done r) = Answer memory sig start data_end r
Answered memory sig start data_end panic = ⊥
Answered memory sig start data_end out_of_fuel = ⊥

module _ (memory : ℕ → ℕ) (sig : Signature) (start data_end : ℕ) where
  -- One more position that does not match.
  pub Only-skip :
      (stop : ℕ) (r : Option ℕ)
      → Only memory sig start data_end stop r
      → matches_at memory sig stop ≡ false
      → Only memory sig start data_end (stop + 1) r
  Only-skip stop none h miss = λ q a b. elim (Bool-cases (q == stop)) [
    | inl e ↦ ground (arith, e, miss)
    | inr ne ↦ h q a (ground arith)
  ]
  Only-skip stop (some p) (i, l, m, u) miss = (
    i,
    omega arith,
    m,
    λ q a b e. elim (Bool-cases (q == stop)) [
      | inl same ↦ ground (arith, same, miss)
      | inr ne ↦ u q a (ground arith) e
    ],
  )

  -- The first match.
  pub Only-first :
      (stop : ℕ)
      → Only memory sig start data_end stop none
      → InRange start data_end (length sig) stop
      → matches_at memory sig stop ≡ true
      → Only memory sig start data_end (stop + 1) (some stop)
  Only-first stop h i m = (
    i,
    omega arith,
    m,
    λ q a b e. elim (Bool-cases (q == stop)) [
      | inl same ↦ ground arith
      | inr ne ↦ absurd (ground (arith, h q a (ground arith)))
    ],
  )

  -- The search has passed every position of the range.
  pub Only-Answer :
      (stop : ℕ) (r : Option ℕ)
      → data_end + 1 < stop + length sig
      → Only memory sig start data_end stop r
      → Answer memory sig start data_end r
  Only-Answer stop none far h = inl (λ q i. h q i.0 (omega arith))
  Only-Answer stop (some p) far (i, l, m, u) = (i, m, λ q j e. u q j.0 (omega arith) e)

  module _ (fuel c offset : ℕ) (r : Option ℕ) where
    pub scan-end : data_end < c → scan (suc fuel) memory sig data_end c offset r ≡ done r
    unfolding scan
    scan-end h = ground arith

    module _ (w : Option ℕ) (inside : c ≤ data_end) (want : get_elem? sig offset ≡ some w) where
      pub scan-miss :
          fits w (memory c) ≡ false
          → scan (suc fuel) memory sig data_end c offset r
            ≡ scan fuel memory sig data_end (c - offset + 1) 0 r
      unfolding scan
      scan-miss h = ground arith

      pub scan-more :
          fits w (memory c) ≡ true
          → offset + 1 < length sig
          → scan (suc fuel) memory sig data_end c offset r
            ≡ scan fuel memory sig data_end (c + 1) (offset + 1) r
      unfolding scan
      scan-more h k = ground arith

      pub scan-last :
          fits w (memory c) ≡ true
          → length sig ≤ offset + 1
          → scan (suc fuel) memory sig data_end c offset r ≡ elim r [
            | some _ ↦ done none
            | none ↦ scan fuel memory sig data_end (c - offset + 1) 0 (some (c - offset))
          ]
      unfolding scan
      scan-last h k = ground arith

  pub Prefix-more :
      (base offset : ℕ) (w : Option ℕ)
      → Prefix memory sig base offset
      → get_elem? sig offset ≡ some w
      → fits w (memory (base + offset)) ≡ true
      → Prefix memory sig base (offset + 1)
  unfolding Prefix
  Prefix-more base offset w h g e i v k got = elim (Bool-cases (i == offset)) [
    | inl same ↦
        let n : i ≡ offset = ground arith in ground (arith, got, g, e, ap (get_elem? sig) n, n)
    | inr ne ↦ h i v (ground arith) got
  ]

  pub Prefix-zero : (base : ℕ) → Prefix memory sig base 0
  unfolding Prefix
  Prefix-zero base i v k got = absurd (omega arith)

  pub Prefix-full :
      (base offset : ℕ)
      → length sig ≤ offset + 1
      → offset < length sig
      → Prefix memory sig base (offset + 1)
      → matches_at memory sig base ≡ true
  Prefix-full base offset h k p =
      let n : offset + 1 ≡ length sig = omega arith in
      matches_of_Prefix memory sig base (subst (Prefix memory sig base) n p)
