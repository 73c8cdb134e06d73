-- ===== src/Hooking/Shown.antt =====
-- The program behind the breakpoints: memory with every saved instruction laid over it.
use auxtools.Base.{
  ℕ, ◌+◌, ◌-◌, ◌≤◌, ◌<◌, ◌≡◌, ◌≢◌, refl, sym, ◌∙◌, ◌⊎◌, inl, inr, none, some, List, [], ◌∷◌, arith,
  length, get_elem?, lookup, remove, remove-none, nat_eq, Bool-cases, ◌==◌,
}
use auxtools.Hooking.{Memory, Originals, write_words}
use auxtools.Hooking.Memory.{Within, Outside, write_words-in, write_words-out, write_words-cong}

unfoldable pub shown : Memory → Originals → Memory
shown m [] = m
shown m ((p, ws) ∷ o) = write_words (shown m o) p ws

-- Two runs of words do not meet.
abbrev pub Disjoint : (p n q k : ℕ) → Type 0
Disjoint p n q k = (p + n ≤ q) ⊎ (q + k ≤ p)

-- No saved instruction meets the run of `n` words at `p`.
abbrev pub Clear : (p n : ℕ) → Originals → Type 0
Clear p n [] = Unit {0}
Clear p n ((q, ws) ∷ o) = Disjoint p n q (length ws) × Clear p n o

-- Saved instructions have at least one word and do not meet.
abbrev pub Separate : Originals → Type 0
Separate [] = Unit {0}
Separate ((p, ws) ∷ o) = (0 < length ws) × Clear p (length ws) o × Separate o

-- Memory that differs only under saved instructions shows the same program there.
pub shown-cong : (m m' : Memory) (o : Originals) (a : ℕ) → m a ≡ m' a → shown m o a ≡ shown m' o a
unfolding shown
shown-cong m m' [] a h = h
shown-cong m m' ((p, ws) ∷ o) a h =
    write_words-cong (shown m o) (shown m' o) p ws a (shown-cong m m' o a h)

write_words-same :
    (m m' : Memory) (p : ℕ) (ws : List ℕ) (a : ℕ)
    → Within a p (length ws)
    → write_words m p ws a ≡ write_words m' p ws a
write_words-same m m' p ws a w =
    ground (arith, write_words-in m p ws a w, write_words-in m' p ws a w)

pub shown-covered :
    (m m' : Memory) (o : Originals) (p : ℕ) (ws : List ℕ) (a : ℕ)
    → lookup p o ≡ some ws
    → Within a p (length ws)
    → shown m o a ≡ shown m' o a
unfolding shown
shown-covered m m' [] p ws a h w = ground arith
shown-covered m m' ((q, vs) ∷ o) p ws a h w = elim (Bool-cases (q == p)) [
  | inl hit ↦ write_words-same (shown m o) (shown m' o) q vs a (ground (arith, w.above, w.below))
  | inr miss ↦
      write_words-cong (shown m o) (shown m' o) q vs a
        (shown-covered m m' o p ws a (ground arith) w)
]

pub shown-Clear :
    (m : Memory) (o : Originals) (p n a : ℕ) → Clear p n o → Within a p n → shown m o a ≡ m a
unfolding shown
shown-Clear m [] p n a c w = refl
shown-Clear m ((q, vs) ∷ o) p n a (d, c) w =
    write_words-out (shown m o) q vs a (grind (arith, w.above, w.below)) ∙ shown-Clear m o p n a c w

pub lookup-Clear :
    (o : Originals) (p n q : ℕ) (ws : List ℕ)
    → Clear p n o
    → lookup q o ≡ some ws
    → Disjoint p n q (length ws)
lookup-Clear [] p n q ws c h = ground arith
lookup-Clear ((r, vs) ∷ o) p n q ws (d, c) h = ground (arith, lookup-Clear o p n q ws c)

pub lookup-length :
    (o : Originals) (q : ℕ) (ws : List ℕ) → Separate o → lookup q o ≡ some ws → 0 < length ws
lookup-length [] q ws s h = ground arith
lookup-length ((r, vs) ∷ o) q ws s h = ground (arith, lookup-length o q ws s.2)

-- Two saved instructions at different addresses do not meet.
pub lookup-Separate :
    (o : Originals) (p q : ℕ) (ws vs : List ℕ)
    → Separate o
    → lookup p o ≡ some ws
    → lookup q o ≡ some vs
    → p ≢ q
    → Disjoint p (length ws) q (length vs)
lookup-Separate [] p q ws vs s hp hq ne = ground arith
lookup-Separate ((r, us) ∷ o) p q ws vs s hp hq ne = ground (
  arith,
  lookup-Separate o p q ws vs s.2,
  lookup-Clear o r (length us) p ws s.1,
  lookup-Clear o r (length us) q vs s.1,
)

-- An address is not saved twice.
pub lookup-none : (o : Originals) (p n : ℕ) → 0 < n → Clear p n o → Separate o → lookup p o ≡ none
lookup-none [] p n h c s = refl
lookup-none ((q, vs) ∷ o) p n h c s = ground (arith, lookup-none o p n h c.1 s.2)

-- Under a saved instruction its words are shown.
pub shown-saved :
    (m : Memory) (o : Originals) (p : ℕ) (ws : List ℕ) (a : ℕ)
    → Separate o
    → lookup p o ≡ some ws
    → Within a p (length ws)
    → get_elem? ws (a - p) ≡ some (shown m o a)
unfolding shown
shown-saved m [] p ws a s h w = ground arith
shown-saved m ((q, vs) ∷ o) p ws a s h w = elim (Bool-cases (q == p)) [
  | inl hit ↦ ground (arith, w.above, w.below, write_words-in (shown m o) p ws a w)
  | inr miss ↦ ground (
    arith,
    w.above,
    w.below,
    lookup-Clear o q (length vs) p ws s.1,
    write_words-out (shown m o) q vs a,
    shown-saved m o p ws a s.2 (ground arith) w,
  )
]

-- Away from a saved instruction its removal shows the same program.
pub shown-remove :
    (m : Memory) (o : Originals) (p : ℕ) (ws : List ℕ) (a : ℕ)
    → Separate o
    → lookup p o ≡ some ws
    → Outside a p (length ws)
    → shown m (remove p o) a ≡ shown m o a
unfolding shown
shown-remove m [] p ws a s h w = ground arith
shown-remove m ((q, vs) ∷ o) p ws a s h w = elim (Bool-cases (q == p)) [
  | inl hit ↦
      let gone : lookup p o ≡ none = ground (arith, lookup-none o q (length vs) s.0 s.1 s.2) in
      rw (hit, remove-none p o gone) (sym (write_words-out (shown m o) q vs a (ground arith)))
  | inr miss ↦ rw miss (
      write_words-cong (shown m (remove p o)) (shown m o) q vs a
        (shown-remove m o p ws a s.2 (ground arith) w))
]
