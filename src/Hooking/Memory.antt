-- ===== src/Hooking/Memory.antt =====
-- Writing and reading runs of words, address by address.
use auxtools.Base.{
  ℕ, zero, suc, ◌+◌, ◌-◌, ◌≤◌, ◌<◌, ◌≡◌, refl, ap, ◌⊎◌, inl, inr, some, List, arith, length,
  get_elem?, get_elem?-some, get_elem?-none, list_ext,
}
use auxtools.Hooking.{Memory, write_words, read_words, break_words}

-- The address lies in the run of `n` words at `p`.
pub record Within (a p n : ℕ) : Type 0 where
  pub above : p ≤ a
  pub below : a < p + n

abbrev pub Outside : ℕ → ℕ → ℕ → Type 0
Outside a p n = (a < p) ⊎ (p + n ≤ a)

pub Within-cases : (a p n : ℕ) → Within a p n ⊎ Outside a p n
Within-cases a p n = grind arith

pub write_words-in :
    (m : Memory) (p : ℕ) (ws : List ℕ) (a : ℕ)
    → Within a p (length ws)
    → get_elem? ws (a - p) ≡ some (write_words m p ws a)
unfolding write_words
write_words-in m p ws a w = let (v, e) = get_elem?-some ws (a - p) (omega arith) in ground arith

pub write_words-out :
    (m : Memory) (p : ℕ) (ws : List ℕ) (a : ℕ)
    → Outside a p (length ws)
    → write_words m p ws a ≡ m a
unfolding write_words
write_words-out m p ws a (inl h) = ground arith
write_words-out m p ws a (inr h) = ground (arith, get_elem?-none ws (a - p))

pub write_words-cong :
    (m m' : Memory) (p : ℕ) (ws : List ℕ) (a : ℕ)
    → m a ≡ m' a
    → write_words m p ws a ≡ write_words m' p ws a
unfolding write_words
write_words-cong m m' p ws a h = ground arith

pub length-read_words : (m : Memory) (p n : ℕ) → length (read_words m p n) ≡ n
unfolding read_words
length-read_words m p zero = refl
length-read_words m p (suc n) = ap suc (length-read_words m (p + 1) n)

pub length-break_words : (n : ℕ) → length (break_words n) ≡ n
unfolding break_words
length-break_words zero = refl
length-break_words (suc n) = ap suc (length-break_words n)

pub get_elem?-read_words :
    (m : Memory) (p n i : ℕ) → i < n → get_elem? (read_words m p n) i ≡ some (m (p + i))
unfolding read_words
get_elem?-read_words m p zero i h = absurd (omega arith)
get_elem?-read_words m p (suc n) zero h = ap (λ a. some (m a)) (omega arith)
get_elem?-read_words m p (suc n) (suc i) h =
    let e : p + suc i ≡ (p + 1) + i = omega arith in
    rw e (get_elem?-read_words m (p + 1) n i (omega arith))

pub read_words-cong :
    (m m' : Memory) (p n : ℕ)
    → ((a : ℕ) → Within a p n → m a ≡ m' a)
    → read_words m p n ≡ read_words m' p n
unfolding read_words
read_words-cong m m' p zero h = refl
read_words-cong m m' p (suc n) h =
    let first : m p ≡ m' p = h p (omega arith) in
    let rest = read_words-cong m m' (p + 1) n (λ a w. h a (omega arith)) in cc

-- What has just been written is read back.
pub read-write_words :
    (m : Memory) (p : ℕ) (ws : List ℕ) → read_words (write_words m p ws) p (length ws) ≡ ws
read-write_words m p ws =
    list_ext (read_words (write_words m p ws) p (length ws)) ws
      (length-read_words (write_words m p ws) p (length ws))
      λ i h. ground (
        arith,
        get_elem?-read_words (write_words m p ws) p (length ws) i,
        length-read_words (write_words m p ws) p (length ws),
        write_words-in m p ws (p + i)
            (omega (arith, length-read_words (write_words m p ws) p (length ws))),
      )
