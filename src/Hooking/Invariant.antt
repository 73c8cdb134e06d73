-- ===== src/Hooking/Invariant.antt =====
-- The invariant of the hooks, and the steps that put a lifted break back and lift one.
use auxtools.Base.{
  ℕ, ◌<◌, ◌≡◌, refl, sym, subst, ◌⊎◌, inl, inr, Option, none, some, List, arith, length, get_elem?,
  lookup, nat_eq, Bool-cases, Option-cases, ◌==◌,
}
use auxtools.Hooking.{
  Memory, Originals, Hooks, ok, opcode_debug_break, write_words, read_words, replace_deferred,
  lift_break,
}
use auxtools.Hooking.Memory.{
  Within-cases, write_words-out, length-read_words, read_words-cong, read-write_words,
  get_elem?-read_words,
}
use auxtools.Hooking.Shown.{
  shown, Clear, Separate, Disjoint, shown-cong, shown-covered, lookup-Separate, lookup-length,
}

-- A pending replacement is for a saved instruction, has its size, and begins with a break.
abbrev pub Pending : Originals → Option (List ℕ × ℕ) → Type 0
Pending o none = Unit {0}
Pending o (some (src, dst)) =
    (ws : List ℕ) × (lookup dst o ≡ some ws)
    × (length src ≡ length ws)
    × (get_elem? src 0 ≡ some opcode_debug_break)

-- The saved instruction `ws` at `p` is armed, or its break waits to be put back.
abbrev pub Armed : Hooks → ℕ → List ℕ → Type 0
Armed s p ws =
    (s.memory p ≡ opcode_debug_break)
    ⊎ ((src : List ℕ) × (s.deferred ≡ some (src, p)) × (read_words s.memory p (length ws) ≡ ws))

pub record Inv (s : Hooks) : Type 0 where
  pub separate : Separate s.original
  pub armed : (p : ℕ) (ws : List ℕ) → lookup p s.original ≡ some ws → Armed s p ws
  pub pending : Pending s.original s.deferred

-- What the disassembler promises of an instruction of `n` words at `p`: it has a word, and it is a
-- saved instruction or meets none.
abbrev pub Fits : Originals → (p n : ℕ) → Type 0
Fits o p n =
    (0 < n)
    × (((lookup p o ≡ none) × Clear p n o)
        ⊎ ((ws : List ℕ) × (lookup p o ≡ some ws) × (length ws ≡ n)))

-- A write that misses the run of words at `q` leaves it.
pub same_away :
    (m : Memory) (p : ℕ) (us : List ℕ) (q k : ℕ)
    → Disjoint p (length us) q k
    → read_words (write_words m p us) q k ≡ read_words m q k
same_away m p us q k d =
    read_words-cong (write_words m p us) m q k
      λ a w. write_words-out m p us a (grind (arith, w.above, w.below))

pub same_head :
    (m : Memory) (p : ℕ) (us : List ℕ) (q k : ℕ)
    → Disjoint p (length us) q k
    → 0 < k
    → 0 < length us
    → write_words m p us q ≡ m q
same_head m p us q k d h g = write_words-out m p us q (grind arith)

pub head_written :
    (m : Memory) (p : ℕ) (us : List ℕ) (w : ℕ) → get_elem? us 0 ≡ some w → write_words m p us p ≡ w
unfolding write_words
head_written m p us w h = ground arith

-- Words written over a saved instruction change nothing that is shown.
shown-over :
    (m : Memory) (o : Originals) (p : ℕ) (ws us : List ℕ) (a : ℕ)
    → lookup p o ≡ some ws
    → length us ≡ length ws
    → shown (write_words m p us) o a ≡ shown m o a
shown-over m o p ws us a h e = elim (Within-cases a p (length ws)) [
  | inl w ↦ shown-covered (write_words m p us) m o p ws a h w
  | inr w ↦ shown-cong (write_words m p us) m o a (write_words-out m p us a (rw e w))
]

-- What the pending replacement is for.
Pending-of :
    {s : Hooks} (src : List ℕ) (dst : ℕ)
    → Inv s
    → s.deferred ≡ some (src, dst)
    → Pending s.original (some (src, dst))
Pending-of {s} src dst v e = subst (Pending s.original) e v.pending

-- `t` is a good state that shows the program that `s` shows.
abbrev pub Keeps : Hooks → Hooks → Type 0
Keeps s t = Inv t × ((a : ℕ) → shown t.memory t.original a ≡ shown s.memory s.original a)

replace_nothing : (s : Hooks) → s.deferred ≡ none → replace_deferred s ≡ s
unfolding replace_deferred
replace_nothing s e = ground arith

replace_something :
    (s : Hooks) (src : List ℕ) (dst : ℕ)
    → s.deferred ≡ some (src, dst)
    → replace_deferred s
      ≡ record { memory = write_words s.memory dst src; original = s.original; deferred = none }
unfolding replace_deferred
replace_something s src dst e = ground arith

lift_none :
    (s : Hooks) (p : ℕ) (t : Hooks) → lookup p s.original ≡ none → lift_break s p ≡ ok t → s ≡ t
unfolding lift_break
lift_none s p t e h = ground arith

lift_some :
    (s : Hooks) (p : ℕ) (t : Hooks) (ws : List ℕ)
    → lookup p s.original ≡ some ws
    → lift_break s p ≡ ok t
    → (s.deferred ≡ none)
      × (record {
        memory = write_words s.memory p ws;
        original = s.original;
        deferred = some (read_words s.memory p (length ws), p);
      }
          ≡ t)
unfolding lift_break
lift_some s p t ws e h = ground arith

module _ {s : Hooks} (v : Inv s) where
  replace_some :
      (src : List ℕ) (dst : ℕ)
      → s.deferred ≡ some (src, dst)
      → Keeps s
          (record { memory = write_words s.memory dst src; original = s.original; deferred = none })
  replace_some src dst e =
      let (ws, found, size, first) = Pending-of src dst v e in
      (
        record {
          separate = v.separate;
          armed = λ q vs h. elim (Bool-cases (q == dst)) [
            | inl here ↦
                inl (ground (arith, head_written s.memory dst src opcode_debug_break first))
            | inr away ↦ ground (
              arith,
              v.armed q vs h,
              lookup-length s.original q vs v.separate h,
              lookup-length s.original dst ws v.separate found,
              lookup-Separate s.original dst q ws vs v.separate found h,
              same_head s.memory dst src q (length vs),
            )
          ];
          pending = tt;
        },
        λ a. shown-over s.memory s.original dst ws src a found size,
      )

  pub replace-Keeps : Keeps s (replace_deferred s)
  replace-Keeps = elim (Option-cases s.deferred) [
    | inl e ↦ subst (Keeps s) (sym (replace_nothing s e)) (v, λ a. refl)
    | inr ((src, dst), e) ↦
        subst (Keeps s) (sym (replace_something s src dst e)) (replace_some src dst e)
  ]

  -- The break at `p` is lifted: nothing waits, so the instruction at `p` is armed.
  lift_saved :
      (p : ℕ) (ws : List ℕ)
      → lookup p s.original ≡ some ws
      → s.deferred ≡ none
      → Keeps s (record {
        memory = write_words s.memory p ws;
        original = s.original;
        deferred = some (read_words s.memory p (length ws), p);
      })
  lift_saved p ws h e = (
    record {
      separate = v.separate;
      armed = λ q vs k. elim (Bool-cases (q == p)) [
        | inl here ↦ inr (
          read_words s.memory p (length ws),
          ground arith,
          ground (arith, read-write_words s.memory p ws),
        )
        | inr away ↦ ground (
          arith,
          v.armed q vs k,
          lookup-length s.original q vs v.separate k,
          lookup-length s.original p ws v.separate h,
          lookup-Separate s.original p q ws vs v.separate h k,
          same_head s.memory p ws q (length vs),
        )
      ];
      pending = (
        ws,
        h,
        length-read_words s.memory p (length ws),
        ground (
          arith,
          v.armed p ws h,
          lookup-length s.original p ws v.separate h,
          get_elem?-read_words s.memory p (length ws) 0,
        ),
      );
    },
    λ a. shown-over s.memory s.original p ws ws a h refl,
  )

  pub lift-Keeps : (p : ℕ) (t : Hooks) → lift_break s p ≡ ok t → Keeps s t
  lift-Keeps p t h = elim (Option-cases (lookup p s.original)) [
    | inl e ↦ subst (Keeps s) (lift_none s p t e h) (v, λ a. refl)
    | inr (ws, e) ↦ let (f, g) = lift_some s p t ws e h in subst (Keeps s) g (lift_saved p ws e f)
  ]
