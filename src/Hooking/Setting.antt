-- ===== src/Hooking/Setting.antt =====
-- debug_server/src/instruction_hooking.rs: `hook_instruction` and the invariant.
use auxtools.Base.{
  ℕ, ◌+◌, ◌-◌, ◌<◌, ◌≡◌, ◌≢◌, refl, ◌∙◌, subst, ◌⊎◌, inl, inr, some, List, ◌∷◌, arith, length,
  lookup, remove, insert, nat_eq, Bool-cases, ◌==◌, lookup-remove, remove-none,
}
use auxtools.Hooking.{
  Memory, Originals, Hooks, Code, ok, opcode_debug_break, write_words, read_words, place_hook,
  break_words,
}
use auxtools.Hooking.Memory.{
  Outside, Within-cases, write_words-in, write_words-out, length-read_words, length-break_words,
  get_elem?-read_words,
}
use auxtools.Hooking.Shown.{
  shown, Clear, Separate, Disjoint, shown-cong, shown-remove, lookup-Clear, lookup-Separate,
  lookup-length,
}
use auxtools.Hooking.Invariant.{Inv, Armed, Fits, Keeps, same_away, same_head, head_written}
use auxtools.Hooking.Placing.{
  Clear-remove, Clear-remove_self, Separate-remove, insert-Pending, unarmed_shown,
}

-- The words of a hook of `n` words.
abbrev pub hook_words : ℕ → List ℕ
hook_words n = opcode_debug_break ∷ break_words (n - 1)

length-hook_words : (n : ℕ) → 0 < n → length (hook_words n) ≡ n
length-hook_words n h = omega (arith, length-break_words (n - 1))

abbrev pub hooked : Hooks → (p n : ℕ) → Hooks
hooked s p n = record {
  memory = write_words s.memory p (hook_words n);
  original = insert p (read_words s.memory p n) s.original;
  deferred = s.deferred;
}

Fits-Clear : (o : Originals) (p n : ℕ) → Separate o → Fits o p n → Clear p n (remove p o)
Fits-Clear o p n s (h, inl (fresh, clear)) = Clear-remove o p n p clear
Fits-Clear o p n s (h, inr (ws, found, size)) = rw (← size) (Clear-remove_self o p ws s found)

Fits-size :
    (o : Originals) (p n : ℕ) (ws : List ℕ) → Fits o p n → lookup p o ≡ some ws → n ≡ length ws
Fits-size o p n ws (h, inl (fresh, clear)) found = ground arith
Fits-size o p n ws (h, inr (us, other, size)) found = ground arith

-- Another saved instruction does not meet the new one.
Fits-Disjoint :
    (o : Originals) (p n q : ℕ) (vs : List ℕ)
    → Separate o
    → Fits o p n
    → lookup q o ≡ some vs
    → p ≢ q
    → Disjoint p n q (length vs)
Fits-Disjoint o p n q vs s (h, inl (fresh, clear)) found ne = lookup-Clear o p n q vs clear found
Fits-Disjoint o p n q vs s (h, inr (ws, other, size)) found ne =
    rw (← size) (lookup-Separate o p q ws vs s other found ne)

Fits-remove :
    (m : Memory) (o : Originals) (p n a : ℕ)
    → Separate o
    → Fits o p n
    → Outside a p n
    → shown m (remove p o) a ≡ shown m o a
Fits-remove m o p n a s (h, inl (fresh, clear)) w = rw (remove-none p o fresh) refl
Fits-remove m o p n a s (h, inr (ws, found, size)) w = shown-remove m o p ws a s found (rw size w)

module _ {s : Hooks} (v : Inv s) (p n : ℕ) (fits : Fits s.original p n) where
  hooked-Armed :
      (q : ℕ) (vs : List ℕ) → lookup q (hooked s p n).original ≡ some vs → Armed (hooked s p n) q vs
  hooked-Armed q vs k = elim (Bool-cases (p == q)) [
    | inl here ↦
        inl (ground (arith, head_written s.memory p (hook_words n) opcode_debug_break refl))
    | inr away ↦ ground (
      arith,
      lookup-remove p q s.original,
      v.armed q vs,
      length-hook_words n fits.0,
      lookup-length s.original q vs v.separate,
      Fits-Disjoint s.original p n q vs v.separate fits,
      same_head s.memory p (hook_words n) q (length vs),
      same_away s.memory p (hook_words n) q (length vs),
    )
  ]

  hooked-Inv : Inv (hooked s p n)
  hooked-Inv = record {
    separate = (
      rw (length-read_words s.memory p n) fits.0,
      rw (length-read_words s.memory p n) (Fits-Clear s.original p n v.separate fits),
      Separate-remove s.original p v.separate,
    );
    armed = hooked-Armed;
    pending =
        insert-Pending s.original p (read_words s.memory p n) s.deferred
          (λ ws e. length-read_words s.memory p n ∙ Fits-size s.original p n ws fits e) v.pending;
  }

  shown-hooked :
      s.memory p ≢ opcode_debug_break
      → (a : ℕ)
      → shown (hooked s p n).memory (hooked s p n).original a ≡ shown s.memory s.original a
  unfolding shown
  shown-hooked quiet a = elim (Within-cases a p n) [
    | inl w ↦ ground (
      arith,
      w.above,
      w.below,
      unarmed_shown v p n a fits quiet w,
      get_elem?-read_words s.memory p n (a - p),
      write_words-in away p saved a (rw size w),
    )
    | inr w ↦
        write_words-out away p saved a (rw size w)
        ∙ shown-cong (write_words s.memory p (hook_words n)) s.memory (remove p s.original) a
            (write_words-out s.memory p (hook_words n) a (rw (length-hook_words n fits.0) w))
        ∙ Fits-remove s.memory s.original p n a v.separate fits w
  ]
    where
      away : Memory
      away = shown (write_words s.memory p (hook_words n)) (remove p s.original)

      saved : List ℕ
      saved = read_words s.memory p n

      size : length saved ≡ n
      size = length-read_words s.memory p n

place_ok :
    (s t : Hooks) (c : Code) (offset n : ℕ)
    → place_hook s c offset n ≡ ok t
    → ((s.memory (c.ptr + offset) ≡ opcode_debug_break) × (s ≡ t))
      ⊎ ((s.memory (c.ptr + offset) ≢ opcode_debug_break) × (hooked s (c.ptr + offset) n ≡ t))
unfolding place_hook
place_ok s t c offset n h = ground arith

pub place-Keeps :
    {s : Hooks}
    → Inv s
    → (t : Hooks) (c : Code) (offset n : ℕ) → Fits s.original (c.ptr + offset) n
    → place_hook s c offset n ≡ ok t
    → Keeps s t
place-Keeps {s} v t c offset n fits h = elim (place_ok s t c offset n h) [
  | inl (armed, same) ↦ subst (Keeps s) same (v, λ a. refl)
  | inr (quiet, same) ↦
      subst (Keeps s) same
        (hooked-Inv v (c.ptr + offset) n fits, shown-hooked v (c.ptr + offset) n fits quiet)
]
