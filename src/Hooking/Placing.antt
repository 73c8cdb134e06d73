-- ===== src/Hooking/Placing.antt =====
-- debug_server/src/instruction_hooking.rs: writing and clearing a breakpoint, and the invariant.
use auxtools.Base.{
  ℕ, ◌-◌, ◌≡◌, ◌≢◌, refl, sym, ◌∙◌, subst, inl, inr, Option, none, some, List, [], ◌∷◌, arith,
  length, lookup, remove, insert, nat_eq, Bool-cases, Option-cases, ◌==◌, lookup-remove,
}
use auxtools.Hooking.{Originals, Hooks, opcode_debug_break, write_words, take_hook, forget_deferred}
use auxtools.Hooking.Memory.{
  Within, Within-cases, write_words-in, write_words-out, get_elem?-read_words,
}
use auxtools.Hooking.Shown.{
  shown, Clear, Separate, shown-cong, shown-Clear, shown-saved, shown-remove, lookup-Clear,
  lookup-Separate, lookup-length,
}
use auxtools.Hooking.Invariant.{Inv, Pending, Fits, Keeps, same_away, same_head}

pub Clear-remove : (o : Originals) (p n q : ℕ) → Clear p n o → Clear p n (remove q o)
Clear-remove [] p n q c = tt
Clear-remove ((r, ws) ∷ o) p n q (d, c) = ground (arith, Clear-remove o p n q c)

pub Separate-remove : (o : Originals) (q : ℕ) → Separate o → Separate (remove q o)
Separate-remove [] q s = tt
Separate-remove ((r, ws) ∷ o) q (h, c, s) =
    ground (arith, Separate-remove o q s, Clear-remove o r (length ws) q c)

-- Without its own entry, the place of a saved instruction is clear.
pub Clear-remove_self :
    (o : Originals) (p : ℕ) (ws : List ℕ)
    → Separate o
    → lookup p o ≡ some ws
    → Clear p (length ws) (remove p o)
Clear-remove_self [] p ws s h = tt
Clear-remove_self ((q, vs) ∷ o) p ws (k, c, s) h = elim (Bool-cases (q == p)) [
  | inl here ↦ ground (arith, Clear-remove o q (length vs) p c)
  | inr away ↦ ground (arith, lookup-Clear o q (length vs) p ws c, Clear-remove_self o p ws s)
]

forget-Pending :
    (o : Originals) (p : ℕ) (d : Option (List ℕ × ℕ))
    → Pending o d
    → Pending (remove p o) (forget_deferred p d)
unfolding forget_deferred
forget-Pending o p none h = tt
forget-Pending o p (some (src, dst)) (ws, found, size, first) = elim (Bool-cases (dst == p)) [
  | inl here ↦ rw here tt
  | inr away ↦ rw away (ws, ground (arith, lookup-remove p dst o), size, first)
]

pub insert-Pending :
    (o : Originals) (p : ℕ) (us : List ℕ) (d : Option (List ℕ × ℕ))
    → ((ws : List ℕ) → lookup p o ≡ some ws → length us ≡ length ws)
    → Pending o d
    → Pending (insert p us o) d
insert-Pending o p us none same h = tt
insert-Pending o p us (some (src, dst)) same (ws, found, size, first) =
    elim (Bool-cases (p == dst)) [
      | inl here ↦ (us, ground arith, ground (arith, same ws), first)
      | inr away ↦ (ws, ground (arith, lookup-remove p dst o), size, first)
    ]

take_none : (s : Hooks) (p : ℕ) → lookup p s.original ≡ none → take_hook s p ≡ s
unfolding take_hook
take_none s p e = ground arith

take_some :
    (s : Hooks) (p : ℕ) (ws : List ℕ)
    → lookup p s.original ≡ some ws
    → take_hook s p ≡ record {
      memory = write_words s.memory p ws;
      original = remove p s.original;
      deferred = forget_deferred p s.deferred;
    }
unfolding take_hook
take_some s p ws e = ground arith

module _ {s : Hooks} (v : Inv s) where
  taken_shown :
      (p : ℕ) (ws : List ℕ)
      → lookup p s.original ≡ some ws
      → (a : ℕ)
      → shown (write_words s.memory p ws) (remove p s.original) a ≡ shown s.memory s.original a
  taken_shown p ws h a = elim (Within-cases a p (length ws)) [
    | inl w ↦
        shown-Clear (write_words s.memory p ws) (remove p s.original) p (length ws) a
          (Clear-remove_self s.original p ws v.separate h) w
        ∙ ground (
          arith,
          write_words-in s.memory p ws a w,
          shown-saved s.memory s.original p ws a v.separate h w,
        )
    | inr w ↦
        shown-cong (write_words s.memory p ws) s.memory (remove p s.original) a
          (write_words-out s.memory p ws a w)
        ∙ shown-remove s.memory s.original p ws a v.separate h w
  ]

  take_saved :
      (p : ℕ) (ws : List ℕ)
      → lookup p s.original ≡ some ws
      → Keeps s (record {
        memory = write_words s.memory p ws;
        original = remove p s.original;
        deferred = forget_deferred p s.deferred;
      })
  unfolding forget_deferred
  take_saved p ws h = (
    record {
      separate = Separate-remove s.original p v.separate;
      armed = λ q vs k. ground (
        arith,
        lookup-remove p q s.original,
        v.armed q vs,
        lookup-length s.original q vs v.separate,
        lookup-length s.original p ws v.separate h,
        lookup-Separate s.original p q ws vs v.separate h,
        same_head s.memory p ws q (length vs),
        same_away s.memory p ws q (length vs),
      );
      pending = forget-Pending s.original p s.deferred v.pending;
    },
    taken_shown p ws h,
  )

  pub take-Keeps : (p : ℕ) → Keeps s (take_hook s p)
  take-Keeps p = elim (Option-cases (lookup p s.original)) [
    | inl e ↦ subst (Keeps s) (sym (take_none s p e)) (v, λ a. refl)
    | inr (ws, e) ↦ subst (Keeps s) (sym (take_some s p ws e)) (take_saved p ws e)
  ]

  -- Where the instruction at `p` is not armed, its words are the shown ones.
  pub unarmed_shown :
      (p n a : ℕ)
      → Fits s.original p n
      → s.memory p ≢ opcode_debug_break
      → Within a p n
      → shown s.memory s.original a ≡ s.memory a
  unarmed_shown p n a (h, inl (fresh, clear)) quiet w =
      shown-Clear s.memory s.original p n a clear w
  unarmed_shown p n a (h, inr (ws, found, size)) quiet w = ground (
    arith,
    w.above,
    w.below,
    v.armed p ws found,
    get_elem?-read_words s.memory p n (a - p),
    shown-saved s.memory s.original p ws a v.separate found,
  )
