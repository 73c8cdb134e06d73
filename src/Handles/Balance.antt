-- ===== src/Handles/Balance.antt =====
-- auxtools/src/value.rs and list.rs: no reference is lost and none is given back twice.
use auxtools.Base.{ℕ, ◌+◌, ◌≡◌, Option, none, some, List, [], ◌∷◌, arith}
use auxtools.Value.{Value}
use auxtools.Handles.{Refs, Res, good, bad, R, one, drop}

-- How many references to each value are held.
abbrev pub Held : Type 0
Held = Value → ℕ

abbrev pub nothing : Held
nothing u = 0

abbrev pub held_of : Res Value → Held
held_of (good v) = one v
held_of (bad e) = nothing

abbrev pub held_all : List Value → Held
held_all [] u = 0
held_all (v ∷ vs) u = one v u + held_all vs u

module _ {W : Type 0} where
  -- From `s` on, the references that were taken and that came from BYOND are those that were given
  -- back, were left to BYOND, or are held at the end; `ins` are held at the start.
  abbrev pub Kept : {A : Type 0} → Held → Refs W → Option (A × Refs W) → (A → Held) → Type 0
  Kept ins s none outs = Unit
  Kept ins s (some (a, t)) outs =
      (u : Value)
      → ins u + (t.taken u + t.adopted u) + (s.given u + s.passed u)
        ≡ outs a u + (s.taken u + s.adopted u) + (t.given u + t.passed u)

  abbrev pub IsBalanced : {A : Type 0} → Held → R W A → (A → Held) → Type 0
  IsBalanced ins m outs = (s : Refs W) → Kept ins s (m s) outs

  pub then-Kept :
      {B : Type 0} (ins : Held) (mid : Held) (outs : B → Held) (s t : Refs W)
      (p : Option (B × Refs W))
      → ((u : Value)
          → ins u + (t.taken u + t.adopted u) + (s.given u + s.passed u)
            ≡ mid u + (s.taken u + s.adopted u) + (t.given u + t.passed u))
      → Kept mid t p outs
      → Kept ins s p outs
  then-Kept ins mid outs s t none h g = tt
  then-Kept ins mid outs s t (some (b, r)) h g = λ u. omega (arith, h u, g u)

  pub bind-Kept :
      {A B : Type 0} (ins : Held) (mid : A → Held) (outs : B → Held) (s : Refs W)
      (o : Option (A × Refs W)) (f : A → R W B)
      → Kept ins s o mid
      → ((a : A) → IsBalanced (mid a) (f a) outs)
      → Kept ins s (elim o [ none ↦ none | some (a, t) ↦ f a t ]) outs
  bind-Kept ins mid outs s none f h k = tt
  bind-Kept ins mid outs s (some (a, t)) f h k = then-Kept ins (mid a) outs s t (f a t) h (k a t)

  -- References that an operation does not touch.
  pub keep :
      {A : Type 0} (more : Held) (outs : A → Held) (s : Refs W) (o : Option (A × Refs W))
      → Kept nothing s o outs
      → Kept more s o (λ a u. outs a u + more u)
  keep more outs s none h = tt
  keep more outs s (some (a, t)) h = λ u. omega (arith, h u)

  pub frame-Kept :
      {A : Type 0} (ins more : Held) (outs : A → Held) (s : Refs W) (o : Option (A × Refs W))
      → Kept ins s o outs
      → Kept (λ u. ins u + more u) s o (λ a u. outs a u + more u)
  frame-Kept ins more outs s none h = tt
  frame-Kept ins more outs s (some (a, t)) h = λ u. omega (arith, h u)

  pub same_held :
      {A : Type 0} (ins ins2 : Held) (outs : A → Held) (s : Refs W) (o : Option (A × Refs W))
      → ((u : Value) → ins u ≡ ins2 u)
      → Kept ins2 s o outs
      → Kept ins s o outs
  same_held ins ins2 outs s none e h = tt
  same_held ins ins2 outs s (some (a, t)) e h = λ u. omega (arith, h u, e u)

  pub drop-IsBalanced : (v : Value) → IsBalanced (one v) (drop v) (λ _. nothing)
  unfolding drop
  drop-IsBalanced v s u = omega arith
