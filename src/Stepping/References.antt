-- ===== src/Stepping/References.antt =====
-- debug_server/src/instruction_hooking.rs: the tags by which proc instances are found again.
use auxtools.Base.{ℕ, ◌+◌, ◌^◌, ◌≤◌, ◌<◌, ◌≡◌, ◌↔◌, true, List, [], ◌∷◌, arith, length}
use auxtools.Debug.{Context}
use auxtools.Stepping.Decide.{Steps, new_ref, is}

-- Tags for instances one after the other.
unfoldable pub new_refs : List ℕ → Steps → Steps
unfolding new_ref
new_refs [] s = s
new_refs (p ∷ ps) s = new_refs ps (new_ref p s).1

-- No tag is above the counter.
abbrev pub IsBelow : Steps → Type 0
IsBelow s = (i : ℕ) → s.tags i ≤ s.last_ref

new_ref_last :
    (p : ℕ) (s : Steps) → s.last_ref + 1 < 2 ^ 16 → (new_ref p s).1.last_ref ≡ s.last_ref + 1
unfolding new_ref
new_ref_last p s h = ground arith

new_ref-IsBelow :
    (p : ℕ) (s : Steps) → s.last_ref + 1 < 2 ^ 16 → IsBelow s → IsBelow (new_ref p s).1
unfolding new_ref
new_ref-IsBelow p s h below i = ground (arith, below i)

new_refs-IsBelow :
    (ps : List ℕ) (s : Steps)
    → s.last_ref + length ps < 2 ^ 16
    → IsBelow s
    → IsBelow (new_refs ps s) × ((new_refs ps s).last_ref ≡ s.last_ref + length ps)
unfolding new_refs
new_refs-IsBelow [] s h below = (below, omega arith)
new_refs-IsBelow (p ∷ ps) s h below =
    let e = new_ref_last p s (omega arith) in
    let (a, b) =
      new_refs-IsBelow ps (new_ref p s).1 (omega arith) (new_ref-IsBelow p s (omega arith) below) in
    (a, omega arith)

-- As long as the counter has not reached its last value, however many tags were given before, the
-- tag that an instance is given is the tag of no other instance: a context is found to be the
-- instance's exactly when it is. No instance had a tag above the counter at the start.
pub is-new_ref :
    (ps : List ℕ) (p : ℕ) (s : Steps) (ctx : Context)
    → IsBelow s
    → s.last_ref + length ps + 1 < 2 ^ 16
    → (is (new_ref p (new_refs ps s)).1.tags (new_ref p (new_refs ps s)).0 ctx ≡ true)
      ↔ (ctx.instance_ptr ≡ p)
unfolding is new_ref
is-new_ref ps p s ctx below h =
    let (a, b) = new_refs-IsBelow ps s (omega arith) below in
    let c = a ctx.instance_ptr in (λ e. ground arith, λ e. ground arith)

new_refs_last :
    (ps : List ℕ) (s : Steps)
    → s.last_ref + length ps < 2 ^ 16
    → (new_refs ps s).last_ref ≡ s.last_ref + length ps
unfolding new_refs
new_refs_last [] s h = omega arith
new_refs_last (p ∷ ps) s h =
    let e = new_ref_last p s (omega arith) in
    omega (arith, e, new_refs_last ps (new_ref p s).1 (omega (arith, e)))

-- Once tags have been given until the counter has its last value, the next tag is 0: every instance
-- that has the tag 0 by then is taken for the one that was meant.
pub is-new_ref_wrapped :
    (ps : List ℕ) (p : ℕ) (s : Steps) (ctx : Context)
    → s.last_ref + length ps + 1 ≡ 2 ^ 16
    → (new_refs ps s).tags ctx.instance_ptr ≡ 0
    → is (new_ref p (new_refs ps s)).1.tags (new_ref p (new_refs ps s)).0 ctx ≡ true
unfolding is new_ref
is-new_ref_wrapped ps p s ctx last h =
    let e = new_refs_last ps s (omega arith) in ground (arith, h, e)
