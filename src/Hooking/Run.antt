-- ===== src/Hooking/Run.antt =====
-- Breakpoints set, hit, put back and cleared in any order.
use auxtools.Base.{
  ℕ, ◌+◌, ◌≡◌, refl, sym, ◌∙◌, subst, inl, inr, none, some, List, [], arith, lookup, nat_eq,
  Option-cases,
}
use auxtools.Dmasm.{Disassembler, Instruction}
use auxtools.Hooking.{
  Memory, Hooks, Code, ok, opcode_debug_break, bytecode, find_instruction, place_hook,
  hook_instruction, take_hook, unhook_instruction, replace_deferred, lift_break,
}
use auxtools.Hooking.Shown.{shown}
use auxtools.Hooking.Invariant.{Inv, Fits, Keeps, replace-Keeps, lift-Keeps}
use auxtools.Hooking.Placing.{take-Keeps}
use auxtools.Hooking.Setting.{place-Keeps}

pub data Step (s : Hooks) : Hooks → Type 0 where
  hook :
      (d : Disassembler) (c : Code) (offset : ℕ) {t : Hooks}
      → ((ins : Instruction) (n : ℕ)
          → find_instruction offset (d (bytecode s.memory c)) ≡ some (ins, n)
          → Fits s.original (c.ptr + offset) n)
      → hook_instruction d s c offset ≡ ok t
      → Step s t
  unhook :
      (d : Disassembler) (c : Code) (offset : ℕ) {t : Hooks}
      → unhook_instruction d s c offset ≡ ok t
      → Step s t
  replace : {t : Hooks} → t ≡ replace_deferred s → Step s t
  lift : (p : ℕ) {t : Hooks} → lift_break s p ≡ ok t → Step s t

-- A run of such steps.
pub data Run (s : Hooks) : Hooks → Type 0 where
  start : Run s s
  next : {t u : Hooks} → Run s t → Step t u → Run s u

hook_found :
    (d : Disassembler) (s t : Hooks) (c : Code) (offset : ℕ)
    → hook_instruction d s c offset ≡ ok t
    → (ins : Instruction) × (n : ℕ) × (find_instruction offset (d (bytecode s.memory c))
        ≡ some (ins, n))
      × (place_hook s c offset n ≡ ok t)
unfolding hook_instruction
hook_found d s t c offset h =
    elim (Option-cases (find_instruction offset (d (bytecode s.memory c)))) [
      | inl e ↦ ground arith
      | inr ((ins, n), e) ↦ (ins, n, e, ground arith)
    ]

unhook_taken :
    (d : Disassembler) (s t : Hooks) (c : Code) (offset : ℕ)
    → unhook_instruction d s c offset ≡ ok t
    → take_hook s (c.ptr + offset) ≡ t
unfolding unhook_instruction
unhook_taken d s t c offset h = ground arith

-- Every step keeps the invariant and shows the same program.
Step-Keeps : {s t : Hooks} → Inv s → Step s t → Keeps s t
Step-Keeps {s} {t} v (hook d c offset fits h) =
    let (ins, n, e, p) = hook_found d s t c offset h in place-Keeps v t c offset n (fits ins n e) p
Step-Keeps {s} {t} v (unhook d c offset h) =
    subst (Keeps s) (unhook_taken d s t c offset h) (take-Keeps v (c.ptr + offset))
Step-Keeps {s} v (replace e) = subst (Keeps s) (sym e) (replace-Keeps v)
Step-Keeps {t} v (lift p h) = lift-Keeps v p t h

Run-Keeps : {s t : Hooks} → Inv s → Run s t → Keeps s t
Run-Keeps v start = (v, λ a. refl)
Run-Keeps v (next r st) =
    let (w, same) = Run-Keeps v r in let (u, again) = Step-Keeps w st in (u, λ a. again a ∙ same a)

abbrev pub untouched : Memory → Hooks
untouched m = record { memory = m; original = []; deferred = none }

pub untouched-Inv : (m : Memory) → Inv (untouched m)
untouched-Inv m = record { separate = tt; armed = λ p ws h. ground arith; pending = tt }

-- However breakpoints are set, hit, put back and cleared from memory without any, memory with the
-- saved instructions laid over it is the memory at the start; and once no breakpoint is saved, it
-- is that memory itself. The disassembler is assumed to report no instruction that overlaps a
-- saved one in part.
pub Run-restores :
    (m : Memory) (t : Hooks)
    → Run (untouched m) t
    → ((a : ℕ) → shown t.memory t.original a ≡ m a) × (t.original ≡ [] → (a : ℕ) → t.memory a ≡ m a)
unfolding shown
Run-restores m t r =
    let (v, same) = Run-Keeps (untouched-Inv m) r in
    (same, λ e a. subst (λ o. shown t.memory o a ≡ m a) e (same a))

replace_done :
    (s : Hooks)
    → ((replace_deferred s).original ≡ s.original) × ((replace_deferred s).deferred ≡ none)
unfolding replace_deferred
replace_done s = ground arith

-- After the first block of `handle_instruction`, in every reachable state, every saved breakpoint
-- is still saved and its address holds the break opcode: passing a breakpoint does not lose it. The
-- disassembler is assumed to report no instruction that overlaps a saved one in part.
pub Run-armed :
    (m : Memory) (t : Hooks) (p : ℕ) (ws : List ℕ)
    → Run (untouched m) t
    → lookup p t.original ≡ some ws
    → (lookup p (replace_deferred t).original ≡ some ws)
      × ((replace_deferred t).memory p ≡ opcode_debug_break)
Run-armed m t p ws r h =
    let (v, _) = Run-Keeps (untouched-Inv m) r in
    let (w, _) = replace-Keeps v in
    let (kept, idle) = replace_done t in
    let saved : lookup p (replace_deferred t).original ≡ some ws = rw kept h in
    (saved, ground (arith, w.armed p ws saved))
