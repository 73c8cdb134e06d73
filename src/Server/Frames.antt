-- ===== src/Server/Frames.antt =====
-- debug_server/src/server.rs: the frames that a StackFrames request returns.
use auxtools.Base.{
  ℕ, zero, suc, ◌+◌, ◌^◌, ◌<◌, ◌≡◌, sym, ap, ◌∙◌, Option, some, List, arith, length, get_elem?,
  Option-cases, inl, inr, lt_of_get_elem?,
}
use auxtools.Debug.{StackFrame, CallStacks}
use auxtools.Server.Messages.{Frame}
use auxtools.Server.Session.{Session}
use auxtools.Server.World.{Byond}
use auxtools.Server.Stacks.{
  get_stack, get_stack_base_frame_id, get_stack_frame, get_stack_frame-base,
}
use auxtools.Server.Handle.{make_frame, frames_from}

module _ (b : Byond) where
  frames_from-found :
      (s : Session b.World) (base : ℕ) (stack : List StackFrame) (n i k : ℕ) (f : Frame)
      → get_elem? (frames_from b s base stack n i) k ≡ some f
      → (g : StackFrame) × (get_elem? stack (i + k) ≡ some g) × (f ≡ make_frame b s base (i + k) g)
  unfolding frames_from
  frames_from-found s base stack zero i k f h = absurd (ground arith)
  frames_from-found s base stack (suc n) i zero f h = elim (Option-cases (get_elem? stack i)) [
    | inl e ↦ absurd (ground arith)
    | inr (g, e) ↦
        let here : i + 0 ≡ i = omega arith in (g, ap (get_elem? stack) here ∙ e, ground arith)
  ]
  frames_from-found s base stack (suc n) i (suc k) f h = elim (Option-cases (get_elem? stack i)) [
    | inl e ↦ absurd (ground arith)
    | inr (g, e) ↦
        let next : i + 1 + k ≡ i + suc k = omega arith in
        let (g2, a, c) = frames_from-found s base stack n (i + 1) k f (ground arith) in
        (g2, ap (get_elem? stack) (sym next) ∙ a, c ∙ ap (λ q. make_frame b s base q g2) next)
  ]

  -- The ids of the frames that are listed for a stack lead to those frames: the k-th one from
  -- `start` on describes the stack's frame start + k, and that frame is found at its id. Frame ids
  -- fit in a `u32`.
  pub frames_from-get_stack_frame :
      (s : Session b.World) (st : Option CallStacks) (stack_id n start k : ℕ)
      (stack : List StackFrame) (f : Frame)
      → get_stack st stack_id ≡ some stack
      → get_stack_base_frame_id st stack_id + length stack < 2 ^ 32
      → get_elem? (frames_from b s (get_stack_base_frame_id st stack_id) stack n start) k ≡ some f
      → (g : StackFrame) × (get_elem? stack (start + k) ≡ some g)
        × (get_stack_frame st f.id ≡ some g)
        × (f.instruction.offset ≡ g.offset)
  unfolding make_frame
  frames_from-get_stack_frame s st stack_id n start k stack f found small h =
      let base = get_stack_base_frame_id st stack_id in
      let (g, at, is) = frames_from-found s base stack n start k f h in
      let inside : start + k < length stack = lt_of_get_elem? stack (start + k) g at in
      let id : f.id ≡ base + (start + k) = ap (λ (x : Frame). x.id) is ∙ omega arith in
      let same : f.instruction.offset ≡ g.offset = ap (λ (x : Frame). x.instruction.offset) is in
      (
        g,
        at,
        ap (get_stack_frame st) id
            ∙ get_stack_frame-base st stack_id (start + k) stack found inside
            ∙ at,
        same,
      )
