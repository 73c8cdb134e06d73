-- ===== src/Server/Stacks.antt =====
-- debug_server/src/server.rs: stacks and frames by number. Frame ids count the frames of the active
-- stack, then those of each suspended stack.
use auxtools.Base.{
  ◌↔◌, ◌∙◌, lt_of_get_elem?, ℕ, zero, suc, ◌+◌, ◌-◌, ◌<◌, ◌≡◌, refl, ap, Option, none, some, List,
  [], ◌∷◌, arith, ltb, ◌==◌, if◌then◌else◌, length, get_elem?, Bool-cases, inl, inr,
}
use auxtools.Debug.{StackFrame, CallStacks}

unfoldable pub stack_of : CallStacks → ℕ → Option (List StackFrame)
stack_of st stack_id =
    if stack_id == 0 then some st.active else get_elem? st.suspended (stack_id - 1)

-- The number of frames of the first `n` stacks. (The slice is in range where `get_stack` finds the
-- stack, which the caller has tested.)
unfoldable pub frames_before : ℕ → List (List StackFrame) → ℕ
frames_before zero stacks = 0
frames_before (suc n) [] = 0
frames_before (suc n) (s ∷ stacks) = length s + frames_before n stacks

-- There are fewer frames than 2 ^ 32, so that `as u32` keeps the number.
unfoldable pub base_frame_of : CallStacks → ℕ → ℕ
unfolding frames_before
base_frame_of st stack_id =
    if stack_id == 0 then 0 else length st.active + frames_before (stack_id - 1) st.suspended

unfoldable pub suspended_frame : ℕ → List (List StackFrame) → Option StackFrame
suspended_frame i [] = none
suspended_frame i (s ∷ stacks) =
    if ltb i (length s) then get_elem? s i else suspended_frame (i - length s) stacks

unfoldable pub frame_at : CallStacks → ℕ → Option StackFrame
unfolding suspended_frame
frame_at st i =
    if ltb i (length st.active)
    then get_elem? st.active i
    else suspended_frame (i - length st.active) st.suspended

-- `get_stack`, `get_stack_base_frame_id` and `get_stack_frame`; nothing is there while execution is
-- not paused.
unfoldable pub get_stack : Option CallStacks → ℕ → Option (List StackFrame)
unfolding stack_of
get_stack none stack_id = none
get_stack (some st) stack_id = stack_of st stack_id

unfoldable pub get_stack_base_frame_id : Option CallStacks → ℕ → ℕ
unfolding base_frame_of
get_stack_base_frame_id none stack_id = 0
get_stack_base_frame_id (some st) stack_id = base_frame_of st stack_id

unfoldable pub get_stack_frame : Option CallStacks → ℕ → Option StackFrame
unfolding frame_at
get_stack_frame none frame_index = none
get_stack_frame (some st) frame_index = frame_at st frame_index

suspended_frame-before :
    (n i : ℕ) (stacks : List (List StackFrame)) (s : List StackFrame)
    → get_elem? stacks n ≡ some s
    → i < length s
    → suspended_frame (frames_before n stacks + i) stacks ≡ get_elem? s i
unfolding suspended_frame frames_before
suspended_frame-before n i [] s h k = ground arith
suspended_frame-before zero i (x ∷ stacks) s h k =
    let e : 0 + i ≡ i = omega arith in rw e (ground arith)
suspended_frame-before (suc n) i (x ∷ stacks) s h k =
    let e : length x + frames_before n stacks + i - length x ≡ frames_before n stacks + i =
      omega arith in
    ground (arith, suspended_frame-before n i stacks s h k, e)

frame_at-base :
    (st : CallStacks) (stack_id i : ℕ) (s : List StackFrame)
    → stack_of st stack_id ≡ some s
    → i < length s
    → frame_at st (base_frame_of st stack_id + i) ≡ get_elem? s i
unfolding frame_at stack_of base_frame_of
frame_at-base st zero i s h k = let e : 0 + i ≡ i = omega arith in rw e (ground arith)
frame_at-base st (suc n) i s h k =
    let m : suc n - 1 ≡ n = omega arith in
    let e : length st.active + frames_before n st.suspended + i - length st.active
        ≡ frames_before n st.suspended + i =
      omega arith in
    let found : get_elem? st.suspended n ≡ some s = ground (arith, ap (get_elem? st.suspended) m) in
    ground (
      arith,
      suspended_frame-before n i st.suspended s found k,
      e,
      ap (λ q. frames_before q st.suspended) m,
    )

-- The frames of a stack have the ids from its base on: the frame with id base + i is its i-th frame.
pub get_stack_frame-base :
    (st : Option CallStacks) (stack_id i : ℕ) (s : List StackFrame)
    → get_stack st stack_id ≡ some s
    → i < length s
    → get_stack_frame st (get_stack_base_frame_id st stack_id + i) ≡ get_elem? s i
unfolding get_stack_frame get_stack get_stack_base_frame_id
get_stack_frame-base none stack_id i s h k = ground arith
get_stack_frame-base (some st) stack_id i s h k = frame_at-base st stack_id i s h k

-- Where a frame id leads: a stack, and a place in it.
pub record IsFrameOf (st : CallStacks) (id : ℕ) (f : StackFrame) : Type 0 where
  pub stack_id : ℕ
  pub index : ℕ
  pub stack : List StackFrame
  pub is_stack : stack_of st stack_id ≡ some stack
  pub is_frame : get_elem? stack index ≡ some f
  pub is_id : id ≡ base_frame_of st stack_id + index

suspended_frame-found :
    (id : ℕ) (stacks : List (List StackFrame)) (f : StackFrame)
    → suspended_frame id stacks ≡ some f
    → (n : ℕ) × (i : ℕ) × (s : List StackFrame) × (get_elem? stacks n ≡ some s)
      × (get_elem? s i ≡ some f)
      × (id ≡ frames_before n stacks + i)
unfolding suspended_frame frames_before
suspended_frame-found id [] f h = ground arith
suspended_frame-found id (x ∷ stacks) f h = elim (Bool-cases (ltb id (length x))) [
  | inl here ↦ (0, id, x, refl, ground arith, omega arith)
  | inr past ↦
      let (n, i, s, a, b, c) = suspended_frame-found (id - length x) stacks f (ground arith) in
      (suc n, i, s, a, b, ground (arith, c))
]

frame_found-IsFrameOf :
    (st : CallStacks) (id : ℕ) (f : StackFrame)
    → get_stack_frame (some st) id ≡ some f
    → IsFrameOf st id f
unfolding get_stack_frame frame_at stack_of base_frame_of
frame_found-IsFrameOf st id f h = elim (Bool-cases (ltb id (length st.active))) [
  | inl here ↦ record {
    stack_id = 0;
    index = id;
    stack = st.active;
    is_stack = refl;
    is_frame = ground arith;
    is_id = omega arith;
  }
  | inr past ↦
      let (n, i, s, a, b, c) =
        suspended_frame-found (id - length st.active) st.suspended f (ground arith) in
      let m : suc n - 1 ≡ n = omega arith in
      record {
        stack_id = suc n;
        index = i;
        stack = s;
        is_stack = ground (arith, a, ap (get_elem? st.suspended) m);
        is_frame = b;
        is_id = ground (arith, c, ap (λ q. frames_before q st.suspended) m);
      }
]

-- A frame is found at an id exactly if the id is the base of a stack plus the place of the frame in
-- that stack.
pub get_stack_frame-IsFrameOf :
    (st : CallStacks) (id : ℕ) (f : StackFrame)
    → (get_stack_frame (some st) id ≡ some f) ↔ IsFrameOf st id f
unfolding get_stack get_stack_base_frame_id
get_stack_frame-IsFrameOf st id f = (
  frame_found-IsFrameOf st id f,
  λ h.
      let inside = lt_of_get_elem? h.stack h.index f h.is_frame in
      ap (get_stack_frame (some st)) h.is_id
      ∙ get_stack_frame-base (some st) h.stack_id h.index h.stack h.is_stack inside
      ∙ h.is_frame,
)
