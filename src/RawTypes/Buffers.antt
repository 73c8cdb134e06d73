-- ===== src/RawTypes/Buffers.antt =====
-- auxtools/src/proc.rs: what the accessors of a proc read in memory.
use auxtools.Base.{
  ℕ, zero, suc, ◌+◌, ◌*◌, ◌/◌, ◌^◌, ◌<◌, ◌≤◌, ◌≡◌, ◌⊎◌, refl, ap, ◌∙◌, Option, some, List, [], ◌∷◌,
  map, length, get_elem?, arith,
}
use auxtools.RawTypes.Memory.{Memory, read_u16, read_u32, Same, read_u32-Same}
use auxtools.RawTypes.Misc.{Version, pointer_at, get_locals, get_parameters, set_bytecode}
use auxtools.RawTypes.Tables.{set_bytecode-IsStored, get_stored}
use auxtools.RawTypes.Names.{
  bytecode_at, locals_at, parameters_at, words_at, from_variable_id, parameter_names, local_names,
  bytecode_mut_ptr, bytecode,
}

words_at-Same :
    (m n : Memory) (stride offset array count from to : ℕ)
    → Same m n from to
    → from ≤ array
    → offset + 4 ≤ stride
    → array + stride * count ≤ to
    → words_at m stride offset array count ≡ words_at n stride offset array count
unfolding words_at
words_at-Same m n stride offset array zero from to h p q r = refl
words_at-Same m n stride offset array (suc count) from to h p q r =
    let split : stride * suc count ≡ stride + stride * count = grind arith in
    let first =
      read_u32-Same m n (array + offset) from to h (omega (arith, p))
        (omega (arith, q, r, split)) in
    let rest =
      words_at-Same m n stride offset (array + stride) count from to h (omega (arith, p)) q
        (omega (arith, r, split)) in
    cc (first, rest)

length-words_at :
    (m : Memory) (stride offset array count : ℕ)
    → length (words_at m stride offset array count) ≡ count
unfolding words_at
length-words_at m stride offset array zero = refl
length-words_at m stride offset array (suc count) =
    ap suc (length-words_at m stride offset (array + stride) count)

nth-words_at :
    (m : Memory) (stride offset array count i : ℕ)
    → i < count
    → get_elem? (words_at m stride offset array count) i
      ≡ some (read_u32 m (array + stride * i + offset))
unfolding words_at
nth-words_at m stride offset array zero i h = absurd (omega (arith, h))
nth-words_at m stride offset array (suc count) zero h = ap (λ a. some (read_u32 m a)) (omega arith)
nth-words_at m stride offset array (suc count) (suc i) h =
    let moved : array + stride + stride * i + offset ≡ array + stride * suc i + offset =
      grind arith in
    nth-words_at m stride offset (array + stride) count i (omega (arith, h))
    ∙ ap (λ a. some (read_u32 m a)) moved

module _ (get_misc : ℕ → Option ℕ) (v : Version) where
  -- A proc whose bytecode is stored has it as its bytecode, in either layout: `bytecode` gives the
  -- words of the buffer, if the buffer and the proc's entry lie outside of the entry that is written,
  -- and the buffer's address and length fit their fields.
  pub bytecode-set_bytecode :
      (entry misc ptr : ℕ) (m : Memory) (words : List ℕ)
      → ptr < 2 ^ 32
      → length words < 2 ^ 16
      → get_misc (read_u32 m (bytecode_at entry)) ≡ some misc
      → words_at m 4 0 ptr (length words) ≡ words
      → (ptr + 4 * length words ≤ misc) ⊎ (misc + 12 ≤ ptr)
      → (bytecode_at entry + 4 ≤ misc) ⊎ (misc + 12 ≤ bytecode_at entry)
      → (n : Memory) × (set_bytecode get_misc v
            (read_u32 m (bytecode_at entry))
            ptr
            (length words)
            m
          ≡ some n)
        × (bytecode get_misc v entry n ≡ some words)
  unfolding bytecode bytecode_mut_ptr
  bytecode-set_bytecode entry misc ptr m words hp hc e held apart clear =
      let id = read_u32 m (bytecode_at entry) in
      let (n, f, stored) = set_bytecode-IsStored get_misc v id misc ptr (length words) m hp hc e in
      let near : Same n m (bytecode_at entry) (bytecode_at entry + 4) =
        λ b p q. stored.outside b (ground (arith, clear, p, q)) in
      let kept : Same n m ptr (ptr + 4 * length words) =
        λ b p q. stored.outside b (ground (arith, apart, p, q)) in
      let same_id = read_u32-Same n m (bytecode_at entry) _ _ near (omega arith) (omega arith) in
      let same_words =
        words_at-Same n m 4 0 ptr (length words) ptr (ptr + 4 * length words) kept (omega arith)
          (omega arith) (omega arith) in
      (
        n,
        f,
        ground (
          arith,
          same_id,
          same_words,
          held,
          get_stored get_misc v id misc ptr (length words) m n e stored,
        ),
      )

-- The names of an array's elements: the i-th is that of the variable whose id stands in element i.
pub record AreNames (m : Memory) (entries array stride offset count : ℕ) (names : List ℕ)
    : Type 0 where
  pub size : length names ≡ count
  pub in_place :
      (i : ℕ)
      → i < count
      → get_elem? names i
        ≡ some (from_variable_id m entries (read_u32 m (array + stride * i + offset)))

length-map_names : (f : ℕ → ℕ) (xs : List ℕ) → length (map f xs) ≡ length xs
length-map_names f [] = refl
length-map_names f (x ∷ xs) = ap suc (length-map_names f xs)

nth-map_names :
    (f : ℕ → ℕ) (xs : List ℕ) (i a : ℕ)
    → get_elem? xs i ≡ some a
    → get_elem? (map f xs) i ≡ some (f a)
nth-map_names f [] i a h = ground (arith, h)
nth-map_names f (x ∷ xs) zero a h = ground (arith, h)
nth-map_names f (x ∷ xs) (suc i) a h = nth-map_names f xs i a h

words_at-AreNames :
    (m : Memory) (entries array stride offset count : ℕ)
    → AreNames m entries array stride offset count
        (map (from_variable_id m entries) (words_at m stride offset array count))
words_at-AreNames m entries array stride offset count =
    let f : ℕ → ℕ = from_variable_id m entries in
    record {
      size =
          length-map_names f (words_at m stride offset array count)
          ∙ length-words_at m stride offset array count;
      in_place = λ i h.
          nth-map_names f (words_at m stride offset array count) i _
            (nth-words_at m stride offset array count i h);
    }

-- The names of a proc's locals are those of the variables whose ids stand one behind the other where
-- its entry says, as many as it says; those of its parameters stand 16 bytes apart, 8 bytes into
-- theirs, a quarter of the number in the entry. Neither panics if both entries are there.
pub parameter_names-AreNames :
    (get_misc : ℕ → Option ℕ) (v : Version) (entries entry locals params : ℕ) (m : Memory)
    → get_misc (read_u32 m (locals_at entry)) ≡ some locals
    → get_misc (read_u32 m (parameters_at entry)) ≡ some params
    → ((names : List ℕ) × (local_names get_misc v entries entry m ≡ some names)
        × AreNames m entries (read_u32 m (pointer_at v locals)) 4 0 (read_u16 m locals) names)
      × ((names : List ℕ) × (parameter_names get_misc v entries entry m ≡ some names)
          × AreNames m entries
              (read_u32 m (pointer_at v params))
              16
              8
              (read_u16 m params / 4)
              names)
unfolding local_names parameter_names get_locals get_parameters
parameter_names-AreNames get_misc v entries entry locals params m e f = (
  (_, ground (arith, e), words_at-AreNames m entries (read_u32 m (pointer_at v locals)) 4 0 _),
  (_, ground (arith, f), words_at-AreNames m entries (read_u32 m (pointer_at v params)) 16 8 _),
)
