-- ===== src/RawTypes/Memory.antt =====
-- Memory by its bytes, and the words that stand in it, least significant byte first.
use auxtools.Base.{ℕ, ◌+◌, ◌*◌, ◌/◌, ◌%◌, ◌^◌, ◌<◌, ◌≤◌, ◌≡◌, ◌⊎◌, ◌==◌, if◌then◌else◌, arith}

abbrev pub Memory : Type 0
Memory = ℕ → ℕ

unfoldable pub read_u16 : Memory → ℕ → ℕ
read_u16 m a = m a + 256 * m (a + 1)

unfoldable pub read_u32 : Memory → ℕ → ℕ
read_u32 m a = m a + 256 * m (a + 1) + 65536 * m (a + 2) + 16777216 * m (a + 3)

unfoldable pub write_u16 : Memory → ℕ → ℕ → Memory
write_u16 m a x b = if b == a then x % 256 else if b == a + 1 then x / 256 % 256 else m b

unfoldable pub write_u32 : Memory → ℕ → ℕ → Memory
write_u32 m a x b =
    if b == a
    then x % 256
    else if b == a + 1
    then x / 256 % 256
    else if b == a + 2
    then x / 65536 % 256
    else if b == a + 3
    then x / 16777216 % 256
    else m b

pub read_u16-write_u16 : (m : Memory) (a x : ℕ) → x < 2 ^ 16 → read_u16 (write_u16 m a x) a ≡ x
unfolding read_u16 write_u16
read_u16-write_u16 m a x h = ground (arith, h)

pub read_u32-write_u32 : (m : Memory) (a x : ℕ) → x < 2 ^ 32 → read_u32 (write_u32 m a x) a ≡ x
unfolding read_u32 write_u32
read_u32-write_u32 m a x h = ground (arith, h)

-- A byte outside of what is written stays.
pub write_u16_outside : (m : Memory) (a x b : ℕ) → (b < a) ⊎ (a + 2 ≤ b) → write_u16 m a x b ≡ m b
unfolding write_u16
write_u16_outside m a x b h = ground (arith, h)

pub write_u32_outside : (m : Memory) (a x b : ℕ) → (b < a) ⊎ (a + 4 ≤ b) → write_u32 m a x b ≡ m b
unfolding write_u32
write_u32_outside m a x b h = ground (arith, h)

-- Two memories with the same bytes in a range have the same words there.
abbrev pub Same : (m n : Memory) (from to : ℕ) → Type 0
Same m n from to = (b : ℕ) → from ≤ b → b < to → m b ≡ n b

pub read_u16-Same :
    (m n : Memory) (a from to : ℕ)
    → Same m n from to
    → from ≤ a
    → a + 2 ≤ to
    → read_u16 m a ≡ read_u16 n a
unfolding read_u16
read_u16-Same m n a from to h p q =
    let e0 : m a ≡ n a = h a p (omega (arith, q)) in
    let e1 : m (a + 1) ≡ n (a + 1) = h (a + 1) (omega (arith, p)) (omega (arith, q)) in
    omega (arith, e0, e1)

pub read_u32-Same :
    (m n : Memory) (a from to : ℕ)
    → Same m n from to
    → from ≤ a
    → a + 4 ≤ to
    → read_u32 m a ≡ read_u32 n a
unfolding read_u32
read_u32-Same m n a from to h p q =
    let e0 : m a ≡ n a = h a p (omega (arith, q)) in
    let e1 : m (a + 1) ≡ n (a + 1) = h (a + 1) (omega (arith, p)) (omega (arith, q)) in
    let e2 : m (a + 2) ≡ n (a + 2) = h (a + 2) (omega (arith, p)) (omega (arith, q)) in
    let e3 : m (a + 3) ≡ n (a + 3) = h (a + 3) (omega (arith, p)) (omega (arith, q)) in
    omega (arith, e0, e1, e2, e3)
