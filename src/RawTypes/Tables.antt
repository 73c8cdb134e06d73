-- ===== src/RawTypes/Tables.antt =====
-- auxtools/src/raw_types/misc.rs and bytecode_manager.rs: the table of the procs' bytecode in memory
-- against the function that stands for it in Bytecode.
use auxtools.Base.{
  ℕ, ◌+◌, ◌^◌, ◌<◌, ◌≤◌, ◌≡◌, ◌≢◌, ◌⊎◌, inl, inr, sym, subst, ◌∙◌, Bool-cases, Option, some, ◌==◌,
  ==_iff, if◌then◌else◌, arith,
}
use auxtools.Bytecode.{put}
use auxtools.Hooking.{Code}
use auxtools.RawTypes.Memory.{
  Memory, read_u16, read_u32, write_u32, read_u16-write_u16, read_u32-write_u32, write_u16_outside,
  write_u32_outside, Same, read_u16-Same, read_u32-Same,
}
use auxtools.RawTypes.Misc.{
  Version, has_v2, pointer_at, write_v1, write_v2, set_bytecode, get_bytecode, unk_0_at,
}

-- The entry at `misc` after `set_bytecode` holds the bytecode, and no byte outside of it changed.
pub record IsStored (v : Version) (misc ptr count : ℕ) (m n : Memory) : Type 0 where
  pub pointer : read_u32 n (pointer_at v misc) ≡ ptr
  pub count_kept : read_u16 n misc ≡ count
  pub behind_count : read_u32 n (misc + 4) ≡ ptr
  pub outside : (b : ℕ) → (b < misc) ⊎ (misc + 12 ≤ b) → n b ≡ m b

module _ (misc ptr count : ℕ) (hp : ptr < 2 ^ 32) (hc : count < 2 ^ 16) where
  v1_bytes :
      (m : Memory)
      → Same (write_v1 m misc ptr count) (write_u32 m (misc + 4) ptr) (misc + 2) (misc + 12)
  unfolding write_v1
  v1_bytes m b p q = write_u16_outside _ misc count b (inr p)

  v1_above : (m : Memory) → Same (write_v1 m misc ptr count) m (misc + 8) (misc + 12)
  unfolding write_v1
  v1_above m b p q =
      write_u16_outside _ misc count b (inr (omega (arith, p)))
      ∙ write_u32_outside m (misc + 4) ptr b (inr (omega (arith, p)))

  v2_above :
      (m : Memory)
      → Same (write_v2 m misc ptr count) (write_u32 m (misc + 8) ptr) (misc + 8) (misc + 12)
  unfolding write_v2
  v2_above m b p q = write_u16_outside _ misc count b (inr (omega (arith, p)))

  v1_outside :
      (m : Memory) (b : ℕ) → (b < misc) ⊎ (misc + 12 ≤ b) → write_v1 m misc ptr count b ≡ m b
  unfolding write_v1
  v1_outside m b h =
      write_u16_outside _ misc count b (ground (arith, h))
      ∙ write_u32_outside m (misc + 4) ptr b (ground (arith, h))

  v2_outside :
      (m : Memory) (b : ℕ) → (b < misc) ⊎ (misc + 12 ≤ b) → write_v2 m misc ptr count b ≡ m b
  unfolding write_v2
  v2_outside m b h =
      write_u16_outside _ misc count b (ground (arith, h))
      ∙ write_u32_outside m (misc + 8) ptr b (ground (arith, h))

  v1_pointer : (m : Memory) → read_u32 (write_v1 m misc ptr count) (misc + 4) ≡ ptr
  v1_pointer m =
      read_u32-Same _ _ (misc + 4) (misc + 2) (misc + 12) (v1_bytes m) (omega arith) (omega arith)
      ∙ read_u32-write_u32 m (misc + 4) ptr hp

  v1_count : (m : Memory) → read_u16 (write_v1 m misc ptr count) misc ≡ count
  unfolding write_v1
  v1_count m = read_u16-write_u16 _ misc count hc

  v2_pointer :
      (m : Memory) → read_u32 (write_v1 (write_v2 m misc ptr count) misc ptr count) (misc + 8) ≡ ptr
  v2_pointer m =
      read_u32-Same _ _ (misc + 8) (misc + 8) (misc + 12) (v1_above (write_v2 m misc ptr count))
        (omega arith) (omega arith)
      ∙ read_u32-Same _ _ (misc + 8) (misc + 8) (misc + 12) (v2_above m) (omega arith) (omega arith)
      ∙ read_u32-write_u32 m (misc + 8) ptr hp

  IsStored-write_v1 :
      (v : Version) (m : Memory)
      → IsStored v misc ptr count m
          (write_v1 (if has_v2 v then write_v2 m misc ptr count else m) misc ptr count)
  unfolding pointer_at
  IsStored-write_v1 v m = elim (Bool-cases (has_v2 v)) [
    | inl e ↦ rw e (record {
      pointer = ground (arith, e, v2_pointer m);
      count_kept = v1_count (write_v2 m misc ptr count);
      behind_count = v1_pointer (write_v2 m misc ptr count);
      outside = λ b h. v1_outside (write_v2 m misc ptr count) b h ∙ v2_outside m b h;
    })
    | inr e ↦ rw e (record {
      pointer = ground (arith, e, v1_pointer m);
      count_kept = v1_count m;
      behind_count = v1_pointer m;
      outside = v1_outside m;
    })
  ]

-- The entries of the table do not overlap.
abbrev pub IsApart : (ℕ → Option ℕ) → Type 0
IsApart get_misc =
    (i j a b : ℕ) → i ≢ j → get_misc i ≡ some a → get_misc j ≡ some b → (a + 12 ≤ b) ⊎ (b + 12 ≤ a)

abbrev pub IsCode : Code → Type 0
IsCode c = (c.ptr < 2 ^ 32) × (c.count < 2 ^ 16)

module _ (get_misc : ℕ → Option ℕ) (v : Version) where
  -- The bytecode that a memory holds for each entry there is.
  abbrev pub Represents : Memory → (ℕ → Code) → Type 0
  Represents m entry =
      (j a : ℕ) → get_misc j ≡ some a → get_bytecode get_misc v j m ≡ some (entry j)

  pub set_bytecode-IsStored :
      (id misc ptr count : ℕ) (m : Memory)
      → ptr < 2 ^ 32
      → count < 2 ^ 16
      → get_misc id ≡ some misc
      → (n : Memory) × (set_bytecode get_misc v id ptr count m ≡ some n)
        × IsStored v misc ptr count m n
  unfolding set_bytecode
  set_bytecode-IsStored id misc ptr count m hp hc e = (
    write_v1 (if has_v2 v then write_v2 m misc ptr count else m) misc ptr count,
    ground (arith, e),
    IsStored-write_v1 misc ptr count hp hc v m,
  )

  pub get_stored :
      (j a ptr count : ℕ) (m n : Memory)
      → get_misc j ≡ some a
      → IsStored v a ptr count m n
      → get_bytecode get_misc v j n ≡ some (record { ptr = ptr; count = count })
  unfolding get_bytecode
  get_stored j a ptr count m n e h = ground (arith, e, h.pointer, h.count_kept)

  get_beside :
      (j a misc ptr count : ℕ) (m n : Memory)
      → get_misc j ≡ some a
      → (a + 12 ≤ misc) ⊎ (misc + 12 ≤ a)
      → IsStored v misc ptr count m n
      → get_bytecode get_misc v j n ≡ get_bytecode get_misc v j m
  unfolding get_bytecode pointer_at
  get_beside j a misc ptr count m n e apart h =
      let same : Same n m a (a + 12) = λ b p q. h.outside b (ground (arith, apart, p, q)) in
      ground (
        arith,
        e,
        read_u32-Same n m (a + 8) a (a + 12) same (omega arith) (omega arith),
        read_u32-Same n m (a + 4) a (a + 12) same (omega arith) (omega arith),
        read_u16-Same n m a a (a + 12) same (omega arith) (omega arith),
      )

  -- In either layout, storing the bytecode of one entry in BYOND's memory changes the table that
  -- `get_bytecode` reads as `put` changes the function that stands for it, and does not panic, if
  -- the entry is there, the entries do not overlap, and the pointer and the length fit their fields.
  -- In either layout the word behind the count has the pointer then; in the second layout this word
  -- is not part of the bytecode, and what it had is lost.
  pub set_bytecode-put :
      IsApart get_misc
      → (id misc : ℕ) (c : Code) (m : Memory) (entry : ℕ → Code) → IsCode c
      → get_misc id ≡ some misc
      → Represents m entry
      → (n : Memory) × (set_bytecode get_misc v id c.ptr c.count m ≡ some n)
        × Represents n (put entry id c)
        × (read_u32 n (unk_0_at misc) ≡ c.ptr)
  unfolding put
  set_bytecode-put apart id misc c m entry (hp, hc) e h =
      let (n, f, stored) = set_bytecode-IsStored id misc c.ptr c.count m hp hc e in
      (
        n,
        f,
        (λ j a g. elim (Bool-cases (id == j)) [
          | inl same ↦
              let eq : id ≡ j = (==_iff id j).0 same in
              let at_j : a ≡ misc = ground (arith, e, g, eq) in
              ground (
                arith,
                same,
                get_stored j a c.ptr c.count m n g
                    (subst (λ x. IsStored v x c.ptr c.count m n) (sym at_j) stored),
              )
          | inr other ↦
              let ne : id ≢ j = λ eq. ground (arith, other, eq) in
              ground (
                arith,
                other,
                h j a g,
                get_beside j a misc c.ptr c.count m n g (flip (apart id j misc a ne e g)) stored,
              )
        ]),
        stored.behind_count,
      )
    where
      flip : {P Q : Type 0} → P ⊎ Q → Q ⊎ P
      flip (inl p) = inr p
      flip (inr q) = inl q
