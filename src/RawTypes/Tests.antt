-- ===== src/RawTypes/Tests.antt =====
-- auxtools/src/raw_types: a table with two entries, in the second layout.
use auxtools.Base.{
  ℕ, ◌+◌, ◌≡◌, ◌⊎◌, inl, inr, refl, Option, none, some, [], ◌∷◌, ◌==◌, if◌then◌else◌, arith,
}
use auxtools.Bytecode.{put}
use auxtools.Hooking.{Code}
use auxtools.RawTypes.Memory.{Memory, read_u16, read_u32}
use auxtools.RawTypes.Misc.{Version, has_v2, pointer_at, set_bytecode, get_bytecode, unk_0_at}
use auxtools.RawTypes.Names.{bytecode_at, words_at, bytecode}
use auxtools.RawTypes.Tables.{IsApart, Represents, set_bytecode-put}
use auxtools.RawTypes.Buffers.{bytecode-set_bytecode}

abbrev v514 : Version
v514 = record { major = 514; minor = 1550 }

-- The entry 0 is at 100 and the entry 1 at 112.
abbrev get_misc : ℕ → Option ℕ
get_misc id = if id == 0 then some 100 else if id == 1 then some 112 else none

get_misc-IsApart : IsApart get_misc
get_misc-IsApart i j a b ne e f = ground (arith, ne, e, f)

abbrev empty : Memory
empty a = 0

abbrev no_code : ℕ → Code
no_code id = record { ptr = 0; count = 0 }

empty-Represents : (table : ℕ → Option ℕ) → Represents table v514 empty no_code
unfolding get_bytecode has_v2 pointer_at read_u32 read_u16
empty-Represents table j a e = ground (arith, e)

abbrev new_code : Code
new_code = record { ptr = 500; count = 2 }

set_bytecode-put_example :
    (n : Memory) × (set_bytecode get_misc v514 1 500 2 empty ≡ some n)
    × Represents get_misc v514 n (put no_code 1 new_code)
    × (read_u32 n (unk_0_at 112) ≡ 500)
set_bytecode-put_example =
    set_bytecode-put get_misc v514 get_misc-IsApart 1 112 new_code empty no_code
      (omega arith, omega arith) refl (empty-Represents get_misc)

-- A proc's entry at 200, whose bytecode, locals and parameters are all the entry 1, which has the
-- number 4 and the address 500; the words 7 and 9 are there.
abbrev loaded : Memory
loaded a =
    if a == 112
    then 4
    else if a == 120
    then 244
    else if a == 121
    then 1
    else if a == 224
    then 1
    else if a == 228
    then 1
    else if a == 232
    then 1
    else if a == 500
    then 7
    else if a == 504
    then 9
    else 0

two_words : words_at loaded 4 0 500 2 ≡ 7 ∷ 9 ∷ []
unfolding words_at read_u32
two_words = refl

entry_1 :
    (field : ℕ)
    → (field ≡ 24) ⊎ (field ≡ 28) ⊎ (field ≡ 32)
    → get_misc (read_u32 loaded (200 + field)) ≡ some 112
unfolding read_u32
entry_1 field h = ground (arith, h)

bytecode-set_bytecode_example :
    (n : Memory) × (set_bytecode get_misc v514 (read_u32 loaded (bytecode_at 200)) 500 2 loaded
      ≡ some n)
    × (bytecode get_misc v514 200 n ≡ some (7 ∷ 9 ∷ []))
bytecode-set_bytecode_example =
    bytecode-set_bytecode get_misc v514 200 112 500 loaded (7 ∷ 9 ∷ []) (omega arith) (omega arith)
      (entry_1 24 (inl refl)) two_words (inr (omega arith)) (inr (omega arith))
