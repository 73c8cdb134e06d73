-- ===== src/Ffi.antt =====
-- auxtools/src/byond_ffi.rs: functions that DM calls by `call()`, with C strings in both directions.
pub mod Answer
mod Tests
use auxtools.Base.{
  ℕ, zero, suc, ◌+◌, Bool, true, false, Option, none, some, List, [], ◌∷◌, ◌==◌, if◌then◌else◌,
  length, get_elem?, map, leb, Text,
}

-- The position of the first NUL, where `CString::new` fails.
unfoldable pub nul_position : List ℕ → Option ℕ
nul_position [] = none
nul_position (b ∷ bs) =
    let rest = nul_position bs in
    if b == 0 then some 0 else (elim rest [ none ↦ none | some pos ↦ some (suc pos) ])

-- `Vec::truncate`
unfoldable pub truncate : List ℕ → ℕ → List ℕ
truncate [] pos = []
truncate (b ∷ bs) zero = []
truncate (b ∷ bs) (suc pos) = b ∷ truncate bs pos

-- `CString::new(vec).unwrap_or_default()`
unfoldable pub c_string_or_default : List ℕ → List ℕ
unfolding nul_position
c_string_or_default vec = elim (nul_position vec) [ none ↦ vec | some _ ↦ [] ]

-- The pointer that is returned: to the static empty string, or to what `RETURN_STRING` holds.
pub data Returned : Type 0 where
  empty_string return_string : Returned

-- The pointer, and `RETURN_STRING` without its final NUL.
unfoldable pub byond_return : Option (List ℕ) → (return_cell : List ℕ) → Returned × List ℕ
unfolding nul_position truncate c_string_or_default
byond_return none return_cell = (empty_string, return_cell)
byond_return (some []) return_cell = (empty_string, return_cell)
byond_return (some (b ∷ bs)) return_cell = elim (nul_position (b ∷ bs)) [
  | none ↦ (return_string, b ∷ bs)
  | some pos ↦ (return_string, c_string_or_default (truncate (b ∷ bs) pos))
]

-- What a C program reads: the bytes before the first NUL. Here memory from the pointer on is a list.
unfoldable pub c_str : List ℕ → List ℕ
c_str [] = []
c_str (b ∷ bs) = let rest = c_str bs in if b == 0 then [] else b ∷ rest

module _ (to_string_lossy : List ℕ → Text) where
  -- An argument is what memory holds from its pointer on.
  unfoldable pub parse_args : List (List ℕ) → List Text
  unfolding c_str
  parse_args argv = map (λ ptr. to_string_lossy (c_str ptr)) argv

-- `__args.get(__argn).map_or("", ..)`
unfoldable pub arg_or_empty : List Text → ℕ → Text
arg_or_empty args argn = elim (get_elem? args argn) [ none ↦ [] | some a ↦ a ]

-- The names that the macro is given take an argument each.
unfoldable pub named_args : List Text → (argn : ℕ) → (names : ℕ) → List Text
unfolding arg_or_empty
named_args args argn zero = []
named_args args argn (suc names) = arg_or_empty args argn ∷ named_args args (argn + 1) names

abbrev drop : ℕ → List Text → List Text
drop zero args = args
drop (suc n) [] = []
drop (suc n) (a ∷ args) = drop n args

-- `__args.get(__argn..).unwrap_or(&[])`
unfoldable pub rest_args : List Text → (argn : ℕ) → List Text
rest_args args argn = if leb argn (length args) then drop argn args else []

-- The function that `byond_ffi_fn!` defines, with `names` named arguments and the rest; the body runs
-- over a state `W`.
unfoldable pub call_fn :
    {W : Type 0} (to_string_lossy : List ℕ → Text) (names : ℕ)
    (body : (named rest : List Text) → W → Option (List ℕ) × W)
    → (argv : List (List ℕ)) → (return_cell : List ℕ) → W
    → (Returned × List ℕ) × W
unfolding parse_args named_args rest_args byond_return
call_fn to_string_lossy names body argv return_cell w =
    let args = parse_args to_string_lossy argv in
    let (value, w') = body (named_args args 0 names) (rest_args args names) w in
    (byond_return value return_cell, w')
