-- ===== src/Bytecode.antt =====
-- auxtools/src/bytecode_manager.rs: bytecode that replaces a proc's own until shutdown.
pub mod Shutdown
mod Tests
use auxtools.Base.{
  ℕ, ◌+◌, ◌^◌, Bool, true, false, Option, none, some, List, [], ◌∷◌, ltb, ◌==◌, if◌then◌else◌,
  length, lookup, insert, Text, text_eq, nat_eq,
}
use auxtools.Hooking.{Code}

-- `State`, with BYOND's table of the procs' bytecode. An allocation is a vector of words and the
-- address of its buffer.
pub record Bytecodes : Type 0 where
  pub allocations : List (List ℕ × ℕ)
  pub original : List (ℕ × Code)
  pub entry : ℕ → Code

unfoldable pub init : Bytecodes → Bytecodes
init s = record { allocations = []; original = []; entry = s.entry }

unfoldable pub put : (ℕ → Code) → ℕ → Code → ℕ → Code
put entry id c j = if id == j then c else entry j

-- The first bytecode that a proc had is kept.
unfoldable pub keep_original : ℕ → Bytecodes → List (ℕ × Code)
keep_original id s = elim (lookup id s.original) [
  | some _ ↦ s.original
  | none ↦ insert id (s.entry id) s.original
]

-- Equal vectors share one allocation; `fresh` is the buffer of the vector passed in. Vectors are compared
-- as they were put in, also if BYOND has written to one since.
unfoldable pub share : List ℕ → ℕ → List (List ℕ × ℕ) → ℕ × List (List ℕ × ℕ)
share words fresh allocations = elim (lookup words allocations) [
  | some ptr ↦ (ptr, allocations)
  | none ↦ (fresh, insert words fresh allocations)
]

-- `none` is the panic of a length that does not fit a `u16`.
unfoldable pub set_bytecode : ℕ → List ℕ → ℕ → Bytecodes → Option Bytecodes
unfolding put keep_original share
set_bytecode id words fresh s =
    let (ptr, allocations) = share words fresh s.allocations in
    if ltb (length words) (2 ^ 16)
    then some (record {
      allocations = allocations;
      original = keep_original id s;
      entry = put s.entry id (record { ptr = ptr; count = length words });
    })
    else none

unfoldable pub restore : List (ℕ × Code) → (ℕ → Code) → ℕ → Code
unfolding put
restore [] entry = entry
restore ((id, c) ∷ rest) entry = restore rest (put entry id c)

abbrev pub contains : ℕ → List ℕ → Bool
contains a [] = false
contains a (b ∷ bs) = if a == b then true else contains a bs

-- The buffers that are freed: a buffer that a running proc still reads is leaked.
unfoldable pub freed : List ℕ → List (List ℕ × ℕ) → List ℕ
freed active [] = []
freed active ((words, ptr) ∷ rest) =
    if contains ptr active then freed active rest else ptr ∷ freed active rest

-- `shutdown`, given the bytecode pointers of the running procs: the table and the freed buffers.
unfoldable pub shutdown : List ℕ → Bytecodes → (ℕ → Code) × List ℕ
unfolding restore freed
shutdown active s = (restore s.original s.entry, freed active s.allocations)
