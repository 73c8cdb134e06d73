-- ===== src/Bytecode/Tests.antt =====
-- Bytecode of one proc replaced twice, and the theorems there.
use auxtools.Base.{ℕ, ◌+◌, ◌≡◌, ◌≢◌, refl, false, true, some, List, [], ◌∷◌, arith}
use auxtools.Hooking.{Code}
use auxtools.Bytecode.{Bytecodes, init, put, contains, set_bytecode, shutdown}
use auxtools.Bytecode.Shutdown.{Call, run, EachBuffer, shutdown-restores, shutdown-unused}

abbrev entries : ℕ → Code
entries j = record { ptr = 10 + j; count = 1 }

abbrev before : Bytecodes
before = record { allocations = []; original = []; entry = entries }

abbrev calls : List Call
calls =
    record { id = 3; words = 1 ∷ 2 ∷ []; buffer = 8 }
    ∷ record { id = 3; words = 5 ∷ []; buffer = 9 }
    ∷ []

abbrev after : Bytecodes
after = record {
  allocations = (5 ∷ [], 9) ∷ (1 ∷ 2 ∷ [], 8) ∷ [];
  original = (3, record { ptr = 13; count = 1 }) ∷ [];
  entry = put (put entries 3 (record { ptr = 8; count = 2 })) 3 (record { ptr = 9; count = 1 });
}

calls_succeed : run calls (init before) ≡ some after
unfolding run init set_bytecode
calls_succeed = refl

shutdown-restores_example : (shutdown [] after).0 3 ≡ record { ptr = 13; count = 1 }
shutdown-restores_example = shutdown-restores [] calls before after calls_succeed 3

entries_are_elsewhere : EachBuffer (λ b. (j : ℕ) → (entries j).ptr ≢ b) calls
entries_are_elsewhere = (λ j e. absurd (omega arith), (λ j e. absurd (omega arith), tt))

frees_unused : contains 9 (shutdown (8 ∷ []) after).1 ≡ true
unfolding shutdown
frees_unused = refl

shutdown-unused_example :
    (contains 9 (8 ∷ []) ≡ false) × ((j : ℕ) → ((shutdown (8 ∷ []) after).0 j).ptr ≢ 9)
shutdown-unused_example =
    shutdown-unused (8 ∷ []) calls before after 9 entries_are_elsewhere calls_succeed frees_unused
