-- ===== src/Sigscan.antt =====
-- auxtools/src/sigscan/linux.rs and windows.rs: the search for a byte signature in the memory of a
-- loaded module.
pub mod Scan
pub mod Find
mod Tests
use auxtools.Base.{
  ℕ, zero, suc, ◌+◌, ◌-◌, ◌*◌, Bool, true, false, ◌&&◌, Option, none, some, List, [], ◌∷◌, reverse,
  leb, ◌==◌, if◌then◌else◌, length, get_elem?, Text,
}
use auxtools.Procs.{starts_with}

-- A signature: `none` stands for any byte.
abbrev pub Signature : Type 0
Signature = List (Option ℕ)

pub data Outcome : Type 0 where
  done : Option ℕ → Outcome
  panic : Outcome
  out_of_fuel : Outcome

-- `signature[i] == None || signature[i] == Some(byte)`
unfoldable pub fits : Option ℕ → ℕ → Bool
fits none byte = true
fits (some b) byte = b == byte

-- The `while` loop of `Scanner::find`. Reading past the end of the signature panics.
unfoldable pub scan :
    (fuel : ℕ) (memory : ℕ → ℕ) (signature : Signature) (data_end data_current offset : ℕ)
    → Option ℕ
    → Outcome
unfolding fits
scan zero memory signature data_end data_current offset result = out_of_fuel
scan (suc fuel) memory signature data_end data_current offset result =
    elim (leb data_current data_end) [
      | false ↦ done result
      | true ↦ elim (get_elem? signature offset) [
        | none ↦ panic
        | some want ↦ elim (fits want (memory data_current)) [
          | false ↦ scan fuel memory signature data_end (data_current - offset + 1) 0 result
          | true ↦ elim (leb (length signature) (offset + 1)) [
            | false ↦ scan fuel memory signature data_end (data_current + 1) (offset + 1) result
            | true ↦ elim result [
              | some _ ↦ done none
              | none ↦
                  scan fuel memory signature data_end (data_current - offset + 1) 0
                    (some (data_current - offset))
            ]
          ]
        ]
      ]
    ]

-- Rounds that are enough for every search from `start` to `data_end`.
unfoldable pub rounds : (data_end start n : ℕ) → ℕ
rounds data_end start n = (data_end + 1 - start) * n + n + 1

-- `Scanner::find` on Windows: `data_end` is the last byte of the module.
unfoldable pub find_windows : (memory : ℕ → ℕ) (data_begin size : ℕ) → Signature → Outcome
unfolding scan rounds
find_windows memory data_begin size signature =
    scan (rounds (data_begin + size - 1) data_begin (length signature)) memory signature
      (data_begin + size - 1) data_begin 0 none

-- What `dl_iterate_phdr` reports of a module: its name, its load address, and whether each header
-- is `PT_LOAD`, with its address and size.
pub record Header : Type 0 where
  pub is_load : Bool
  pub vaddr : ℕ
  pub memsz : ℕ

pub record LoadedModule : Type 0 where
  pub name : Text
  pub addr : ℕ
  pub headers : List Header

unfoldable pub first_load : List Header → Option Header
first_load [] = none
first_load (h ∷ hs) = if h.is_load then some h else first_load hs

unfoldable pub ends_with : Text → Text → Bool
ends_with suffix s = starts_with (reverse suffix) (reverse s)

-- `dl_phdr_callback` over all modules: the last one whose name ends with `target` gives the area.
-- `none` is the panic of a module without a `PT_LOAD` header.
unfoldable pub locate : Text → List LoadedModule → ℕ × ℕ → Option (ℕ × ℕ)
unfolding first_load ends_with
locate target [] area = some area
locate target (m ∷ ms) area = elim (ends_with target m.name) [
  | false ↦ locate target ms area
  | true ↦ elim (first_load m.headers) [
    | none ↦ none
    | some h ↦ locate target ms (m.addr + h.vaddr, h.memsz)
  ]
]

-- `Scanner::find` on Linux: `data_end` is the address after the area.
unfoldable pub find_linux : (memory : ℕ → ℕ) → Text → List LoadedModule → Signature → Outcome
unfolding scan rounds locate
find_linux memory target modules signature = elim (locate target modules (0, 0)) [
  | none ↦ panic
  | some (start, len) ↦
      scan (rounds (start + len) start (length signature)) memory signature (start + len) start 0
        none
]

-- `Scanner::for_module` on Windows, given whether the module is loaded, and its base and size: the
-- first and the last address.
unfoldable pub windows_area : (loaded : Bool) (information : Option (ℕ × ℕ)) → Option (ℕ × ℕ)
windows_area false information = none
windows_area true none = none
windows_area true (some (base, size)) = some (base, base + size - 1)
