-- ===== src/Macros/Inventory.antt =====
-- auxtools-impl/src/lib.rs: the attributes `init`, `runtime_handler` and `shutdown`, which enter a
-- function in an inventory that `auxtools_init`, `on_runtime` and `auxtools_shutdown` go through.
use auxtools.Base.{[], ◌∷◌, if◌then◌else◌, Text, text_beq}
use auxtools.Macros.Signature.{Lit}

-- What `inventory::submit!` is given, with the name of the function.
pub data Submission : Type 0 where
  full_init_func partial_init_func runtime_hook partial_shutdown_func : Text → Submission
  compile_time_hook : Lit → Text → Submission

-- The function is kept as it is, and entered; or the build fails with a message.
pub data Expanded : Type 0 where
  submitted : Submission → Expanded
  compile_error : Expanded

abbrev full_word : Text
full_word = b'f' ∷ b'u' ∷ b'l' ∷ b'l' ∷ []

abbrev partial_word : Text
partial_word = b'p' ∷ b'a' ∷ b'r' ∷ b't' ∷ b'i' ∷ b'a' ∷ b'l' ∷ []

unfoldable pub init : (init_type func_name : Text) → Expanded
init init_type func_name =
    if text_beq init_type full_word
    then submitted (full_init_func func_name)
    else if text_beq init_type partial_word
    then submitted (partial_init_func func_name)
    else compile_error

unfoldable pub runtime_handler : (func_name : Text) → Expanded
runtime_handler func_name = submitted (runtime_hook func_name)

unfoldable pub shutdown : (func_name : Text) → Expanded
shutdown func_name = submitted (partial_shutdown_func func_name)
