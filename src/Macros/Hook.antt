-- ===== src/Macros/Hook.antt =====
-- auxtools-impl/src/lib.rs: the attribute `hook`, and the function that it puts out.
use auxtools.Base.{
  ℕ, zero, suc, ◌-◌, Bool, true, false, Option, none, some, List, [], ◌∷◌, ◌++◌, ltb, if◌then◌else◌,
  length, get_elem?, Text, text_beq,
}
use auxtools.Value.{Value, null_value}
use auxtools.ProcHooks.{DmResult}
use auxtools.Macros.Signature.{Lit}
use auxtools.Macros.Inventory.{Submission, compile_time_hook}

-- The pattern of an argument, as far as the macro tells patterns apart.
pub data Pat : Type 0 where
  ident : Text → Pat
  other_pat : Pat

-- `syn::FnArg`
pub data FnArg : Type 0 where
  receiver : FnArg
  typed : Pat → FnArg

-- `syn::ReturnType`
pub data ReturnType : Type 0 where
  default_type : ReturnType
  path_type : (segments : List Text) → ReturnType
  other_type : ReturnType

pub record ItemFn : Type 0 where
  pub func_name : Text
  pub inputs : List FnArg
  pub output : ReturnType

-- What is inserted into the code that is put out.
pub record HookCode : Type 0 where
  pub cthook_prelude : Option Submission
  pub func_name : Text
  pub args_len : ℕ
  pub arg_names : List Text
  -- the indices that `proc_arg_unpacker` reads
  pub proc_arg_unpacker : List ℕ

pub data HookExpanded : Type 0 where
  expanded : HookCode → HookExpanded
  compile_error : HookExpanded
  panic : HookExpanded

abbrev dm_result_word : Text
dm_result_word = b'D' ∷ b'M' ∷ b'R' ∷ b'e' ∷ b's' ∷ b'u' ∷ b'l' ∷ b't' ∷ []

-- Of a path, the first segment alone is compared.
unfoldable pub output_ok : ReturnType → Bool
output_ok default_type = true
output_ok (path_type []) = false
output_ok (path_type (segment ∷ _)) = text_beq segment dm_result_word
output_ok other_type = false

-- The loop over the arguments, which `extract_args` ends with a panic at a receiver.
unfoldable pub unpack : List FnArg → List Text → List ℕ → Option (List Text × List ℕ)
unpack [] arg_names unpacker = some (arg_names, unpacker)
unpack (receiver ∷ args) arg_names unpacker = none
unpack (typed (ident name) ∷ args) arg_names unpacker =
    unpack args (arg_names ++ (name ∷ []))
      (unpacker ++ ((length (arg_names ++ (name ∷ [])) - 1) ∷ []))
unpack (typed other_pat ∷ args) arg_names unpacker = unpack args arg_names unpacker

unfoldable pub hook_prelude : Option Lit → Text → Option Submission
hook_prelude none func_name = none
hook_prelude (some proc) func_name = some (compile_time_hook proc func_name)

unfoldable pub hook : (proc : Option Lit) → ItemFn → HookExpanded
unfolding output_ok unpack hook_prelude
hook proc input =
    if output_ok input.output
    then (elim (unpack input.inputs [] []) [
      | none ↦ panic
      | some (arg_names, unpacker) ↦ expanded (record {
        cthook_prelude = hook_prelude proc input.func_name;
        func_name = input.func_name;
        args_len = length input.inputs;
        arg_names = arg_names;
        proc_arg_unpacker = unpacker;
      })
    ])
    else compile_error

-- The block of the function, which sees the names that are bound and `src`, `usr` and `args`.
abbrev pub Body : Type 0 → Type 0
Body W = (bound : List (Text × Value)) (src usr : Value) (args : List Value) → W → DmResult × W

unfoldable pub push_nulls : ℕ → List Value → List Value
push_nulls zero args = args
push_nulls (suc n) args = push_nulls n (args ++ (null_value ∷ []))

unfoldable pub fill_args : (args_len : ℕ) → List Value → List Value
unfolding push_nulls
fill_args args_len args =
    if ltb (length args) args_len then push_nulls (args_len - length args) args else args

-- `&args[index]` for each index; `none` is the panic of an index out of range.
unfoldable pub read_args : List Value → List ℕ → Option (List Value)
read_args args [] = some []
read_args args (index ∷ rest) = elim (get_elem? args index) [
  | none ↦ none
  | some v ↦ elim (read_args args rest) [ none ↦ none | some vs ↦ some (v ∷ vs) ]
]

-- The two tuples have the same length.
abbrev pub bind_names : List Text → List Value → List (Text × Value)
bind_names [] vs = []
bind_names (n ∷ ns) [] = []
bind_names (n ∷ ns) (v ∷ vs) = (n, v) ∷ bind_names ns vs

-- The function that is put out, for a call.
unfoldable pub run_code :
    {W : Type 0} → HookCode → Body W → (src usr : Value) → List Value → W → Option (DmResult × W)
unfolding fill_args read_args
run_code code body src usr args w =
    let filled = fill_args code.args_len args in
    elim (read_args filled code.proc_arg_unpacker) [
      | none ↦ none
      | some vs ↦ some (body (bind_names code.arg_names vs) src usr filled w)
    ]
