-- ===== src/Macros/Unpack.antt =====
-- auxtools-impl/src/lib.rs: which arguments the function that `hook` puts out binds.
use mathlib.Core.List.{append_assoc, append-nil}
use auxtools.Base.{
  ℕ, zero, suc, ◌+◌, ◌-◌, ◌≤◌, ◌<◌, ◌≡◌, refl, ap, ◌∙◌, Option, none, some, Option-cases, inl, inr,
  subst, List, [], ◌∷◌, ◌++◌, length, get_elem?, length-append, arith, Text,
}
use auxtools.Value.{Value, null_value}
use auxtools.Macros.Signature.{Lit}
use auxtools.Macros.Hook.{
  ident, other_pat, FnArg, receiver, typed, ItemFn, HookCode, expanded, Body, unpack, hook,
  push_nulls, fill_args, read_args, bind_names, run_code,
}

-- The names of the arguments whose pattern is a name.
abbrev pub names_of : List FnArg → List Text
names_of [] = []
names_of (typed (ident name) ∷ args) = name ∷ names_of args
names_of (_ ∷ args) = names_of args

-- The argument of a call at a place, or null.
abbrev pub nth_or_null : List Value → ℕ → Value
nth_or_null [] i = null_value
nth_or_null (v ∷ vs) zero = v
nth_or_null (v ∷ vs) (suc i) = nth_or_null vs i

-- The first arguments of a call from a place on, as many as asked for.
abbrev firsts : ℕ → ℕ → List Value → List Value
firsts zero i args = []
firsts (suc n) i args = nth_or_null args i ∷ firsts n (i + 1) args

abbrev from_to : ℕ → ℕ → List ℕ
from_to zero i = []
from_to (suc n) i = i ∷ from_to n (i + 1)

names_of_le : (args : List FnArg) → length (names_of args) ≤ length args
names_of_le [] = omega arith
names_of_le (receiver ∷ args) = omega (arith, names_of_le args)
names_of_le (typed (ident name) ∷ args) = omega (arith, names_of_le args)
names_of_le (typed other_pat ∷ args) = omega (arith, names_of_le args)

nth_push :
    (args : List Value) (i : ℕ) → nth_or_null (args ++ (null_value ∷ [])) i ≡ nth_or_null args i
nth_push [] zero = refl
nth_push [] (suc i) = refl
nth_push (v ∷ vs) zero = refl
nth_push (v ∷ vs) (suc i) = nth_push vs i

nth-push_nulls :
    (n : ℕ) (args : List Value) (i : ℕ) → nth_or_null (push_nulls n args) i ≡ nth_or_null args i
unfolding push_nulls
nth-push_nulls zero args i = refl
nth-push_nulls (suc n) args i = nth-push_nulls n (args ++ (null_value ∷ [])) i ∙ nth_push args i

length-push_nulls : (n : ℕ) (args : List Value) → length (push_nulls n args) ≡ n + length args
unfolding push_nulls
length-push_nulls zero args = omega arith
length-push_nulls (suc n) args =
    omega
      (arith, length-push_nulls n (args ++ (null_value ∷ [])), length-append args (null_value ∷ []))

nth-fill_args :
    (n : ℕ) (args : List Value) (i : ℕ) → nth_or_null (fill_args n args) i ≡ nth_or_null args i
unfolding fill_args
nth-fill_args n args i = ground (arith, nth-push_nulls (n - length args) args i)

length-fill_args : (n : ℕ) (args : List Value) → n ≤ length (fill_args n args)
unfolding fill_args
length-fill_args n args = ground (arith, length-push_nulls (n - length args) args)

get_nth :
    (args : List Value) (i : ℕ) → i < length args → get_elem? args i ≡ some (nth_or_null args i)
get_nth [] i h = absurd (omega (arith, h))
get_nth (v ∷ vs) zero h = refl
get_nth (v ∷ vs) (suc i) h = get_nth vs i (omega (arith, h))

read_args-from_to :
    (n i : ℕ) (args : List Value)
    → i + n ≤ length args
    → read_args args (from_to n i) ≡ some (firsts n i args)
unfolding read_args
read_args-from_to zero i args h = refl
read_args-from_to (suc n) i args h =
    ground (
      arith,
      get_nth args i (omega (arith, h)),
      read_args-from_to n (i + 1) args (omega (arith, h)),
    )

unpack-names_of :
    (args : List FnArg) (arg_names : List Text) (unpacker : List ℕ) (names : List Text)
    (indices : List ℕ)
    → unpack args arg_names unpacker ≡ some (names, indices)
    → (names ≡ arg_names ++ names_of args)
      × (indices ≡ unpacker ++ from_to (length (names_of args)) (length arg_names))
unfolding unpack
unpack-names_of [] arg_names unpacker names indices h =
    (ground (arith, append-nil arg_names, h), ground (arith, append-nil unpacker, h))
unpack-names_of (receiver ∷ args) arg_names unpacker names indices h = ground (arith, h)
unpack-names_of (typed other_pat ∷ args) arg_names unpacker names indices h =
    unpack-names_of args arg_names unpacker names indices h
unpack-names_of (typed (ident name) ∷ args) arg_names unpacker names indices h =
    let longer = arg_names ++ (name ∷ []) in
    let one_more : length longer ≡ length arg_names + 1 =
      omega (arith, length-append arg_names (name ∷ [])) in
    let last : length longer - 1 ≡ length arg_names = omega (arith, one_more) in
    let (e, f) =
      unpack-names_of args longer (unpacker ++ ((length longer - 1) ∷ [])) names indices h in
    (
      e ∙ append_assoc arg_names (name ∷ []) (names_of args),
      f
          ∙ append_assoc unpacker ((length longer - 1) ∷ [])
              (from_to (length (names_of args)) (length longer))
          ∙ cc (last, one_more),
    )

hook-expanded :
    (proc : Option Lit) (input : ItemFn) (code : HookCode)
    → hook proc input ≡ expanded code
    → (code.args_len ≡ length input.inputs)
      × (code.arg_names ≡ names_of input.inputs)
      × (code.proc_arg_unpacker ≡ from_to (length (names_of input.inputs)) 0)
unfolding hook
hook-expanded proc input code h = elim (Option-cases (unpack input.inputs [] [])) [
  | inl e ↦ (ground (arith, h, e), ground (arith, h, e), ground (arith, h, e))
  | inr ((names, indices), e) ↦
      let (f, g) = unpack-names_of input.inputs [] [] names indices e in
      (ground (arith, h, e), ground (arith, h, e, f), ground (arith, h, e, g))
]

-- Each name in order with the argument at its place, or null.
pub record Binds (names : List Text) (args : List Value) (bound : List (Text × Value))
    : Type 0 where
  pub in_place :
      (i : ℕ)
      → get_elem? bound i ≡ (elim (get_elem? names i) as (λ _. Option (Text × Value)) [
        | none ↦ none
        | some name ↦ some (name, nth_or_null args i)
      ])

nth_binding :
    (names : List Text) (start i : ℕ) (args : List Value)
    → get_elem? (bind_names names (firsts (length names) start args)) i
      ≡ (elim (get_elem? names i) as (λ _. Option (Text × Value)) [
        | none ↦ none
        | some name ↦ some (name, nth_or_null args (start + i))
      ])
nth_binding [] start i args = refl
nth_binding (n ∷ ns) start zero args = ap (λ k. some (n, nth_or_null args k)) (omega arith)
nth_binding (n ∷ ns) start (suc i) args =
    let same : start + 1 + i ≡ start + suc i = omega arith in
    subst
      (λ k.
        get_elem? (bind_names ns (firsts (length ns) (start + 1) args)) i
        ≡ (elim (get_elem? ns i) as (λ _. Option (Text × Value)) [
          | none ↦ none
          | some name ↦ some (name, nth_or_null args k)
        ]))
      same (nth_binding ns (start + 1) i args)

fill-bindings :
    (names : List Text) (n : ℕ) (args : List Value)
    → Binds names args (bind_names names (firsts (length names) 0 (fill_args n args)))
fill-bindings names n args = record {
  in_place = λ i.
      let zero_first : 0 + i ≡ i = omega arith in
      nth_binding names 0 i (fill_args n args)
      ∙ ap
          (λ v. elim (get_elem? names i) as (λ _. Option (Text × Value)) [
            | none ↦ none
            | some name ↦ some (name, v)
          ])
          (nth-fill_args n args (0 + i) ∙ ap (nth_or_null args) zero_first);
}

-- The function that `hook` puts out does not panic before its block runs, for whatever arguments
-- BYOND calls it with, and the block sees the names of the parameters in order, each with the
-- argument at its place among the names, or null where the call has none. A parameter whose pattern
-- is not a name takes no argument, so that the names behind it get those of the places before.
pub run_code-Binds :
    {W : Type 0} (proc : Option Lit) (input : ItemFn) (code : HookCode) (body : Body W)
    (src usr : Value) (args : List Value) (w : W)
    → hook proc input ≡ expanded code
    → (bound : List (Text × Value)) × (run_code code body src usr args w
        ≡ some (body bound src usr (fill_args (length input.inputs) args) w))
      × Binds (names_of input.inputs) args bound
unfolding run_code
run_code-Binds proc input code body src usr args w h =
    let names = names_of input.inputs in
    let filled = fill_args (length input.inputs) args in
    let (e, f, g) = hook-expanded proc input code h in
    let read =
      read_args-from_to (length names) 0 filled
        (omega (arith, names_of_le input.inputs, length-fill_args (length input.inputs) args)) in
    (
      bind_names names (firsts (length names) 0 filled),
      ground (arith, e, f, g, read),
      fill-bindings names (length input.inputs) args,
    )
