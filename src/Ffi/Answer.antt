-- ===== src/Ffi/Answer.antt =====
-- auxtools/src/byond_ffi.rs: what the body of a function is given, and what BYOND reads of its result.
use auxtools.Base.{
  ℕ, zero, suc, ◌+◌, ◌<◌, ◌≡◌, refl, sym, ap, subst, ◌∙◌, Option, none, some, Option-cases, inl,
  inr, List, [], ◌∷◌, ◌++◌, length, get_elem?, get_elem?-none, leb, Bool-cases, arith, Text,
}
use auxtools.Ffi.{
  nul_position, truncate, c_string_or_default, Returned, empty_string, return_string, byond_return,
  c_str, parse_args, arg_or_empty, named_args, rest_args, drop, call_fn,
}

-- The bytes that stand where the pointer leads: a string ends with a NUL, and anything follows.
abbrev pub pointed : Returned × List ℕ → (behind : List ℕ) → List ℕ
pointed (empty_string, cell) behind = 0 ∷ behind
pointed (return_string, cell) behind = cell ++ (0 ∷ behind)

abbrev pub bytes_of : Option (List ℕ) → List ℕ
bytes_of none = []
bytes_of (some bytes) = bytes

c_str-none : (bs behind : List ℕ) → nul_position bs ≡ none → c_str (bs ++ (0 ∷ behind)) ≡ c_str bs
unfolding nul_position c_str
c_str-none [] behind h = refl
c_str-none (b ∷ bs) behind h = elim (Option-cases (nul_position bs)) [
  | inl e ↦ ground (arith, h, e, c_str-none bs behind e)
  | inr (pos, e) ↦ ground (arith, h, e)
]

-- What is cut at the first NUL has none, and is what a C program reads.
truncate-none :
    (bs : List ℕ) (pos : ℕ)
    → nul_position bs ≡ some pos
    → (nul_position (truncate bs pos) ≡ none) × (c_str (truncate bs pos) ≡ c_str bs)
unfolding nul_position truncate c_str
truncate-none [] pos h = ground (arith, h)
truncate-none (b ∷ bs) zero h = elim (Option-cases (nul_position bs)) [
  | inl e ↦ ground (arith, h, e)
  | inr (pos, e) ↦ ground (arith, h, e)
]
truncate-none (b ∷ bs) (suc pos) h = elim (Option-cases (nul_position bs)) [
  | inl e ↦ ground (arith, h, e)
  | inr (p, e) ↦
      let same : p ≡ pos = ground (arith, h, e) in
      let (f, g) = truncate-none bs pos (e ∙ ap some same) in
      (ground (arith, h, e, f), ground (arith, h, e, g))
]

byond_return_whole :
    (b : ℕ) (bs cell : List ℕ)
    → nul_position (b ∷ bs) ≡ none
    → byond_return (some (b ∷ bs)) cell ≡ (return_string, b ∷ bs)
unfolding byond_return
byond_return_whole b bs cell e =
    subst
      (λ o.
        (elim o as (λ _. Returned × List ℕ) [
          | none ↦ (return_string, b ∷ bs)
          | some pos ↦ (return_string, c_string_or_default (truncate (b ∷ bs) pos))
        ])
        ≡ (return_string, b ∷ bs))
      (sym e) refl

byond_return_cut :
    (b : ℕ) (bs cell : List ℕ) (pos : ℕ)
    → nul_position (b ∷ bs) ≡ some pos
    → nul_position (truncate (b ∷ bs) pos) ≡ none
    → byond_return (some (b ∷ bs)) cell ≡ (return_string, truncate (b ∷ bs) pos)
unfolding byond_return c_string_or_default
byond_return_cut b bs cell pos e f =
    subst
      (λ o.
        (elim o as (λ _. Returned × List ℕ) [
          | none ↦ (return_string, b ∷ bs)
          | some p ↦ (return_string, c_string_or_default (truncate (b ∷ bs) p))
        ])
        ≡ (return_string, truncate (b ∷ bs) pos))
      (sym e)
      (subst
        (λ o.
          ◌≡◌ {A = Returned × List ℕ}
            (return_string, elim o as (λ _. List ℕ) [ none ↦ truncate (b ∷ bs) pos | some _ ↦ [] ])
            (return_string, truncate (b ∷ bs) pos))
        (sym f) refl)

c_str_nul : (behind : List ℕ) → c_str (0 ∷ behind) ≡ c_str []
unfolding c_str
c_str_nul behind = refl

c_str-byond_return :
    (value : Option (List ℕ)) (cell behind : List ℕ)
    → c_str (pointed (byond_return value cell) behind) ≡ c_str (bytes_of value)
unfolding byond_return
c_str-byond_return none cell behind = c_str_nul behind
c_str-byond_return (some []) cell behind = c_str_nul behind
c_str-byond_return (some (b ∷ bs)) cell behind = elim (Option-cases (nul_position (b ∷ bs))) [
  | inl e ↦
      ap (λ r. c_str (pointed r behind)) (byond_return_whole b bs cell e)
      ∙ c_str-none (b ∷ bs) behind e
  | inr (pos, e) ↦
      let (f, g) = truncate-none (b ∷ bs) pos e in
      ap (λ r. c_str (pointed r behind)) (byond_return_cut b bs cell pos e f)
      ∙ c_str-none (truncate (b ∷ bs) pos) behind f
      ∙ g
]

-- The arguments that a body is given: the named ones in order, empty where the call has none, and
-- those behind them.
pub record AreArgs (names : ℕ) (args named rest : List Text) : Type 0 where
  pub named_in_place : (i : ℕ) → i < names → get_elem? named i ≡ some (arg_or_empty args i)
  pub named_size : length named ≡ names
  pub rest_in_place : (i : ℕ) → get_elem? rest i ≡ get_elem? args (names + i)

nth-named_args :
    (args : List Text) (argn names i : ℕ)
    → i < names
    → get_elem? (named_args args argn names) i ≡ some (arg_or_empty args (argn + i))
unfolding named_args
nth-named_args args argn zero i h = absurd (omega (arith, h))
nth-named_args args argn (suc names) zero h = ap (λ k. some (arg_or_empty args k)) (omega arith)
nth-named_args args argn (suc names) (suc i) h =
    nth-named_args args (argn + 1) names i (omega (arith, h))
    ∙ ap (λ k. some (arg_or_empty args k)) (omega arith)

length-named_args :
    (args : List Text) (argn names : ℕ) → length (named_args args argn names) ≡ names
unfolding named_args
length-named_args args argn zero = refl
length-named_args args argn (suc names) = ap suc (length-named_args args (argn + 1) names)

nth-drop : (n i : ℕ) (args : List Text) → get_elem? (drop n args) i ≡ get_elem? args (n + i)
nth-drop zero i args = ap (get_elem? args) (omega arith)
nth-drop (suc n) i [] = sym (get_elem?-none [] (suc n + i) (omega arith))
nth-drop (suc n) i (a ∷ args) =
    nth-drop n i args ∙ ap (get_elem? (a ∷ args)) {x = suc (n + i)} (omega arith)

nth-rest_args :
    (args : List Text) (n i : ℕ) → get_elem? (rest_args args n) i ≡ get_elem? args (n + i)
unfolding rest_args
nth-rest_args args n i = elim (Bool-cases (leb n (length args))) [
  | inl e ↦ rw e (nth-drop n i args)
  | inr e ↦ rw e (sym (get_elem?-none args (n + i) (ground (arith, e))))
]

-- A function that `byond_ffi_fn!` defines runs its body on BYOND's arguments, the named ones in order
-- and empty where the call has none, then those behind them; and BYOND reads the bytes of the body's
-- result up to its first NUL, or the empty string if there is no result.
pub c_str-call_fn :
    {W : Type 0} (to_string_lossy : List ℕ → Text) (names : ℕ)
    (body : (named rest : List Text) → W → Option (List ℕ) × W) (argv : List (List ℕ))
    (return_cell behind : List ℕ) (w : W)
    → (named : List Text) × (rest : List Text) × AreArgs names
        (parse_args to_string_lossy argv)
        named
        rest
      × ((call_fn to_string_lossy names body argv return_cell w).1 ≡ (body named rest w).1)
      × (c_str (pointed (call_fn to_string_lossy names body argv return_cell w).0 behind)
          ≡ c_str (bytes_of (body named rest w).0))
unfolding call_fn
c_str-call_fn to_string_lossy names body argv return_cell behind w =
    let args = parse_args to_string_lossy argv in
    let named = named_args args 0 names in
    let rest = rest_args args names in
    (
      named,
      rest,
      record {
        named_in_place = λ i h.
            nth-named_args args 0 names i h ∙ ap (λ k. some (arg_or_empty args k)) (omega arith);
        named_size = length-named_args args 0 names;
        rest_in_place = nth-rest_args args names;
      },
      refl,
      c_str-byond_return (body named rest w).0 return_cell behind,
    )
